-- ===== src/Persistence/Table.antt =====
-- The `jobs` table and one conditional `UPDATE` of it, as the statements of
-- persistence/src/postgres.rs run them. A statement sees one instant, `NOW()`.
use streaming_video_app.Prelude.{
  ℕ, suc, Text, text_eq, Bool, true, false, ◌&&◌, Option, none, some, List, [], ◌∷◌, ltb, Result,
  ok, err,
}
use streaming_video_app.Persistence.Port.{PersistenceError, postgres_operation_failed, JobMode}

pub data JobStatus : Type 0 where
  uploading queued processing completed failed : JobStatus

-- A row, with the columns that the worker's statements read or write.
pub record Job : Type 0 where
  pub id : Text
  pub video_id : Text
  pub status : JobStatus
  pub mode : Option JobMode
  pub worker_id : Option Text
  pub lease_expires_at : Option ℕ
  pub attempt : ℕ
  pub failure_code : Option Text
  pub failure_message : Option Text
  pub published_manifest_key : Option Text
  pub updated_at : ℕ

-- What the connection does to one request: it runs, it is refused before any change, or it runs
-- and its response is lost.
pub data Connection : Type 0 where
  up : Connection
  refused : Text → Connection
  response_lost : Text → Connection

-- `UPDATE jobs SET … WHERE …`: the statement gives the new row where its condition holds.
unfoldable pub update : (Job → Option Job) → List Job → ℕ × List Job
update statement [] = (0, [])
update statement (row ∷ rows) =
    let (count, rows') = update statement rows in
    elim (statement row) [ none ↦ (count, row ∷ rows') | some row' ↦ (suc count, row' ∷ rows') ]

-- `Client::execute`, then `map_err(map_error)`
unfoldable pub execute :
    Connection → (Job → Option Job) → List Job → Result PersistenceError ℕ × List Job
execute up statement jobs = let (count, jobs') = update statement jobs in (ok count, jobs')
execute (refused reason) statement jobs = (err (postgres_operation_failed reason), jobs)
execute (response_lost reason) statement jobs =
    (err (postgres_operation_failed reason), (update statement jobs).1)

-- `id = $1::text::uuid`
unfoldable pub has_id : Text → Job → Bool
has_id job_id row = text_eq row.id job_id

-- `id = $1::text::uuid AND video_id = $2::text::uuid`
unfoldable pub is_row : Text → Text → Job → Bool
is_row job_id video_id row = text_eq row.id job_id && text_eq row.video_id video_id

-- `lease_expires_at > NOW()`, which is not true of a null
unfoldable pub is_live : ℕ → Job → Bool
is_live now row = elim row.lease_expires_at [ none ↦ false | some at ↦ ltb now at ]

-- `worker_id = $3`
unfoldable pub is_worker : Text → Job → Bool
is_worker worker row = elim row.worker_id [ none ↦ false | some w ↦ text_eq w worker ]

unfoldable pub is_processing : JobStatus → Bool
is_processing processing = true
is_processing _ = false

-- What an owner's update asks of the row: it names the job, the worker, and a lease that is live.
unfoldable pub is_owned : ℕ → Text → Text → Text → Job → Bool
unfolding is_row is_worker is_live is_processing
is_owned now job_id video_id worker row =
    is_row job_id video_id row
    && (is_worker worker row && (is_processing row.status && is_live now row))
