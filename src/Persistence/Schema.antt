-- ===== src/Persistence/Schema.antt =====
-- The `CHECK` constraints of the jobs table
-- (app/backend/api/internal/persistence/migrations) and what the worker's requests keep of them.
use streaming_video_app.Prelude.{
  ℕ, ◌≡◌, refl, Bool, true, false, ◌&&◌, ◌||◌, not, some, List, All, arith, if◌then◌else◌,
}
use streaming_video_app.Persistence.Port.{distributed}
use streaming_video_app.Persistence.Table.{JobStatus, completed, failed, Job, Connection}
use streaming_video_app.Persistence.Statements.{
  is_status, is_null, is_mode, claim_row, set_status_row, acquire_row, renew_row, release_row,
  complete_row, complete_distributed_row, fail_row,
}
use streaming_video_app.Persistence.Requests.{
  Request, claims, marks_processing, acquires, renews, releases, completes, completes_distributed,
  fails, statement_of, perform, Pointwise, Pointwise-perform, Event, replay, All-replay,
}

-- `jobs_failure_details_check`
unfoldable pub failure_details_check : Job → Bool
unfolding is_status is_null
failure_details_check row =
    if is_status row.status failed
    then not (is_null row.failure_code) && not (is_null row.failure_message)
    else is_null row.failure_code && is_null row.failure_message

-- `jobs_lease_ownership_check`
unfoldable pub lease_ownership_check : Job → Bool
unfolding is_null
lease_ownership_check row =
    if is_null row.worker_id
    then is_null row.lease_expires_at
    else not (is_null row.lease_expires_at)

-- `jobs_terminal_lease_check`
unfoldable pub terminal_lease_check : Job → Bool
unfolding is_status is_null
terminal_lease_check row =
    not (is_status row.status completed || is_status row.status failed)
    || (is_null row.worker_id && is_null row.lease_expires_at)

-- A published manifest belongs to a completed distributed job. The schema does not state this.
unfoldable pub publication_check : Job → Bool
unfolding is_status is_null is_mode
publication_check row =
    is_null row.published_manifest_key
    || (is_status row.status completed && is_mode distributed row.mode)

pub record IsChecked (row : Job) : Type 0 where
  pub failure_details : failure_details_check row ≡ true
  pub lease_ownership : lease_ownership_check row ≡ true
  pub terminal_lease : terminal_lease_check row ≡ true
  pub publication : publication_check row ≡ true

pub statement-IsChecked :
    (now : ℕ) (r : Request) (row row' : Job)
    → statement_of now r row ≡ some row'
    → IsChecked row
    → IsChecked row'
unfolding statement_of failure_details_check lease_ownership_check terminal_lease_check
    publication_check
statement-IsChecked now (claims j v) row row' e h = unfold claim_row in ground arith
statement-IsChecked now (marks_processing j) row row' e h = unfold set_status_row in ground arith
statement-IsChecked now (acquires j v w secs max mode) row row' e h =
    unfold acquire_row in ground arith
statement-IsChecked now (renews j v w secs) row row' e h = unfold renew_row in ground arith
statement-IsChecked now (releases j v w max) row row' e h = unfold release_row in ground arith
statement-IsChecked now (completes j v w) row row' e h = unfold complete_row in ground arith
statement-IsChecked now (completes_distributed j v w attempt key) row row' e h =
    unfold complete_distributed_row in ground arith
statement-IsChecked now (fails j v w reason max) row row' e h = unfold fail_row in ground arith

-- If every row satisfies the constraints that the schema checks and holds a published manifest key
-- only if it is a completed distributed job, the same is true after any history of requests.
pub replay-IsChecked :
    (es : List Event) (jobs : List Job) → All IsChecked jobs → All IsChecked (replay es jobs)
replay-IsChecked = All-replay IsChecked statement-IsChecked

abbrev pub is_terminal : JobStatus → Bool
is_terminal completed = true
is_terminal failed = true
is_terminal _ = false

terminal_unchanged :
    (now : ℕ) (r : Request) (row row' : Job)
    → statement_of now r row ≡ some row'
    → is_terminal row.status ≡ true
    → ⊥
unfolding statement_of
terminal_unchanged now (claims j v) row row' e h = unfold claim_row in ground arith
terminal_unchanged now (marks_processing j) row row' e h = unfold set_status_row in ground arith
terminal_unchanged now (acquires j v w secs max mode) row row' e h =
    unfold acquire_row in ground arith
terminal_unchanged now (renews j v w secs) row row' e h = unfold renew_row in ground arith
terminal_unchanged now (releases j v w max) row row' e h = unfold release_row in ground arith
terminal_unchanged now (completes j v w) row row' e h = unfold complete_row in ground arith
terminal_unchanged now (completes_distributed j v w attempt key) row row' e h =
    unfold complete_distributed_row in ground arith
terminal_unchanged now (fails j v w reason max) row row' e h = unfold fail_row in ground arith

-- No request, from whatever worker, changes a row that is completed or failed.
pub terminal_rows_unchanged :
    (c : Connection) (now : ℕ) (r : Request) (jobs : List Job)
    → Pointwise (λ row row'. is_terminal row.status ≡ true → row' ≡ row) jobs (perform c now r jobs)
terminal_rows_unchanged c now r jobs =
    Pointwise-perform _ (λ row h. refl) c now r jobs
      λ row row' e h. absurd (terminal_unchanged now r row row' e h)
