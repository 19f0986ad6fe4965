-- ===== src/Heartbeat/Renewal.antt =====
-- The renewals of a heartbeat (worker/src/heartbeat.rs). Instants and durations are milliseconds, and
-- an instant can represent every sum.
use streaming_video_app.Prelude.{
  ℕ, suc, ◌+◌, ◌*◌, ◌≤◌, ◌≡◌, Text, Bool, Option, none, some, List, [], ◌∷◌, get_elem?, set, ◌==◌,
  if◌then◌else◌, Result, ok, err,
}
use streaming_video_app.Persistence.Port.{JobOperationOutcome, applied, not_owner}
use streaming_video_app.Persistence.Table.{Job}
use streaming_video_app.Persistence.Statements.{renew_row}
use streaming_video_app.Acquisition.Types.{AcquiredJob}
use streaming_video_app.Heartbeat.Deadlines.{
  HeartbeatLoss, lease_lost, OwnershipDeadlines, Turn, before_deadline,
}

-- One job in one tick: its flag, the instant before the request, and the turns of the watchdog; and
-- the database's second at which the request was applied, or none where the job had retired.
pub record Renewal : Type 0 where
  pub active_before : Bool
  pub started : ℕ
  pub turns : List (Turn JobOperationOutcome)
  pub renewed_at : Option ℕ

pub record Extension : Type 0 where
  pub started : ℕ
  pub turns : List (Turn (Unit {0}))

-- `none` while an operation is pending.
abbrev pub Pending : Type 0 → Type 0
Pending A = Option (Result HeartbeatLoss A)

abbrev pub and_then : {A B : Type 0} → Pending A → (A → Pending B) → Pending B
and_then none f = none
and_then (some (err e)) f = some (err e)
and_then (some (ok a)) f = f a

abbrev pub answer_renewal :
    Text → OwnershipDeadlines → JobOperationOutcome → Pending OwnershipDeadlines
answer_renewal job_id deadlines applied = some (ok deadlines)
answer_renewal job_id deadlines not_owner = some (err (lease_lost job_id))

abbrev pub with_lease : ℕ → ℕ → OwnershipDeadlines → OwnershipDeadlines
with_lease index deadline deadlines = record deadlines {
  leases = set deadlines.leases index deadline;
}

module _ (acquired : List AcquiredJob) (lease_duration : ℕ) where
  abbrev pub renew_active :
      ℕ → AcquiredJob → Renewal → OwnershipDeadlines → Pending OwnershipDeadlines
  unfolding before_deadline
  renew_active index job renewal deadlines =
      and_then (before_deadline deadlines acquired renewal.turns) (
        answer_renewal job.item.job_id
          (with_lease index (renewal.started + lease_duration * 1000) deadlines))

  unfoldable pub renew_job :
      ℕ → AcquiredJob → Renewal → OwnershipDeadlines → Pending OwnershipDeadlines
  renew_job index job renewal deadlines =
      if renewal.active_before
      then renew_active index job renewal deadlines
      else some (ok deadlines)

  -- The loop over the acquired jobs, from an index on.
  unfoldable pub renew_jobs :
      List AcquiredJob → ℕ → (ℕ → Renewal) → OwnershipDeadlines → Pending OwnershipDeadlines
  unfolding renew_job
  renew_jobs [] index renewals deadlines = some (ok deadlines)
  renew_jobs (job ∷ jobs) index renewals deadlines =
      and_then (renew_job index job (renewals index) deadlines)
        (renew_jobs jobs (suc index) renewals)

  unfoldable pub extend_visibility : ℕ → Extension → OwnershipDeadlines → Pending OwnershipDeadlines
  unfolding before_deadline
  extend_visibility visibility_extension extension deadlines =
      and_then (before_deadline deadlines acquired extension.turns) (λ _.
        some
          (ok (record deadlines { visibility = extension.started + visibility_extension * 1000 })))

  unfoldable pub renew_tick :
      ℕ → (ℕ → Renewal) → Extension → OwnershipDeadlines → Pending OwnershipDeadlines
  unfolding renew_jobs extend_visibility
  renew_tick visibility_extension renewals extension deadlines =
      and_then (renew_jobs acquired 0 renewals deadlines)
        (extend_visibility visibility_extension extension)

  -- The rows of the jobs; none for a job that has retired or whose row the worker does not own.
  abbrev pub Rows : Type 0
  Rows = ℕ → Option Job

  abbrev pub applied_row : AcquiredJob → Option ℕ → Option Job → Option Job
  unfolding renew_row
  applied_row job (some now) (some row) =
      renew_row now job.item.job_id job.item.video_id job.worker_id lease_duration row
  applied_row job _ _ = none

  abbrev pub row_after : AcquiredJob → Renewal → Option Job → Option Job
  row_after job renewal row =
      if renewal.active_before then applied_row job renewal.renewed_at row else row

  abbrev pub rows_after : List AcquiredJob → ℕ → (ℕ → Renewal) → Rows → Rows
  rows_after [] index renewals rows = rows
  rows_after (job ∷ jobs) index renewals rows =
      rows_after jobs (suc index) renewals
        (λ i. if i == index then row_after job (renewals index) (rows index) else rows i)

  -- No deadline of the worker lies after the expiry of the lease in the job's row.
  abbrev pub IsCovered : Rows → OwnershipDeadlines → Type 0
  IsCovered rows deadlines =
      (i deadline expiry : ℕ) (row : Job)
      → get_elem? deadlines.leases i ≡ some deadline
      → rows i ≡ some row
      → row.lease_expires_at ≡ some expiry
      → deadline ≤ expiry * 1000

  -- A request is applied after the instant before it, on the database's clock.
  abbrev pub IsTimely : (ℕ → Renewal) → Type 0
  IsTimely renewals =
      (i now : ℕ) → (renewals i).renewed_at ≡ some now → (renewals i).started ≤ now * 1000
