-- ===== src/Persistence/Postgres.antt =====
-- The operations of `PostgresJobState` (persistence/src/postgres.rs) on the `jobs` table. Each takes
-- what the connection does and the database's `NOW()`, and returns its result and the table.
use streaming_video_app.Prelude.{
  ℕ, Text, codes, text_eq, decimal, Bool, true, false, ◌++◌, Option, none, some, List, [], ◌∷◌, ltb,
  leb, ◌==◌, if◌then◌else◌, Result, ok, err, ◌>>=◌, ok_or, ℤ, pos, try_from,
}
use streaming_video_app.Persistence.Port.{
  PersistenceError, postgres_operation_failed, updated_jobs, job_not_found, invalid_attempt,
  no_expiration, no_valid_mode, unknown_disposition, invalid_distributed_attempt,
  invalid_manifest_key, JobOperationOutcome, applied, not_owner, JobClaimOutcome, claimed,
  not_claimed, JobMode, cli, distributed, as_str, LeaseAcquisitionOutcome,
}
use streaming_video_app.Persistence.Table.{
  JobStatus, queued, processing, completed, failed, Job, Connection, up, refused, response_lost,
  update, execute, is_row, is_live,
}
use streaming_video_app.Persistence.Statements.{
  is_status, claim_row, set_status_row, acquire_row, renew_row, release_row, complete_row,
  complete_distributed_row, fail_row,
}

unfoldable pub atomic_outcome : ℕ → Result PersistenceError JobOperationOutcome
atomic_outcome changed =
    if changed == 0
    then ok not_owner
    else if changed == 1
    then ok applied
    else err (updated_jobs changed)

unfoldable pub require_one : ℕ → Result PersistenceError (Unit {0})
require_one changed =
    if changed == 1
    then ok tt
    else if changed == 0
    then err job_not_found
    else err (updated_jobs changed)

-- What a method makes of the count that its statement returns.
abbrev conclude {ℓ} :
    {A : Type ℓ}
    → (ℕ → Result PersistenceError A)
    → Result PersistenceError ℕ × List Job
    → Result PersistenceError A × List Job
conclude f (changed, jobs) = (changed >>= f, jobs)

claim_outcome : ℕ → Result PersistenceError Bool
claim_outcome changed =
    if changed == 1 then ok true else if changed == 0 then ok false else err (updated_jobs changed)

unfoldable pub claim :
    Connection → ℕ → Text → Text → List Job → Result PersistenceError Bool × List Job
unfolding claim_outcome
claim c now job_id video_id jobs =
    conclude claim_outcome (execute c (claim_row now job_id video_id) jobs)

unfoldable pub set_status :
    Connection
    → ℕ
    → Text
    → JobStatus
    → JobStatus
    → List Job
    → Result PersistenceError (Unit {0}) × List Job
unfolding require_one
set_status c now job_id status required jobs =
    conclude require_one (execute c (set_status_row now job_id status required) jobs)

unfoldable pub mark_processing :
    Connection → ℕ → Text → List Job → Result PersistenceError (Unit {0}) × List Job
unfolding set_status
mark_processing c now job_id jobs = set_status c now job_id processing queued jobs

abbrev to_claim : Bool → Result PersistenceError JobClaimOutcome
to_claim is_claimed = if is_claimed then ok claimed else ok not_claimed

unfoldable pub claim_upload :
    Connection → ℕ → Text → Text → List Job → Result PersistenceError JobClaimOutcome × List Job
unfolding claim
claim_upload c now job_id video_id jobs =
    let (result, jobs') = claim c now job_id video_id jobs in (result >>= to_claim, jobs')

-- `LeaseAcquisitionRecord`, a row of the acquisition query
pub record LeaseAcquisitionRecord : Type 0 where
  pub disposition : Text
  pub attempt : Option ℤ
  pub lease_expires_at : Option ℕ
  pub mode : Option Text

-- `(SELECT … FROM target)`: the row that the identifiers name.
unfoldable pub target : Text → Text → List Job → Option Job
target job_id video_id [] = none
target job_id video_id (row ∷ rows) =
    if is_row job_id video_id row then some row else target job_id video_id rows

-- `(SELECT … FROM acquired)`: the row as the update leaves it.
unfoldable pub acquired_row : (Job → Option Job) → List Job → Option Job
acquired_row statement [] = none
acquired_row statement (row ∷ rows) = elim (statement row) [
  | none ↦ acquired_row statement rows
  | some row' ↦ some row'
]

-- The `CASE` of the query, without its first arm.
unfoldable pub disposition_of : ℕ → ℕ → Option Job → Text
unfolding is_status is_live
disposition_of now max_attempts none = codes "UNKNOWN_OR_MISMATCHED"
disposition_of now max_attempts (some row) =
    if is_status row.status completed
    then codes "COMPLETED"
    else if is_status row.status failed
    then codes "FAILED"
    else if is_live now row
    then codes "BUSY"
    else if leb max_attempts row.attempt
    then codes "ATTEMPT_EXHAUSTED"
    else codes "BUSY"

abbrev pub mode_text : Option JobMode → Option Text
mode_text none = none
mode_text (some mode) = some (as_str mode)

abbrev pub target_mode : Option Job → Option Text
target_mode none = none
target_mode (some row) = mode_text row.mode

-- All parts of the query read the table as it was before the update.
unfoldable pub acquisition_record :
    ℕ → Text → Text → ℕ → (Job → Option Job) → List Job → LeaseAcquisitionRecord
unfolding disposition_of
acquisition_record now job_id video_id max_attempts statement jobs =
    elim (acquired_row statement jobs) [
      | some row ↦ record {
        disposition = codes "ACQUIRED";
        attempt = some (pos row.attempt);
        lease_expires_at = row.lease_expires_at;
        mode = mode_text row.mode;
      }
      | none ↦ record {
        disposition = disposition_of now max_attempts (target job_id video_id jobs);
        attempt = none;
        lease_expires_at = none;
        mode = target_mode (target job_id video_id jobs);
      }
    ]

-- `.filter(|value| *value > 0)`
abbrev positive : Option ℕ → Option ℕ
positive none = none
positive (some n) = if ltb 0 n then some n else none

abbrev bind_option {ℓ κ} : {A : Type ℓ} {B : Type κ} → Option A → (A → Option B) → Option B
bind_option none f = none
bind_option (some a) f = f a

abbrev parse_mode : Option Text → Result PersistenceError JobMode
parse_mode none = err no_valid_mode
parse_mode (some mode) =
    if text_eq mode (codes "distributed")
    then ok distributed
    else if text_eq mode (codes "cli")
    then ok cli
    else err no_valid_mode

-- The first arm of the match.
map_acquired : LeaseAcquisitionRecord → Result PersistenceError LeaseAcquisitionOutcome
map_acquired r = do
  attempt ← ok_or (positive (bind_option r.attempt try_from)) invalid_attempt
  lease_expires_at ← ok_or r.lease_expires_at no_expiration
  mode ← parse_mode r.mode
  ok (LeaseAcquisitionOutcome.acquired_with_mode attempt lease_expires_at mode)

unfoldable pub map_lease_acquisition :
    LeaseAcquisitionRecord → Result PersistenceError LeaseAcquisitionOutcome
unfolding map_acquired
map_lease_acquisition r =
    if text_eq r.disposition (codes "ACQUIRED")
    then map_acquired r
    else if text_eq r.disposition (codes "BUSY")
    then ok LeaseAcquisitionOutcome.busy
    else if text_eq r.disposition (codes "COMPLETED")
    then ok LeaseAcquisitionOutcome.completed
    else if text_eq r.disposition (codes "FAILED")
    then ok LeaseAcquisitionOutcome.failed
    else if text_eq r.disposition (codes "UNKNOWN_OR_MISMATCHED")
    then ok LeaseAcquisitionOutcome.unknown_or_mismatched
    else if text_eq r.disposition (codes "ATTEMPT_EXHAUSTED")
    then ok LeaseAcquisitionOutcome.attempt_exhausted
    else err (unknown_disposition r.disposition)

-- The query, by what the connection does.
query_lease_acquisition :
    Connection
    → ℕ
    → Text
    → Text
    → ℕ
    → (Job → Option Job)
    → List Job
    → Result PersistenceError LeaseAcquisitionRecord × List Job
query_lease_acquisition up now job_id video_id max_attempts statement jobs = (
  ok (acquisition_record now job_id video_id max_attempts statement jobs),
  (update statement jobs).1,
)
query_lease_acquisition (refused e) now job_id video_id max_attempts statement jobs =
    (err (postgres_operation_failed e), jobs)
query_lease_acquisition (response_lost e) now job_id video_id max_attempts statement jobs =
    (err (postgres_operation_failed e), (update statement jobs).1)

unfoldable pub acquire_lease_with_mode :
    Connection
    → ℕ
    → Text
    → Text
    → Text
    → ℕ
    → ℕ
    → JobMode
    → List Job
    → Result PersistenceError LeaseAcquisitionOutcome × List Job
unfolding query_lease_acquisition
acquire_lease_with_mode c now job_id video_id worker lease_seconds max_attempts mode jobs =
    let (row, jobs') =
      query_lease_acquisition c now job_id video_id max_attempts
        (acquire_row now job_id video_id worker lease_seconds max_attempts mode) jobs in
    (row >>= map_lease_acquisition, jobs')

abbrev forget_mode : LeaseAcquisitionOutcome → LeaseAcquisitionOutcome
forget_mode (LeaseAcquisitionOutcome.acquired_with_mode attempt at mode) =
    LeaseAcquisitionOutcome.acquired attempt at
forget_mode outcome = outcome

unfoldable pub acquire_lease :
    Connection
    → ℕ
    → Text
    → Text
    → Text
    → ℕ
    → ℕ
    → List Job
    → Result PersistenceError LeaseAcquisitionOutcome × List Job
unfolding acquire_lease_with_mode
acquire_lease c now job_id video_id worker lease_seconds max_attempts jobs =
    let (outcome, jobs') =
      acquire_lease_with_mode c now job_id video_id worker lease_seconds max_attempts cli jobs in
    (outcome >>= (λ o. ok (forget_mode o)), jobs')

unfoldable pub renew_lease :
    Connection
    → ℕ
    → Text
    → Text
    → Text
    → ℕ
    → List Job
    → Result PersistenceError JobOperationOutcome × List Job
unfolding atomic_outcome
renew_lease c now job_id video_id worker lease_seconds jobs =
    conclude atomic_outcome (execute c (renew_row now job_id video_id worker lease_seconds) jobs)

unfoldable pub release_for_retry :
    Connection
    → ℕ
    → Text
    → Text
    → Text
    → ℕ
    → List Job
    → Result PersistenceError JobOperationOutcome × List Job
unfolding atomic_outcome
release_for_retry c now job_id video_id worker max_attempts jobs =
    conclude atomic_outcome (execute c (release_row now job_id video_id worker max_attempts) jobs)

unfoldable pub complete :
    Connection
    → ℕ
    → Text
    → Text
    → Text
    → List Job
    → Result PersistenceError JobOperationOutcome × List Job
unfolding atomic_outcome
complete c now job_id video_id worker jobs =
    conclude atomic_outcome (execute c (complete_row now job_id video_id worker) jobs)

-- `format!("videos/{video_id}/jobs/{job_id}/hls/attempts/{attempt}/{execution_id}/index.m3u8")`
unfoldable pub manifest_key : Text → Text → ℕ → Text
manifest_key job_id video_id attempt =
    codes "videos/"
    ++ (video_id
        ++ (codes "/jobs/"
            ++ (job_id
                ++ (codes "/hls/attempts/"
                    ++ (decimal attempt
                        ++ (codes "/job-"
                            ++ (job_id
                                ++ (codes "-a" ++ (decimal attempt ++ codes "/index.m3u8")))))))))

unfoldable pub complete_distributed :
    Connection
    → ℕ
    → Text
    → Text
    → Text
    → ℕ
    → Text
    → List Job
    → Result PersistenceError JobOperationOutcome × List Job
unfolding atomic_outcome
complete_distributed c now job_id video_id worker attempt key jobs =
    if attempt == 0
    then (err invalid_distributed_attempt, jobs)
    else if text_eq key (manifest_key job_id video_id attempt)
    then conclude atomic_outcome
        (execute c (complete_distributed_row now job_id video_id worker attempt key) jobs)
    else (err invalid_manifest_key, jobs)

unfoldable pub fail :
    Connection
    → ℕ
    → Text
    → Text
    → Text
    → Text
    → ℕ
    → List Job
    → Result PersistenceError JobOperationOutcome × List Job
unfolding atomic_outcome
fail c now job_id video_id worker reason max_attempts jobs =
    conclude atomic_outcome
      (execute c (fail_row now job_id video_id worker reason max_attempts) jobs)
