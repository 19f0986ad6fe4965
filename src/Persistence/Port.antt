-- ===== src/Persistence/Port.antt =====
-- The job-state port (persistence/src/lib.rs): outcomes, errors and modes. An error message of the
-- source is a constructor with what its format string interpolates.
use streaming_video_app.Prelude.{ℕ, Text, codes}

-- `PersistenceError(String)`
pub data PersistenceError : Type 0 where
  postgres_operation_failed : Text → PersistenceError
  updated_jobs : ℕ → PersistenceError
  job_not_found : PersistenceError
  invalid_attempt : PersistenceError
  no_expiration : PersistenceError
  no_valid_mode : PersistenceError
  unknown_disposition : Text → PersistenceError
  invalid_distributed_attempt : PersistenceError
  invalid_manifest_key : PersistenceError

pub data JobOperationOutcome : Type 0 where
  applied not_owner : JobOperationOutcome

pub data JobClaimOutcome : Type 0 where
  claimed not_claimed : JobClaimOutcome

pub data JobMode : Type 0 where
  cli distributed : JobMode

unfoldable pub as_str : JobMode → Text
as_str cli = codes "cli"
as_str distributed = codes "distributed"

-- A `SystemTime` is a number of seconds.
pub data LeaseAcquisitionOutcome : Type 0 where
  acquired : ℕ → ℕ → LeaseAcquisitionOutcome
  acquired_with_mode : ℕ → ℕ → JobMode → LeaseAcquisitionOutcome
  busy completed failed unknown_or_mismatched attempt_exhausted : LeaseAcquisitionOutcome
