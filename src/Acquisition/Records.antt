-- ===== src/Acquisition/Records.antt =====
-- Acquisition of a lease for each record of a message (worker/src/acquisition.rs).
use streaming_video_app.Prelude.{ℕ, suc, Text, List, [], ◌∷◌, Result, ok, err}
use streaming_video_app.Notification.{
  WorkItem, ParsedRecord, work, invalid, EventParseError, Json, parse_notification_records,
}
use streaming_video_app.Persistence.Port.{
  PersistenceError, JobClaimOutcome, JobMode, LeaseAcquisitionOutcome,
}
use streaming_video_app.Persistence.Table.{Job, Connection}
use streaming_video_app.Persistence.Postgres.{claim_upload, acquire_lease_with_mode}
use streaming_video_app.Acquisition.Types.{
  AcquiredJob, RecordAcquisitionDisposition, busy, completed, failed, unknown_or_mismatched,
  attempt_exhausted, persistence_error, acquired, acquired_with_mode, not_acquired, invalid_event,
}

-- `LeaseAcquisitionProcessor`, over the jobs of the table.
pub record LeaseAcquisitionProcessor : Type 0 where
  pub input_bucket : Text
  pub worker_id : Text
  pub lease_seconds : ℕ
  pub max_attempts : ℕ
  pub mode : JobMode

-- What the database does to the two statements for the record at an index, and when they run.
pub record Database : Type 0 where
  pub on_claim : ℕ → Connection
  pub on_acquire : ℕ → Connection
  pub claimed_at : ℕ → ℕ
  pub acquired_at : ℕ → ℕ

module _ (processor : LeaseAcquisitionProcessor) where
  abbrev pub job_of : WorkItem → ℕ → ℕ → AcquiredJob
  job_of item attempt lease_expires_at = record {
    item = item;
    worker_id = processor.worker_id;
    attempt = attempt;
    lease_expires_at = lease_expires_at;
  }

  unfoldable pub disposition_of :
      WorkItem → Result PersistenceError LeaseAcquisitionOutcome → RecordAcquisitionDisposition
  disposition_of item (ok (LeaseAcquisitionOutcome.acquired attempt at)) =
      acquired (job_of item attempt at)
  disposition_of item (ok (LeaseAcquisitionOutcome.acquired_with_mode attempt at mode)) =
      acquired_with_mode (job_of item attempt at) mode
  disposition_of item (ok LeaseAcquisitionOutcome.busy) = not_acquired item busy
  disposition_of item (ok LeaseAcquisitionOutcome.completed) = not_acquired item completed
  disposition_of item (ok LeaseAcquisitionOutcome.failed) = not_acquired item failed
  disposition_of item (ok LeaseAcquisitionOutcome.unknown_or_mismatched) =
      not_acquired item unknown_or_mismatched
  disposition_of item (ok LeaseAcquisitionOutcome.attempt_exhausted) =
      not_acquired item attempt_exhausted
  disposition_of item (err error) = not_acquired item (persistence_error error)

  module _ (database : Database) where
    -- The acquisition that follows a claim without an error.
    abbrev pub after_claim :
        ℕ
        → WorkItem
        → Result PersistenceError JobClaimOutcome × List Job
        → RecordAcquisitionDisposition × List Job
    after_claim i item (err error, jobs) = (not_acquired item (persistence_error error), jobs)
    after_claim i item (ok outcome, jobs) =
        let r =
          acquire_lease_with_mode (database.on_acquire i) (database.acquired_at i) item.job_id
            item.video_id processor.worker_id processor.lease_seconds processor.max_attempts
            processor.mode jobs in
        (disposition_of item r.0, r.1)

    unfoldable pub acquire_record :
        ℕ → ParsedRecord → List Job → RecordAcquisitionDisposition × List Job
    unfolding claim_upload acquire_lease_with_mode disposition_of
    acquire_record i invalid jobs = (invalid_event, jobs)
    acquire_record i (work item) jobs =
        after_claim i item (
          claim_upload (database.on_claim i) (database.claimed_at i) item.job_id item.video_id jobs)

    unfoldable pub acquire_records :
        ℕ → List ParsedRecord → List Job → List RecordAcquisitionDisposition × List Job
    unfolding acquire_record
    acquire_records i [] jobs = ([], jobs)
    acquire_records i (entry ∷ records) jobs =
        let first = acquire_record i entry jobs in
        let rest = acquire_records (suc i) records first.1 in (first.0 ∷ rest.0, rest.1)

    abbrev pub with_records :
        Result EventParseError (List ParsedRecord)
        → List Job
        → List RecordAcquisitionDisposition × List Job
    with_records (err e) jobs = (invalid_event ∷ [], jobs)
    with_records (ok []) jobs = (invalid_event ∷ [], jobs)
    with_records (ok (entry ∷ records)) jobs = acquire_records 0 (entry ∷ records) jobs

    unfoldable pub acquire_notification :
        Json → Text → List Job → List RecordAcquisitionDisposition × List Job
    unfolding acquire_records parse_notification_records
    acquire_notification json body jobs =
        with_records (parse_notification_records json body processor.input_bucket) jobs
