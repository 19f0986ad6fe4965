-- ===== src/Acquisition/Dispositions.antt =====
-- How the dispositions of a message answer its records, and what acquisition keeps of the table.
use streaming_video_app.Prelude.{ℕ, suc, Text, List, [], ◌∷◌, Result, ok, err, ◌≡◌, refl, All}
use streaming_video_app.Notification.{
  WorkItem, ParsedRecord, work, invalid, EventParseError, Json, parse_notification_records,
}
use streaming_video_app.Persistence.Port.{
  PersistenceError, JobClaimOutcome, LeaseAcquisitionOutcome,
}
use streaming_video_app.Persistence.Table.{Job}
use streaming_video_app.Persistence.Postgres.{claim_upload}
use streaming_video_app.Persistence.Requests.{claims, acquires, perform, All-perform}
use streaming_video_app.Persistence.Schema.{IsChecked, statement-IsChecked}
use streaming_video_app.Acquisition.Types.{
  RecordAcquisitionDisposition, acquired, acquired_with_mode, not_acquired, invalid_event,
}
use streaming_video_app.Acquisition.Records.{
  LeaseAcquisitionProcessor, Database, disposition_of, after_claim, acquire_record, acquire_records,
  with_records, acquire_notification,
}

-- The disposition is about that item, and a job in it is this worker's.
abbrev pub IsFor : Text → WorkItem → RecordAcquisitionDisposition → Type 0
IsFor worker item (acquired job) = (job.item ≡ item) × (job.worker_id ≡ worker)
IsFor worker item (acquired_with_mode job mode) = (job.item ≡ item) × (job.worker_id ≡ worker)
IsFor worker item (not_acquired other reason) = other ≡ item
IsFor worker item invalid_event = ⊥

abbrev pub Answers : Text → ParsedRecord → RecordAcquisitionDisposition → Type 0
Answers worker invalid disposition = disposition ≡ invalid_event
Answers worker (work item) disposition = IsFor worker item disposition

-- One disposition for each record, in order.
abbrev pub AnswersAll : Text → List ParsedRecord → List RecordAcquisitionDisposition → Type 0
AnswersAll worker [] [] = Unit
AnswersAll worker (entry ∷ records) (disposition ∷ dispositions) =
    Answers worker entry disposition × AnswersAll worker records dispositions
AnswersAll worker _ _ = ⊥

-- An unreadable or empty message has one disposition, that of an invalid event.
abbrev pub AnswersMessage :
    Text → Result EventParseError (List ParsedRecord) → List RecordAcquisitionDisposition → Type 0
AnswersMessage worker (err e) dispositions = dispositions ≡ (invalid_event ∷ [])
AnswersMessage worker (ok []) dispositions = dispositions ≡ (invalid_event ∷ [])
AnswersMessage worker (ok (entry ∷ records)) dispositions =
    AnswersAll worker (entry ∷ records) dispositions

module _ (processor : LeaseAcquisitionProcessor) (database : Database) where
  disposition_of-IsFor :
      (item : WorkItem) (r : Result PersistenceError LeaseAcquisitionOutcome)
      → IsFor processor.worker_id item (disposition_of processor item r)
  unfolding disposition_of
  disposition_of-IsFor item (ok (LeaseAcquisitionOutcome.acquired attempt at)) = (refl, refl)
  disposition_of-IsFor item (ok (LeaseAcquisitionOutcome.acquired_with_mode attempt at mode)) =
      (refl, refl)
  disposition_of-IsFor item (ok LeaseAcquisitionOutcome.busy) = refl
  disposition_of-IsFor item (ok LeaseAcquisitionOutcome.completed) = refl
  disposition_of-IsFor item (ok LeaseAcquisitionOutcome.failed) = refl
  disposition_of-IsFor item (ok LeaseAcquisitionOutcome.unknown_or_mismatched) = refl
  disposition_of-IsFor item (ok LeaseAcquisitionOutcome.attempt_exhausted) = refl
  disposition_of-IsFor item (err error) = refl

  after_claim-IsFor :
      (i : ℕ) (item : WorkItem) (r : Result PersistenceError JobClaimOutcome × List Job)
      → All IsChecked r.1
      → IsFor processor.worker_id item (after_claim processor database i item r).0
        × All IsChecked (after_claim processor database i item r).1
  after_claim-IsFor i item (err error, jobs) h = (refl, h)
  after_claim-IsFor i item (ok outcome, jobs) h = (
    disposition_of-IsFor item _,
    unfold perform in
        All-perform IsChecked statement-IsChecked (database.on_acquire i) (database.acquired_at i)
          (acquires item.job_id item.video_id processor.worker_id processor.lease_seconds
            processor.max_attempts processor.mode)
          jobs h,
  )

  acquire_record-Answers :
      (i : ℕ) (entry : ParsedRecord) (jobs : List Job)
      → All IsChecked jobs
      → Answers processor.worker_id entry (acquire_record processor database i entry jobs).0
        × All IsChecked (acquire_record processor database i entry jobs).1
  unfolding acquire_record
  acquire_record-Answers i invalid jobs h = (refl, h)
  acquire_record-Answers i (work item) jobs h =
      after_claim-IsFor i item
        (claim_upload (database.on_claim i) (database.claimed_at i) item.job_id item.video_id jobs)
        (unfold perform in
          All-perform IsChecked statement-IsChecked (database.on_claim i) (database.claimed_at i)
            (claims item.job_id item.video_id) jobs h)

  acquire_records-Answers :
      (i : ℕ) (records : List ParsedRecord) (jobs : List Job)
      → All IsChecked jobs
      → AnswersAll processor.worker_id records (acquire_records processor database i records jobs).0
        × All IsChecked (acquire_records processor database i records jobs).1
  unfolding acquire_records
  acquire_records-Answers i [] jobs h = (tt, h)
  acquire_records-Answers i (entry ∷ records) jobs h =
      let first = acquire_record-Answers i entry jobs h in
      let rest =
        acquire_records-Answers (suc i) records (acquire_record processor database i entry jobs).1
          first.1 in
      ((first.0, rest.0), rest.1)

  with_records-Answers :
      (r : Result EventParseError (List ParsedRecord)) (jobs : List Job)
      → All IsChecked jobs
      → AnswersMessage processor.worker_id r (with_records processor database r jobs).0
        × All IsChecked (with_records processor database r jobs).1
  with_records-Answers (err e) jobs h = (refl, h)
  with_records-Answers (ok []) jobs h = (refl, h)
  with_records-Answers (ok (entry ∷ records)) jobs h =
      acquire_records-Answers 0 (entry ∷ records) jobs h

  -- Whatever the database does, a message has one disposition for each of its records, in order:
  -- that of an invalid event for an invalid record, and for work one that carries the record's item
  -- and, if a lease was acquired, this worker; a message that is unreadable or has no records has
  -- one invalid event. Pointwise that satisfy the table's constraints still do.
  pub acquire_notification-Answers :
      (json : Json) (body : Text) (jobs : List Job)
      → All IsChecked jobs
      → AnswersMessage processor.worker_id
          (parse_notification_records json body processor.input_bucket)
          (acquire_notification processor database json body jobs).0
        × All IsChecked (acquire_notification processor database json body jobs).1
  unfolding acquire_notification
  acquire_notification-Answers json body jobs h =
      with_records-Answers (parse_notification_records json body processor.input_bucket) jobs h
