-- ===== src/Acquisition/Types.antt =====
-- What acquisition hands to the rest of the worker (worker/src/acquisition.rs).
use streaming_video_app.Prelude.{ℕ, Text}
use streaming_video_app.Notification.{WorkItem}
use streaming_video_app.Persistence.Port.{PersistenceError, JobMode}

pub record AcquiredJob : Type 0 where
  pub item : WorkItem
  pub worker_id : Text
  pub attempt : ℕ
  pub lease_expires_at : ℕ

pub data NoWorkReason : Type 0 where
  busy completed failed unknown_or_mismatched attempt_exhausted : NoWorkReason
  persistence_error : PersistenceError → NoWorkReason

pub data RecordAcquisitionDisposition : Type 0 where
  acquired : AcquiredJob → RecordAcquisitionDisposition
  acquired_with_mode : AcquiredJob → JobMode → RecordAcquisitionDisposition
  not_acquired : WorkItem → NoWorkReason → RecordAcquisitionDisposition
  invalid_event : RecordAcquisitionDisposition
