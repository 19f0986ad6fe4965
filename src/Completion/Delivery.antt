-- ===== src/Completion/Delivery.antt =====
-- `process_delivery` (worker/src/completion.rs): acquisition, the records, and one queue update.
use streaming_video_app.Queue.{Message}
use streaming_video_app.Prelude.{
  ℕ, ◌+◌, ◌*◌, Text, Bool, true, not, ◌&&◌, ◌||◌, Option, none, some, List, [], ◌∷◌, leb, ltb,
  if◌then◌else◌, min,
}
use streaming_video_app.Persistence.Table.{Job}
use streaming_video_app.Notification.{Json}
use streaming_video_app.Acquisition.Types.{
  AcquiredJob, RecordAcquisitionDisposition, acquired, acquired_with_mode, not_acquired,
  invalid_event,
}
use streaming_video_app.Acquisition.Records.{
  LeaseAcquisitionProcessor, Database, acquire_notification,
}
use streaming_video_app.Completion.Distributed.{Bridge}
use streaming_video_app.Completion.Records.{
  Surroundings, Event, started_heartbeat, joined_heartbeat, changed_visibility, deleted, Progress,
  Flow, next, broke, unwound, handle_records,
}

-- How the acquisition ends: a shutdown or the deadline may come first.
pub data AcquisitionEnd : Type 0 where
  shut_down timed_out : AcquisitionEnd
  answered : ℕ → AcquisitionEnd  -- at an instant

-- What the world does in one delivery.
pub record Circumstances : Type 0 where
  pub stopped_before : Bool
  pub started_at : ℕ
  pub checked_at : ℕ
  pub acquisition : AcquisitionEnd
  pub around : ℕ → Surroundings
  pub lost_at_end : Bool  -- of the heartbeat
  pub visibility_at_end : ℕ  -- the heartbeat's deadline
  pub joined : Bool  -- `Ok(Ok(()))`
  pub stopped_at_end : Bool
  pub ended_at : ℕ
  pub updated_at : ℕ
  pub stopped_in_update : Bool  -- before the update is first polled

-- The constant parts of the processor.
pub record Worker : Type 1 where
  pub json : Json
  pub acquisition : LeaseAcquisitionProcessor
  pub bridge : Bridge
  pub lease_seconds : ℕ

unfoldable pub acquired_jobs : List RecordAcquisitionDisposition → List AcquiredJob
acquired_jobs [] = []
acquired_jobs (acquired job ∷ rest) = job ∷ acquired_jobs rest
acquired_jobs (acquired_with_mode job mode ∷ rest) = job ∷ acquired_jobs rest
acquired_jobs (not_acquired item reason ∷ rest) = acquired_jobs rest
acquired_jobs (invalid_event ∷ rest) = acquired_jobs rest

abbrev pub heartbeat_start : List AcquiredJob → List Event
heartbeat_start [] = []
heartbeat_start (job ∷ jobs) = started_heartbeat (job ∷ jobs) ∷ []

abbrev pub initial_progress : List AcquiredJob → Progress
initial_progress jobs = record {
  acknowledge = true;
  retry_delay = none;
  index = 0;
  events = heartbeat_start jobs;
}

-- The queue update that the variables ask for.
abbrev pub update_event : Text → Progress → List Event
update_event receipt p = elim p.retry_delay [
  | some delay ↦ changed_visibility receipt delay ∷ p.events
  | none ↦ if p.acknowledge then deleted receipt ∷ p.events else p.events
]

module _ (worker : Worker) (circumstances : Circumstances) (message : Message) where
  abbrev pub close_heartbeat : List AcquiredJob → Progress → Progress
  close_heartbeat [] p = p
  close_heartbeat (job ∷ jobs) p = record p { events = joined_heartbeat ∷ p.events }

  -- Whether the heartbeat kept ownership, and the visibility's deadline.
  unfoldable pub heartbeat_end : List AcquiredJob → ℕ → Bool × ℕ
  heartbeat_end [] visibility = (ltb circumstances.ended_at visibility, visibility)
  heartbeat_end (job ∷ jobs) visibility =
      (circumstances.joined && not circumstances.lost_at_end, circumstances.visibility_at_end)

  unfoldable pub finish : Bool × ℕ → Progress → List Event
  finish (heartbeat_ok, visibility) p =
      if not circumstances.stopped_at_end
        && (heartbeat_ok
            && (ltb circumstances.updated_at visibility && not circumstances.stopped_in_update))
      then update_event message.receipt_handle p
      else p.events

  abbrev pub after_records : List AcquiredJob → ℕ → Flow → List Event
  after_records jobs visibility (next p) =
      finish (heartbeat_end jobs visibility) (close_heartbeat jobs p)
  after_records jobs visibility (broke p) =
      finish (heartbeat_end jobs visibility) (close_heartbeat jobs p)
  after_records jobs visibility (unwound p) = p.events

  unfoldable pub handle_dispositions : ℕ → List RecordAcquisitionDisposition → List Event
  unfolding acquired_jobs handle_records finish heartbeat_end
  handle_dispositions visibility dispositions =
      after_records (acquired_jobs dispositions) visibility (
        handle_records worker.bridge message.receive_started_at circumstances.around 0 dispositions
          (initial_progress (acquired_jobs dispositions)))

  abbrev pub ownership_deadline : ℕ → ℕ
  ownership_deadline visibility =
      min visibility (circumstances.started_at + worker.lease_seconds * 1000)

  abbrev pub acquisition_answer :
      ℕ → AcquisitionEnd → List RecordAcquisitionDisposition × List Job → List Event
  acquisition_answer visibility shut_down r = []
  acquisition_answer visibility timed_out r = []
  acquisition_answer visibility (answered at) r =
      let handled = handle_dispositions visibility r.0 in
      if ltb at (ownership_deadline visibility) then handled else []

  unfoldable pub begin : Database → List Job → Option ℕ → List Event
  unfolding handle_dispositions acquire_notification
  begin database jobs none = []
  begin database jobs (some visibility) =
      let acquired =
        acquisition_answer visibility circumstances.acquisition
          (acquire_notification worker.acquisition database worker.json message.body jobs) in
      if circumstances.stopped_before
        || leb (ownership_deadline visibility) circumstances.checked_at
      then []
      else acquired

  -- The events of the delivery, the newest first.
  unfoldable pub process_delivery : Database → List Job → List Event
  unfolding begin
  process_delivery database jobs = begin database jobs message.visibility_deadline
