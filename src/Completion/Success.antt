-- ===== src/Completion/Success.antt =====
-- A delivery (worker/src/completion.rs) in which everything succeeds.
use streaming_video_app.Prelude.{
  ℕ, suc, ◌≡◌, refl, true, false, Option, none, some, List, [], ◌∷◌, ok, arith, ◌<◌,
}
use streaming_video_app.Persistence.Port.{cli, distributed}
use streaming_video_app.Persistence.Table.{Job}
use streaming_video_app.Acquisition.Types.{
  AcquiredJob, NoWorkReason, RecordAcquisitionDisposition, acquired, acquired_with_mode,
  not_acquired, invalid_event,
}
use streaming_video_app.Acquisition.Records.{Database, acquire_notification}
use streaming_video_app.Attempt.Process.{ProcessingOutcome}
use streaming_video_app.Completion.Distributed.{Bridge}
use streaming_video_app.Completion.Records.{
  Surroundings, Event, deleted, Progress, Flow, next, settle_outcome, cli_result, handle_cli,
  distributed_result, handle_distributed, handle_record, handle_records,
}
use streaming_video_app.Queue.{Message}
use streaming_video_app.Completion.Delivery.{
  answered, Circumstances, Worker, acquired_jobs, initial_progress, heartbeat_end, finish,
  close_heartbeat, handle_dispositions, ownership_deadline, begin, process_delivery,
}

module _ (bridge : Bridge) (receive_started_at : Option ℕ) (around : ℕ → Surroundings) where
  abbrev IsUndisturbed : ℕ → Type 0
  IsUndisturbed i = ((around i).lost ≡ false) × ((around i).interrupted ≡ false)

  -- The record is completed, now or before, and nothing disturbs it.
  abbrev pub Succeeds : ℕ → RecordAcquisitionDisposition → Type 0
  Succeeds i (acquired job) =
      IsUndisturbed i
      × (cli_result bridge receive_started_at around i job ≡ ok ProcessingOutcome.completed)
  Succeeds i (acquired_with_mode job cli) =
      IsUndisturbed i
      × (cli_result bridge receive_started_at around i job ≡ ok ProcessingOutcome.completed)
  Succeeds i (acquired_with_mode job distributed) =
      IsUndisturbed i
      × (distributed_result bridge receive_started_at around i job
          ≡ some (ok ProcessingOutcome.completed))
  Succeeds i (not_acquired item reason) = reason ≡ NoWorkReason.completed
  Succeeds i invalid_event = ⊥

  abbrev pub AllSucceed : ℕ → List RecordAcquisitionDisposition → Type 0
  AllSucceed i [] = Unit
  AllSucceed i (d ∷ ds) = ((around i).stopped ≡ false) × (Succeeds i d × AllSucceed (suc i) ds)

  -- The loop goes on, and is to acknowledge without a delay.
  abbrev pub IsAcknowledging : Flow → Type 0
  IsAcknowledging flow =
      (q : Progress) × (flow ≡ next q) × ((q.acknowledge ≡ true) × (q.retry_delay ≡ none))

  handle_cli-IsAcknowledging :
      (i : ℕ) (job : AcquiredJob) (p : Progress)
      → (p.acknowledge ≡ true) × (p.retry_delay ≡ none)
      → IsUndisturbed i
        × (cli_result bridge receive_started_at around i job ≡ ok ProcessingOutcome.completed)
      → IsAcknowledging (handle_cli bridge receive_started_at around i job p)
  unfolding handle_cli settle_outcome
  handle_cli-IsAcknowledging i job p h s = rw (s.0.0, s.0.1, s.1) (_, refl, h)

  handle_record-IsAcknowledging :
      (i : ℕ) (d : RecordAcquisitionDisposition) (p : Progress)
      → (p.acknowledge ≡ true) × (p.retry_delay ≡ none)
      → Succeeds i d
      → IsAcknowledging (handle_record bridge receive_started_at around i d p)
  unfolding handle_record handle_distributed settle_outcome
  handle_record-IsAcknowledging i (acquired job) p h s = handle_cli-IsAcknowledging i job p h s
  handle_record-IsAcknowledging i (acquired_with_mode job cli) p h s =
      handle_cli-IsAcknowledging i job p h s
  handle_record-IsAcknowledging i (acquired_with_mode job distributed) p h s =
      rw (s.0.0, s.1) (_, refl, h)
  handle_record-IsAcknowledging i (not_acquired item reason) p h s = rw s (p, refl, h)
  handle_record-IsAcknowledging i invalid_event p h s = absurd s

  handle_records-IsAcknowledging :
      (i : ℕ) (ds : List RecordAcquisitionDisposition) (p : Progress)
      → (p.acknowledge ≡ true) × (p.retry_delay ≡ none)
      → AllSucceed i ds
      → IsAcknowledging (handle_records bridge receive_started_at around i ds p)
  unfolding handle_records
  handle_records-IsAcknowledging i [] p h s = (p, refl, h)
  handle_records-IsAcknowledging i (d ∷ ds) p h s =
      let first = handle_record-IsAcknowledging i d p h s.1.0 in
      rw (s.0, first.1) (handle_records-IsAcknowledging (suc i) ds first.0 first.2 s.1.1)

-- The last update comes in time: before the deadline of the visibility with which the heartbeat
-- ends, which kept the ownership, or, without a heartbeat, before the deadline of the receive.
abbrev pub EndsInTime : Circumstances → ℕ → List AcquiredJob → Type 0
EndsInTime circumstances visibility [] =
    (circumstances.ended_at < visibility) × (circumstances.updated_at < visibility)
EndsInTime circumstances visibility (job ∷ jobs) =
    (circumstances.lost_at_end ≡ false)
    × ((circumstances.joined ≡ true) × (circumstances.updated_at < circumstances.visibility_at_end))

-- Nothing stops a delivery that acquires these jobs, and it ends in time.
pub record IsCalm (worker : Worker) (circumstances : Circumstances) (message : Message)
    (jobs : List AcquiredJob) : Type 0 where
  pub visibility : ℕ
  pub visible : message.visibility_deadline ≡ some visibility
  pub running : circumstances.stopped_before ≡ false
  pub in_time :
      circumstances.checked_at < ownership_deadline worker circumstances message visibility
  pub acquired_at : ℕ
  pub acquisition : circumstances.acquisition ≡ answered acquired_at
  pub acquired_in_time : acquired_at < ownership_deadline worker circumstances message visibility
  pub running_at_end : circumstances.stopped_at_end ≡ false
  pub running_in_update : circumstances.stopped_in_update ≡ false
  pub ends_in_time : EndsInTime circumstances visibility jobs

module _ (worker : Worker) (circumstances : Circumstances) (message : Message) where
  finish_deleted :
      (visibility : ℕ) (jobs : List AcquiredJob) (q : Progress)
      → circumstances.stopped_at_end ≡ false
      → circumstances.stopped_in_update ≡ false
      → EndsInTime circumstances visibility jobs
      → (q.acknowledge ≡ true) × (q.retry_delay ≡ none)
      → (events : List Event) × (finish worker circumstances message
            (heartbeat_end worker circumstances message jobs visibility)
            (close_heartbeat worker circumstances message jobs q)
          ≡ deleted message.receipt_handle ∷ events)
  unfolding finish heartbeat_end
  finish_deleted visibility [] q running still in_time h =
      (q.events, ground (arith, running, still, in_time.0, in_time.1, h.0, h.1))
  finish_deleted visibility (job ∷ jobs) q running still in_time h = (
    Event.joined_heartbeat ∷ q.events,
    ground (arith, running, still, in_time.0, in_time.1.0, in_time.1.1, h.0, h.1),
  )

  dispositions_deleted :
      (ds : List RecordAcquisitionDisposition)
      (calm : IsCalm worker circumstances message (acquired_jobs ds))
      → AllSucceed worker.bridge message.receive_started_at circumstances.around 0 ds
      → (events : List Event) × (handle_dispositions worker circumstances message calm.visibility ds
          ≡ deleted message.receipt_handle ∷ events)
  unfolding handle_dispositions
  dispositions_deleted ds calm s =
      let looped =
        handle_records-IsAcknowledging worker.bridge message.receive_started_at circumstances.around
          0 ds (initial_progress (acquired_jobs ds)) (refl, refl) s in
      rw looped.1 (
        finish_deleted calm.visibility (acquired_jobs ds) looped.0 calm.running_at_end
          calm.running_in_update calm.ends_in_time looped.2)

  -- Suppose that no shutdown comes in a delivery, that the checks and the acquisition come before the
  -- ownership's deadline, that the heartbeat, if there is one, is joined without a loss, and that the
  -- update comes before the deadline of the visibility, which is the heartbeat's own if there is one.
  -- If every record of the message is completed, now or before, then the delivery ends by deleting
  -- the message.
  pub process_delivery_deletes :
      (database : Database) (jobs : List Job)
      → IsCalm worker circumstances message (
          acquired_jobs
            (acquire_notification worker.acquisition database worker.json message.body jobs).0)
      → AllSucceed worker.bridge message.receive_started_at circumstances.around 0
          (acquire_notification worker.acquisition database worker.json message.body jobs).0
      → (events : List Event) × (process_delivery worker circumstances message database jobs
          ≡ deleted message.receipt_handle ∷ events)
  unfolding process_delivery begin
  process_delivery_deletes database jobs calm s =
      let deletes =
        dispositions_deleted
          (acquire_notification worker.acquisition database worker.json message.body jobs).0 calm
          s in
      rw (calm.visible, calm.running, calm.acquisition)
        (deletes.0, ground (arith, deletes.1, calm.in_time, calm.acquired_in_time))
