-- ===== src/Completion/Deletion.antt =====
-- The queue update that ends a delivery (worker/src/completion.rs).
use streaming_video_app.Prelude.{
  ℕ, ◌≡◌, refl, Bool, true, false, Option, none, some, List, [], ◌∷◌, if◌then◌else◌, ltb, ◌⊎◌, inl,
  inr,
}
use streaming_video_app.Persistence.Table.{Job}
use streaming_video_app.Acquisition.Types.{AcquiredJob, RecordAcquisitionDisposition}
use streaming_video_app.Acquisition.Records.{Database, acquire_notification}
use streaming_video_app.Completion.Records.{
  Event, changed_visibility, deleted, Progress, Flow, next, broke, unwound,
}
use streaming_video_app.Queue.{Message}
use streaming_video_app.Completion.Delivery.{
  AcquisitionEnd, shut_down, timed_out, answered, Circumstances, Worker, acquired_jobs,
  initial_progress, update_event, finish, after_records, close_heartbeat, handle_dispositions,
  ownership_deadline, acquisition_answer, begin, process_delivery,
}
use streaming_video_app.Completion.Acknowledged.{Confirms, AreSettled, handle_records-Confirms}
use streaming_video_app.Completion.Updates.{
  IsWithoutUpdate, IsCertain, IsDelay, IsTame, IsTameFlow, handle_records-IsTame, delay,
}

module _ (worker : Worker) (circumstances : Circumstances) (message : Message) where
  -- What the events of a delivery say of its records.
  abbrev pub IsAccountedFor : List RecordAcquisitionDisposition → List Event → Type 0
  IsAccountedFor dispositions [] = Unit
  IsAccountedFor dispositions (deleted receipt ∷ events) =
      (receipt ≡ message.receipt_handle)
      × (AreSettled worker.bridge message.receive_started_at circumstances.around 0 dispositions
          × IsWithoutUpdate events)
  IsAccountedFor dispositions (changed_visibility receipt d ∷ events) =
      (receipt ≡ message.receipt_handle)
      × ((d ≡ delay worker.bridge) × (IsCertain events × IsWithoutUpdate events))
  IsAccountedFor dispositions (event ∷ events) = IsWithoutUpdate (event ∷ events)

  without_update :
      (dispositions : List RecordAcquisitionDisposition) (events : List Event)
      → IsWithoutUpdate events
      → IsAccountedFor dispositions events
  without_update dispositions [] h = tt
  without_update dispositions (deleted receipt ∷ events) h = cc
  without_update dispositions (changed_visibility receipt d ∷ events) h = cc
  without_update dispositions (Event.started_heartbeat jobs ∷ events) h = h
  without_update dispositions (Event.attempted i job outcome ∷ events) h = h
  without_update dispositions (Event.interrupted i job ∷ events) h = h
  without_update dispositions (Event.joined_heartbeat ∷ events) h = h

  -- What the variables must satisfy when the loop has ended.
  abbrev IsClosed : List RecordAcquisitionDisposition → Progress → Type 0
  IsClosed dispositions p =
      (p.acknowledge ≡ true
        → AreSettled worker.bridge message.receive_started_at circumstances.around 0 dispositions)
      × (IsWithoutUpdate p.events
          × ((IsCertain p.events ⊎ (p.retry_delay ≡ none))
              × IsDelay (delay worker.bridge) p.retry_delay))

  update_event-IsAccountedFor :
      (dispositions : List RecordAcquisitionDisposition) (acknowledge : Bool)
      (retry_delay : Option ℕ) (i : ℕ) (events : List Event)
      → IsClosed dispositions (record {
        acknowledge = acknowledge;
        retry_delay = retry_delay;
        index = i;
        events = events;
      })
      → IsAccountedFor dispositions (
          update_event message.receipt_handle (record {
            acknowledge = acknowledge;
            retry_delay = retry_delay;
            index = i;
            events = events;
          }))
  update_event-IsAccountedFor dispositions acknowledge (some d) i events (s, (w, (inl c, e))) =
      (refl, (e, (c, w)))
  update_event-IsAccountedFor dispositions acknowledge (some d) i events (s, (w, (inr n, e))) = cc
  update_event-IsAccountedFor dispositions true none i events (s, (w, c)) = (refl, (s refl, w))
  update_event-IsAccountedFor dispositions false none i events (s, (w, c)) =
      without_update dispositions events w

  if_accounted :
      (test : Bool) (dispositions : List RecordAcquisitionDisposition) (xs ys : List Event)
      → IsAccountedFor dispositions xs
      → IsAccountedFor dispositions ys
      → IsAccountedFor dispositions (if test then xs else ys)
  if_accounted true dispositions xs ys h g = h
  if_accounted false dispositions xs ys h g = g

  finish-IsAccountedFor :
      (dispositions : List RecordAcquisitionDisposition) (end : Bool × ℕ) (p : Progress)
      → IsClosed dispositions p
      → IsAccountedFor dispositions (finish worker circumstances message end p)
  unfolding finish
  finish-IsAccountedFor dispositions (kept, visibility) p h =
      if_accounted _ dispositions _ _
        (update_event-IsAccountedFor dispositions p.acknowledge p.retry_delay p.index p.events h)
        (without_update dispositions p.events h.1.0)

  close_heartbeat-IsClosed :
      (dispositions : List RecordAcquisitionDisposition) (jobs : List AcquiredJob) (p : Progress)
      → IsClosed dispositions p
      → IsClosed dispositions (close_heartbeat worker circumstances message jobs p)
  close_heartbeat-IsClosed dispositions [] p h = h
  close_heartbeat-IsClosed dispositions (job ∷ jobs) p (s, (w, (inl c, e))) =
      (s, ((refl, w), (inl (refl, c), e)))
  close_heartbeat-IsClosed dispositions (job ∷ jobs) p (s, (w, (inr n, e))) =
      (s, ((refl, w), (inr n, e)))

  after_records-IsAccountedFor :
      (dispositions : List RecordAcquisitionDisposition) (jobs : List AcquiredJob) (visibility : ℕ)
      (flow : Flow)
      → Confirms
          (AreSettled worker.bridge message.receive_started_at circumstances.around 0 dispositions)
          (initial_progress jobs)
          flow
      → IsTameFlow (delay worker.bridge) flow
      → IsAccountedFor dispositions
          (after_records worker circumstances message jobs visibility flow)
  after_records-IsAccountedFor dispositions jobs visibility (next q) c t =
      finish-IsAccountedFor dispositions _ _
        (close_heartbeat-IsClosed dispositions jobs q ((λ a. (c a).1), (t.0, (inl t.1.0, t.1.1))))
  after_records-IsAccountedFor dispositions jobs visibility (broke q) c t =
      finish-IsAccountedFor dispositions _ _
        (close_heartbeat-IsClosed dispositions jobs q ((λ a. cc), t))
  after_records-IsAccountedFor dispositions jobs visibility (unwound q) c t =
      without_update dispositions q.events t

  initial_progress-IsTame :
      (jobs : List AcquiredJob) → IsTame (delay worker.bridge) (initial_progress jobs)
  initial_progress-IsTame [] = (tt, (tt, tt))
  initial_progress-IsTame (job ∷ jobs) = ((refl, tt), ((refl, tt), tt))

  handle_dispositions-IsAccountedFor :
      (visibility : ℕ) (dispositions : List RecordAcquisitionDisposition)
      → IsAccountedFor dispositions
          (handle_dispositions worker circumstances message visibility dispositions)
  unfolding handle_dispositions
  handle_dispositions-IsAccountedFor visibility dispositions =
      let jobs = acquired_jobs dispositions in
      after_records-IsAccountedFor dispositions jobs visibility _
        (handle_records-Confirms worker.bridge message.receive_started_at circumstances.around 0
          dispositions (initial_progress jobs))
        (handle_records-IsTame worker.bridge message.receive_started_at circumstances.around 0
          dispositions (initial_progress jobs) (initial_progress-IsTame jobs))

  acquisition_answer-IsAccountedFor :
      (visibility : ℕ) (end : AcquisitionEnd) (r : List RecordAcquisitionDisposition × List Job)
      → IsAccountedFor r.0 (acquisition_answer worker circumstances message visibility end r)
  acquisition_answer-IsAccountedFor visibility shut_down r = tt
  acquisition_answer-IsAccountedFor visibility timed_out r = tt
  acquisition_answer-IsAccountedFor visibility (answered at) r =
      if_accounted (ltb at (ownership_deadline worker circumstances message visibility)) r.0
        (handle_dispositions worker circumstances message visibility r.0) []
        (handle_dispositions-IsAccountedFor visibility r.0) tt

  begin-IsAccountedFor :
      (database : Database) (jobs : List Job) (deadline : Option ℕ)
      → IsAccountedFor
          (acquire_notification worker.acquisition database worker.json message.body jobs).0
          (begin worker circumstances message database jobs deadline)
  unfolding begin
  begin-IsAccountedFor database jobs none = tt
  begin-IsAccountedFor database jobs (some visibility) =
      if_accounted _ _ [] _ tt
        (acquisition_answer-IsAccountedFor visibility circumstances.acquisition _)

  -- Whatever the world does in a delivery, it asks the queue for at most one update, as its last
  -- step. It deletes the message only if every record is settled: the job was already completed; or
  -- its attempt asked just for its durable completion, and an answer of the database was that this
  -- was applied; or its execution was run and finalized. It changes the visibility only to the
  -- configured retry delay, and only if every attempt of the delivery that returned an outcome
  -- completed, released or finally failed its job.
  pub process_delivery-IsAccountedFor :
      (database : Database) (jobs : List Job)
      → IsAccountedFor
          (acquire_notification worker.acquisition database worker.json message.body jobs).0
          (process_delivery worker circumstances message database jobs)
  unfolding process_delivery
  process_delivery-IsAccountedFor database jobs =
      begin-IsAccountedFor database jobs message.visibility_deadline
