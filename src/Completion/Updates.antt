-- ===== src/Completion/Updates.antt =====
-- What a delivery (worker/src/completion.rs) asks of the queue.
use streaming_video_app.Prelude.{
  ℕ, suc, Text, ◌≡◌, refl, Bool, true, false, Option, none, some, List, [], ◌∷◌, if◌then◌else◌,
  Result, ok, err, inl, inr, arith, ◌⊎◌,
}
use streaming_video_app.Persistence.Port.{cli, distributed}
use streaming_video_app.Acquisition.Types.{
  AcquiredJob, NoWorkReason, RecordAcquisitionDisposition, acquired, acquired_with_mode,
  not_acquired, invalid_event,
}
use streaming_video_app.Attempt.Effects.{Call, World, Stop, await, check_lost, observe}
use streaming_video_app.Attempt.Process.{
  ProcessingOutcome, fail_owned, resolve_failure, resolve_owned_failure, persist_failure, retire,
}
use streaming_video_app.Attempt.Outcomes.{Accounts, process-Accounts}
use streaming_video_app.Orchestration.Input.{OrchestrationError, ExecutionInput}
use streaming_video_app.Completion.Distributed.{
  Bridge, Execution, Executed, no_calls, run_answer, with_input, with_deadline, with_receive,
  record_failure, run_distributed,
}
use streaming_video_app.Completion.Records.{
  Surroundings, Event, attempted, changed_visibility, deleted, Progress, Flow, next, broke, unwound,
  refuse, note, longest, settle_outcome, with_activity, cli_answer, cli_result, handle_cli,
  distributed_answer, handle_distributed, handle_reason, handle_record, follow, handle_records,
}

abbrev pub is_update : Event → Bool
is_update (changed_visibility receipt delay) = true
is_update (deleted receipt) = true
is_update _ = false

-- No queue update stands in the events.
abbrev pub IsWithoutUpdate : List Event → Type 0
IsWithoutUpdate [] = Unit
IsWithoutUpdate (event ∷ events) = (is_update event ≡ false) × IsWithoutUpdate events

abbrev pub is_certain_outcome : ProcessingOutcome → Bool
is_certain_outcome ProcessingOutcome.completed = true
is_certain_outcome (ProcessingOutcome.retry_released delay) = true
is_certain_outcome ProcessingOutcome.final_failed = true
is_certain_outcome _ = false

abbrev pub is_certain_event : Event → Bool
is_certain_event (attempted i job outcome) = is_certain_outcome outcome
is_certain_event _ = true

-- Every attempt that returned an outcome left a durable state that is known; an attempt that was
-- interrupted returned none.
abbrev pub IsCertain : List Event → Type 0
IsCertain [] = Unit
IsCertain (event ∷ events) = (is_certain_event event ≡ true) × IsCertain events

module _ (delay : ℕ) where
  abbrev pub IsDelay : Option ℕ → Type 0
  IsDelay none = Unit
  IsDelay (some d) = d ≡ delay

  abbrev pub HasDelay : ProcessingOutcome → Type 0
  HasDelay (ProcessingOutcome.retry_released d) = d ≡ delay
  HasDelay _ = Unit

  abbrev pub IsTame : Progress → Type 0
  IsTame p = IsWithoutUpdate p.events × (IsCertain p.events × IsDelay p.retry_delay)

  abbrev pub IsTameFlow : Flow → Type 0
  IsTameFlow (next q) = IsTame q
  IsTameFlow (broke q) =
      IsWithoutUpdate q.events
      × ((IsCertain q.events ⊎ (q.retry_delay ≡ none)) × IsDelay q.retry_delay)
  IsTameFlow (unwound q) = IsWithoutUpdate q.events

  longest-IsDelay : (d : ℕ) (o : Option ℕ) → d ≡ delay → IsDelay o → IsDelay (longest d o)
  longest-IsDelay d none h g = h
  longest-IsDelay d (some current) h g = omega (arith, h, g)

  refuse-IsTameFlow : (p : Progress) → IsTame p → IsTameFlow (broke (refuse p))
  refuse-IsTameFlow p h = (h.0, (inl h.1.0, h.1.1))

  settle_outcome-IsTame :
      (outcome : ProcessingOutcome) (i : ℕ) (job : AcquiredJob) (p : Progress)
      → HasDelay outcome
      → IsTame p
      → IsTameFlow (settle_outcome outcome (note (attempted i job outcome) p))
  unfolding settle_outcome
  settle_outcome-IsTame ProcessingOutcome.completed i job p d h =
      ((refl, h.0), ((refl, h.1.0), h.1.1))
  settle_outcome-IsTame (ProcessingOutcome.retry_released x) i job p d h =
      ((refl, h.0), ((refl, h.1.0), longest-IsDelay x p.retry_delay d h.1.1))
  settle_outcome-IsTame ProcessingOutcome.final_failed i job p d h =
      ((refl, h.0), ((refl, h.1.0), h.1.1))
  settle_outcome-IsTame ProcessingOutcome.ownership_lost i job p d h = ((refl, h.0), (inr refl, tt))
  settle_outcome-IsTame ProcessingOutcome.infrastructure_failure i job p d h =
      ((refl, h.0), (inr refl, tt))
  settle_outcome-IsTame ProcessingOutcome.panicked i job p d h = ((refl, h.0), (inr refl, tt))

  if_tame :
      (test : Bool) (q : Progress) (flow : Flow)
      → IsTameFlow (broke q)
      → IsTameFlow flow
      → IsTameFlow (if test then broke q else flow)
  if_tame true q flow h g = h
  if_tame false q flow h g = g

  abbrev pub ResultDelay : Result Stop ProcessingOutcome → Type 0
  ResultDelay (ok outcome) = HasDelay outcome
  ResultDelay (err s) = Unit

  abbrev pub ExecutedDelay : Executed → Type 0
  ExecutedDelay (some (ok outcome)) = HasDelay outcome
  ExecutedDelay _ = Unit

  if_executed :
      (test : Bool) (x y : Executed)
      → ExecutedDelay x
      → ExecutedDelay y
      → ExecutedDelay (if test then x else y)
  if_executed true x y h g = h
  if_executed false x y h g = g

module _ (bridge : Bridge) where
  abbrev pub delay : ℕ
  delay = bridge.processor.settings.retry_delay

  module _ (execution : Execution) (job : AcquiredJob) where
    record_failure-HasDelay :
        (reason : Text) → ExecutedDelay delay (record_failure bridge execution job reason)
    unfolding record_failure fail_owned resolve_failure resolve_owned_failure persist_failure retire
        await check_lost observe
    record_failure-HasDelay reason = ground arith

    run_answer-HasDelay :
        (o : Option (Result OrchestrationError (Unit {0})))
        → ExecutedDelay delay (run_answer bridge execution job o)
    unfolding run_answer
    run_answer-HasDelay none = tt
    run_answer-HasDelay (some (ok u)) = if_executed delay execution.gone_after _ _ tt tt
    run_answer-HasDelay (some (err OrchestrationError.ownership_lost)) = tt
    run_answer-HasDelay (some (err OrchestrationError.permission)) =
        if_executed delay execution.gone_after _ _ tt (record_failure-HasDelay _)
    run_answer-HasDelay (some (err OrchestrationError.failed)) =
        if_executed delay execution.gone_after _ _ tt (record_failure-HasDelay _)
    run_answer-HasDelay (some (err OrchestrationError.timed_out)) =
        if_executed delay execution.gone_after _ _ tt (record_failure-HasDelay _)
    run_answer-HasDelay (some (err (OrchestrationError.start reason))) =
        if_executed delay execution.gone_after _ _ tt (record_failure-HasDelay _)
    run_answer-HasDelay (some (err (OrchestrationError.describe reason))) =
        if_executed delay execution.gone_after _ _ tt (record_failure-HasDelay _)
    run_answer-HasDelay (some (err (OrchestrationError.finalizer reason))) =
        if_executed delay execution.gone_after _ _ tt (record_failure-HasDelay _)

    with_input-HasDelay :
        (at : ℕ) (r : Result OrchestrationError ExecutionInput)
        → ExecutedDelay delay (with_input bridge execution job at r)
    with_input-HasDelay at (err x) = record_failure-HasDelay _
    with_input-HasDelay at (ok input) = run_answer-HasDelay _

    with_deadline-HasDelay :
        (r : Result OrchestrationError (Text × ℕ))
        → ExecutedDelay delay (with_deadline bridge execution job r)
    with_deadline-HasDelay (err x) = record_failure-HasDelay _
    with_deadline-HasDelay (ok (wall, at)) = with_input-HasDelay at _

    with_receive-HasDelay :
        (at : Option ℕ) → ExecutedDelay delay (with_receive bridge execution job at)
    with_receive-HasDelay none = record_failure-HasDelay _
    with_receive-HasDelay (some at) = with_deadline-HasDelay _

    run_distributed-HasDelay :
        (at : Option ℕ) → ExecutedDelay delay (run_distributed bridge execution job at)
    unfolding run_distributed
    run_distributed-HasDelay at =
        if_executed delay execution.gone_before _ _ tt (with_receive-HasDelay at)

  module _ (receive_started_at : Option ℕ) (around : ℕ → Surroundings) where
    Accounts-delay :
        (ports : World) (job : AcquiredJob) (n : ℕ) (r : Result Stop ProcessingOutcome)
        (before after : List Call)
        → Accounts ports (with_activity bridge receive_started_at around) job n before r after
        → ResultDelay delay r
    Accounts-delay ports job n (ok (ProcessingOutcome.retry_released d)) before after h = h.1
    Accounts-delay ports job n (ok ProcessingOutcome.completed) before after h = tt
    Accounts-delay ports job n (ok ProcessingOutcome.final_failed) before after h = tt
    Accounts-delay ports job n (ok ProcessingOutcome.ownership_lost) before after h = tt
    Accounts-delay ports job n (ok ProcessingOutcome.infrastructure_failure) before after h = tt
    Accounts-delay ports job n (ok ProcessingOutcome.panicked) before after h = tt
    Accounts-delay ports job n (err s) before after h = tt

    cli_answer-IsTame :
        (job : AcquiredJob) (r : Result Stop ProcessingOutcome) (p : Progress)
        → ResultDelay delay r
        → IsTame delay p
        → IsTameFlow delay (cli_answer bridge receive_started_at around job r p)
    cli_answer-IsTame job (ok outcome) p d h = settle_outcome-IsTame delay outcome p.index job p d h
    cli_answer-IsTame job (err s) p d h = ((refl, h.0), (inl (refl, h.1.0), h.1.1))

    handle_cli-IsTame :
        (i : ℕ) (job : AcquiredJob) (p : Progress)
        → IsTame delay p
        → IsTameFlow delay (handle_cli bridge receive_started_at around i job p)
    unfolding handle_cli
    handle_cli-IsTame i job p h = if_tame delay (around i).lost _ _ (refuse-IsTameFlow delay p h) (
        if_tame delay (around i).interrupted _ _ ((refl, h.0), (inl (refl, h.1.0), h.1.1))
          (cli_answer-IsTame job (cli_result bridge receive_started_at around i job) p
            (Accounts-delay (around i).ports job _ _ _ _
              (process-Accounts (around i).ports (with_activity bridge receive_started_at around)
                job no_calls).1)
            h))

    distributed_answer-IsTame :
        (job : AcquiredJob) (r : Executed) (p : Progress)
        → ExecutedDelay delay r
        → IsTame delay p
        → IsTameFlow delay (distributed_answer bridge receive_started_at around job r p)
    distributed_answer-IsTame job none p d h = h.0
    distributed_answer-IsTame job (some (err s)) p d h = h.0
    distributed_answer-IsTame job (some (ok outcome)) p d h =
        settle_outcome-IsTame delay outcome p.index job p d h

    handle_reason-IsTame :
        (reason : NoWorkReason) (p : Progress)
        → IsTame delay p
        → IsTameFlow delay (handle_reason bridge receive_started_at around reason p)
    handle_reason-IsTame NoWorkReason.completed p h = h
    handle_reason-IsTame NoWorkReason.busy p h = h
    handle_reason-IsTame NoWorkReason.failed p h = h
    handle_reason-IsTame NoWorkReason.unknown_or_mismatched p h = h
    handle_reason-IsTame NoWorkReason.attempt_exhausted p h = h
    handle_reason-IsTame (NoWorkReason.persistence_error x) p h = h

    handle_record-IsTame :
        (i : ℕ) (d : RecordAcquisitionDisposition) (p : Progress)
        → IsTame delay p
        → IsTameFlow delay (handle_record bridge receive_started_at around i d p)
    unfolding handle_record handle_distributed
    handle_record-IsTame i (acquired job) p h = handle_cli-IsTame i job p h
    handle_record-IsTame i (acquired_with_mode job cli) p h = handle_cli-IsTame i job p h
    handle_record-IsTame i (acquired_with_mode job distributed) p h =
        if_tame delay (around i).lost _ _ (refuse-IsTameFlow delay p h) (
          distributed_answer-IsTame job _ p
            (run_distributed-HasDelay (around i).execution job receive_started_at) h)
    handle_record-IsTame i (not_acquired item reason) p h = handle_reason-IsTame reason p h
    handle_record-IsTame i invalid_event p h = h

    follow-IsTame :
        (flow : Flow) (rest : Progress → Flow)
        → IsTameFlow delay flow
        → ((q : Progress) → IsTame delay q → IsTameFlow delay (rest q))
        → IsTameFlow delay (follow bridge receive_started_at around flow rest)
    follow-IsTame (next q) rest h k = k q h
    follow-IsTame (broke q) rest h k = h
    follow-IsTame (unwound q) rest h k = h

    pub handle_records-IsTame :
        (i : ℕ) (ds : List RecordAcquisitionDisposition) (p : Progress)
        → IsTame delay p
        → IsTameFlow delay (handle_records bridge receive_started_at around i ds p)
    unfolding handle_records
    handle_records-IsTame i [] p h = h
    handle_records-IsTame i (d ∷ ds) p h =
        if_tame delay (around i).stopped _ _ (refuse-IsTameFlow delay p h) (
          follow-IsTame (handle_record bridge receive_started_at around i d p) _
            (handle_record-IsTame i d p h) (λ q g. handle_records-IsTame (suc i) ds q g))
