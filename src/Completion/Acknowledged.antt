-- ===== src/Completion/Acknowledged.antt =====
-- When a delivery (worker/src/completion.rs) deletes its message.
use streaming_video_app.Prelude.{
  ℕ, suc, Text, ◌≡◌, refl, ap, Bool, true, false, Option, none, some, List, [], ◌∷◌, if◌then◌else◌,
  Result, ok, err, Bool-cases, inl, inr, arith, subst, ◌∙◌,
}
use streaming_video_app.Persistence.Port.{cli, distributed, applied}
use streaming_video_app.Acquisition.Types.{
  AcquiredJob, NoWorkReason, RecordAcquisitionDisposition, acquired, acquired_with_mode,
  not_acquired, invalid_event,
}
use streaming_video_app.Attempt.Effects.{Stop, await, check_lost, observe}
use streaming_video_app.Attempt.Process.{
  ProcessingOutcome, process, fail_owned, resolve_failure, resolve_owned_failure, persist_failure,
  retire,
}
use streaming_video_app.Attempt.Durable.{durable}
use streaming_video_app.Attempt.Outcomes.{completion, Accounts, process-Accounts}
use streaming_video_app.Orchestration.Input.{OrchestrationError, ExecutionInput}
use streaming_video_app.Completion.Distributed.{
  Bridge, Execution, Executed, no_calls, started_run, run_answer, with_input, with_deadline,
  with_receive, record_failure, run_distributed,
}
use streaming_video_app.Completion.Records.{
  Surroundings, Event, Progress, Flow, next, broke, unwound, note, settle_outcome, with_activity,
  cli_answer, cli_result, handle_cli, distributed_answer, distributed_result, handle_distributed,
  handle_reason, handle_record, follow, handle_records,
}

-- The flow acknowledges only if the progress did and the record is settled; a loop that broke does
-- not acknowledge.
abbrev pub Confirms : Type 0 → Progress → Flow → Type 0
Confirms Settled p (next q) = q.acknowledge ≡ true → (p.acknowledge ≡ true) × Settled
Confirms Settled p (broke q) = q.acknowledge ≡ false
Confirms Settled p (unwound q) = Unit

settle_outcome-Confirms :
    (Settled : Type 0) (outcome : ProcessingOutcome) (p : Progress)
    → (outcome ≡ ProcessingOutcome.completed → Settled)
    → Confirms Settled p (settle_outcome outcome p)
unfolding settle_outcome
settle_outcome-Confirms Settled ProcessingOutcome.completed p h = λ e. (e, h refl)
settle_outcome-Confirms Settled (ProcessingOutcome.retry_released delay) p h = λ e. cc
settle_outcome-Confirms Settled ProcessingOutcome.final_failed p h = λ e. cc
settle_outcome-Confirms Settled ProcessingOutcome.ownership_lost p h = refl
settle_outcome-Confirms Settled ProcessingOutcome.infrastructure_failure p h = refl
settle_outcome-Confirms Settled ProcessingOutcome.panicked p h = refl

Confirms-if :
    (Settled : Type 0) (p q : Progress) (test : Bool) (flow : Flow)
    → q.acknowledge ≡ false
    → Confirms Settled p flow
    → Confirms Settled p (if test then broke q else flow)
Confirms-if Settled p q true flow hq h = hq
Confirms-if Settled p q false flow hq h = h

-- A run that the record's execution reached and whose finalizer succeeded.
abbrev pub HasFinalized : Bridge → Execution → AcquiredJob → Type 0
HasFinalized bridge execution job =
    (input : ExecutionInput) × (deadline : ℕ) × (started_run bridge execution job input deadline
      ≡ some (ok tt))

module _ (bridge : Bridge) (receive_started_at : Option ℕ) (around : ℕ → Surroundings) where
  -- The attempt asked to complete the job, and for nothing else that is durable, and the database
  -- answered that this was applied.
  abbrev pub HasCompleted : ℕ → AcquiredJob → Type 0
  HasCompleted i job =
      (durable
          (process (around i).ports (with_activity bridge receive_started_at around) job
            no_calls).1.log
        ≡ completion (with_activity bridge receive_started_at around) job ∷ [])
      × ((n : ℕ) × ((around i).ports.persist n ≡ ok applied))

  abbrev pub IsSettled : ℕ → RecordAcquisitionDisposition → Type 0
  IsSettled i (acquired job) = HasCompleted i job
  IsSettled i (acquired_with_mode job cli) = HasCompleted i job
  IsSettled i (acquired_with_mode job distributed) = HasFinalized bridge (around i).execution job
  IsSettled i (not_acquired item reason) = reason ≡ NoWorkReason.completed
  IsSettled i invalid_event = ⊥

  abbrev pub AreSettled : ℕ → List RecordAcquisitionDisposition → Type 0
  AreSettled i [] = Unit
  AreSettled i (disposition ∷ dispositions) =
      IsSettled i disposition × AreSettled (suc i) dispositions

  completed-HasCompleted :
      (i : ℕ) (job : AcquiredJob)
      → cli_result bridge receive_started_at around i job ≡ ok ProcessingOutcome.completed
      → HasCompleted i job
  completed-HasCompleted i job e =
      let accounts =
        process-Accounts (around i).ports (with_activity bridge receive_started_at around) job
          no_calls in
      let completes =
        subst
          (λ r.
            Accounts (around i).ports (with_activity bridge receive_started_at around) job
              accounts.0 [] r
              (durable
                (process (around i).ports (with_activity bridge receive_started_at around) job
                  no_calls).1.log))
          e accounts.1 in
      (completes.0, (accounts.0, completes.1))

  cli_answer-Confirms :
      (i : ℕ) (job : AcquiredJob) (p : Progress) (r : Result Stop ProcessingOutcome)
      → cli_result bridge receive_started_at around i job ≡ r
      → Confirms (HasCompleted i job) p (cli_answer bridge receive_started_at around job r p)
  cli_answer-Confirms i job p (err stop) e = refl
  cli_answer-Confirms i job p (ok outcome) e =
      settle_outcome-Confirms (HasCompleted i job) outcome
        (note (Event.attempted p.index job outcome) p)
        λ o. completed-HasCompleted i job (e ∙ ap ok o)

  handle_cli-Confirms :
      (i : ℕ) (job : AcquiredJob) (p : Progress)
      → Confirms (HasCompleted i job) p (handle_cli bridge receive_started_at around i job p)
  unfolding handle_cli
  handle_cli-Confirms i job p = Confirms-if (HasCompleted i job) p _ (around i).lost _ refl (
      Confirms-if (HasCompleted i job) p _ (around i).interrupted _ refl
        (cli_answer-Confirms i job p (cli_result bridge receive_started_at around i job) refl))

module _ (bridge : Bridge) (execution : Execution) (job : AcquiredJob) where
  abbrev IsCompleted : Executed → Type 0
  IsCompleted r = r ≡ some (ok ProcessingOutcome.completed)

  failure_uncompleted :
      (reason : Text) → IsCompleted (record_failure bridge execution job reason) → ⊥
  unfolding record_failure fail_owned resolve_failure resolve_owned_failure persist_failure retire
      await check_lost observe
  failure_uncompleted reason e = ground arith

  if_uncompleted :
      (test : Bool) (x y : Executed)
      → (IsCompleted x → ⊥)
      → (IsCompleted y → ⊥)
      → IsCompleted (if test then x else y)
      → ⊥
  if_uncompleted true x y hx hy e = hx e
  if_uncompleted false x y hx hy e = hy e

  error_uncompleted :
      (reason : Text)
      → IsCompleted (
          if execution.gone_after
          then some (ok ProcessingOutcome.ownership_lost)
          else record_failure bridge execution job reason)
      → ⊥
  error_uncompleted reason =
      if_uncompleted execution.gone_after _ _ (λ e. cc) (failure_uncompleted reason)

  run_answer-HasFinalized :
      (input : ExecutionInput) (deadline : ℕ) (o : Option (Result OrchestrationError (Unit {0})))
      → started_run bridge execution job input deadline ≡ o
      → IsCompleted (run_answer bridge execution job o)
      → HasFinalized bridge execution job
  unfolding run_answer
  run_answer-HasFinalized input deadline none h e = cc
  run_answer-HasFinalized input deadline (some (ok u)) h e = (input, deadline, h)
  run_answer-HasFinalized input deadline (some (err OrchestrationError.ownership_lost)) h e = cc
  run_answer-HasFinalized input deadline (some (err OrchestrationError.permission)) h e =
      absurd (error_uncompleted _ e)
  run_answer-HasFinalized input deadline (some (err OrchestrationError.failed)) h e =
      absurd (error_uncompleted _ e)
  run_answer-HasFinalized input deadline (some (err OrchestrationError.timed_out)) h e =
      absurd (error_uncompleted _ e)
  run_answer-HasFinalized input deadline (some (err (OrchestrationError.start reason))) h e =
      absurd (error_uncompleted _ e)
  run_answer-HasFinalized input deadline (some (err (OrchestrationError.describe reason))) h e =
      absurd (error_uncompleted _ e)
  run_answer-HasFinalized input deadline (some (err (OrchestrationError.finalizer reason))) h e =
      absurd (error_uncompleted _ e)

  with_input-HasFinalized :
      (deadline : ℕ) (r : Result OrchestrationError ExecutionInput)
      → IsCompleted (with_input bridge execution job deadline r)
      → HasFinalized bridge execution job
  with_input-HasFinalized deadline (err x) e = absurd (failure_uncompleted _ e)
  with_input-HasFinalized deadline (ok input) e = run_answer-HasFinalized input deadline _ refl e

  with_deadline-HasFinalized :
      (r : Result OrchestrationError (Text × ℕ))
      → IsCompleted (with_deadline bridge execution job r)
      → HasFinalized bridge execution job
  with_deadline-HasFinalized (err x) e = absurd (failure_uncompleted _ e)
  with_deadline-HasFinalized (ok (at, deadline)) e = with_input-HasFinalized deadline _ e

  with_receive-HasFinalized :
      (at : Option ℕ)
      → IsCompleted (with_receive bridge execution job at)
      → HasFinalized bridge execution job
  with_receive-HasFinalized none e = absurd (failure_uncompleted _ e)
  with_receive-HasFinalized (some at) e = with_deadline-HasFinalized _ e

  run_distributed-HasFinalized :
      (at : Option ℕ)
      → IsCompleted (run_distributed bridge execution job at)
      → HasFinalized bridge execution job
  unfolding run_distributed
  run_distributed-HasFinalized at e = elim (Bool-cases execution.gone_before) [
    | inl g ↦ absurd (gone execution.gone_before g e)
    | inr g ↦ started execution.gone_before g e
  ]
    where
      gone :
          (b : Bool)
          → b ≡ true
          → IsCompleted (
              if b
              then some (ok ProcessingOutcome.ownership_lost)
              else with_receive bridge execution job at)
          → ⊥
      gone true h e = cc
      gone false h e = cc

      started :
          (b : Bool)
          → b ≡ false
          → IsCompleted (
              if b
              then some (ok ProcessingOutcome.ownership_lost)
              else with_receive bridge execution job at)
          → HasFinalized bridge execution job
      started true h e = cc
      started false h e = with_receive-HasFinalized at e

module _ (bridge : Bridge) (receive_started_at : Option ℕ) (around : ℕ → Surroundings) where
  distributed_answer-Confirms :
      (i : ℕ) (job : AcquiredJob) (p : Progress) (r : Executed)
      → distributed_result bridge receive_started_at around i job ≡ r
      → Confirms
          (HasFinalized bridge (around i).execution job)
          p
          (distributed_answer bridge receive_started_at around job r p)
  distributed_answer-Confirms i job p none e = tt
  distributed_answer-Confirms i job p (some (err stop)) e = tt
  distributed_answer-Confirms i job p (some (ok outcome)) e =
      settle_outcome-Confirms (HasFinalized bridge (around i).execution job) outcome
        (note (Event.attempted p.index job outcome) p)
        λ o.
          run_distributed-HasFinalized bridge (around i).execution job receive_started_at
            (e ∙ ap (λ (x : ProcessingOutcome). some (ok x)) o)

  handle_reason-Confirms :
      (reason : NoWorkReason) (p : Progress)
      → Confirms
          (reason ≡ NoWorkReason.completed)
          p
          (handle_reason bridge receive_started_at around reason p)
  handle_reason-Confirms NoWorkReason.completed p = λ e. (e, refl)
  handle_reason-Confirms NoWorkReason.busy p = λ e. cc
  handle_reason-Confirms NoWorkReason.failed p = λ e. cc
  handle_reason-Confirms NoWorkReason.unknown_or_mismatched p = λ e. cc
  handle_reason-Confirms NoWorkReason.attempt_exhausted p = λ e. cc
  handle_reason-Confirms (NoWorkReason.persistence_error x) p = λ e. cc

  handle_record-Confirms :
      (i : ℕ) (d : RecordAcquisitionDisposition) (p : Progress)
      → Confirms
          (IsSettled bridge receive_started_at around i d)
          p
          (handle_record bridge receive_started_at around i d p)
  unfolding handle_record handle_distributed
  handle_record-Confirms i (acquired job) p =
      handle_cli-Confirms bridge receive_started_at around i job p
  handle_record-Confirms i (acquired_with_mode job cli) p =
      handle_cli-Confirms bridge receive_started_at around i job p
  handle_record-Confirms i (acquired_with_mode job distributed) p =
      Confirms-if (HasFinalized bridge (around i).execution job) p _ (around i).lost _ refl
        (distributed_answer-Confirms i job p _ refl)
  handle_record-Confirms i (not_acquired item reason) p = handle_reason-Confirms reason p
  handle_record-Confirms i invalid_event p = λ e. cc

  follow-Confirms :
      (S T : Type 0) (p : Progress) (flow : Flow) (rest : Progress → Flow)
      → Confirms S p flow
      → ((q : Progress) → Confirms T q (rest q))
      → Confirms (S × T) p (follow bridge receive_started_at around flow rest)
  follow-Confirms S T p (next q) rest h k = combine (rest q) (k q)
    where
      combine : (flow : Flow) → Confirms T q flow → Confirms (S × T) p flow
      combine (next r) c = λ e. let a = c e in let b = h a.0 in (b.0, (b.1, a.1))
      combine (broke r) c = c
      combine (unwound r) c = tt
  follow-Confirms S T p (broke q) rest h k = h
  follow-Confirms S T p (unwound q) rest h k = tt

  pub handle_records-Confirms :
      (i : ℕ) (ds : List RecordAcquisitionDisposition) (p : Progress)
      → Confirms
          (AreSettled bridge receive_started_at around i ds)
          p
          (handle_records bridge receive_started_at around i ds p)
  unfolding handle_records
  handle_records-Confirms i [] p = λ e. (e, tt)
  handle_records-Confirms i (d ∷ ds) p =
      Confirms-if (AreSettled bridge receive_started_at around i (d ∷ ds)) p _ (around i).stopped _
        refl
        (follow-Confirms (IsSettled bridge receive_started_at around i d)
          (AreSettled bridge receive_started_at around (suc i) ds) p
          (handle_record bridge receive_started_at around i d p) _ (handle_record-Confirms i d p)
          (λ q. handle_records-Confirms (suc i) ds q))
