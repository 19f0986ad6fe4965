-- ===== src/Completion/Records.antt =====
-- The loop over the records of a delivery (worker/src/completion.rs).
use streaming_video_app.Prelude.{
  ℕ, suc, Text, Bool, true, false, Option, none, some, List, [], ◌∷◌, if◌then◌else◌, Result, ok,
  err, max,
}
use streaming_video_app.Persistence.Port.{cli, distributed}
use streaming_video_app.Acquisition.Types.{
  AcquiredJob, NoWorkReason, RecordAcquisitionDisposition, acquired, acquired_with_mode,
  not_acquired, invalid_event,
}
use streaming_video_app.Attempt.Effects.{World, Stop}
use streaming_video_app.Attempt.Process.{Processor, ProcessingOutcome, process}
use streaming_video_app.Completion.Distributed.{
  Execution, Bridge, Executed, run_distributed, no_calls,
}

-- What the world does around one record.
pub record Surroundings : Type 0 where
  pub stopped : Bool  -- shutdown requested, at the top of the loop
  pub lost : Bool  -- the heartbeat lost ownership, before the attempt
  pub interrupted : Bool  -- either, before the attempt is first polled
  pub ports : World
  pub execution : Execution

-- The newest first.
pub data Event : Type 0 where
  started_heartbeat : List AcquiredJob → Event
  attempted : ℕ → AcquiredJob → ProcessingOutcome → Event  -- with the index of its activity flag
  interrupted : ℕ → AcquiredJob → Event
  joined_heartbeat : Event
  changed_visibility : Text → ℕ → Event
  deleted : Text → Event

-- The variables of the loop.
pub record Progress : Type 0 where
  pub acknowledge : Bool
  pub retry_delay : Option ℕ
  pub index : ℕ
  pub events : List Event

-- `unwound`: an execution panicked, which nothing catches, or its fuel ran out.
pub data Flow : Type 0 where
  next : Progress → Flow
  broke : Progress → Flow
  unwound : Progress → Flow

abbrev pub refuse : Progress → Progress
refuse p = record p { acknowledge = false }

-- `retry_delay.map_or(delay, |current| current.max(delay))`
abbrev pub longest : ℕ → Option ℕ → Option ℕ
longest delay none = some delay
longest delay (some current) = some (max current delay)

-- An uncertain attempt must expire naturally.
abbrev pub give_up : Progress → Progress
give_up p = record p { acknowledge = false; retry_delay = none }

unfoldable pub settle_outcome : ProcessingOutcome → Progress → Flow
settle_outcome ProcessingOutcome.completed p = next p
settle_outcome (ProcessingOutcome.retry_released delay) p =
    next (record p { acknowledge = false; retry_delay = longest delay p.retry_delay })
settle_outcome ProcessingOutcome.final_failed p = next (refuse p)
settle_outcome ProcessingOutcome.ownership_lost p = broke (give_up p)
settle_outcome ProcessingOutcome.infrastructure_failure p = broke (give_up p)
settle_outcome ProcessingOutcome.panicked p = broke (give_up p)

abbrev pub note : Event → Progress → Progress
note event p = record p { index = suc p.index; events = event ∷ p.events }

module _ (bridge : Bridge) (receive_started_at : Option ℕ) (around : ℕ → Surroundings) where
  abbrev pub with_activity : Processor
  with_activity = record bridge.processor { has_activity = true }

  -- A result that is no outcome is that of a future that was dropped for a shutdown or a loss.
  abbrev pub cli_answer : AcquiredJob → Result Stop ProcessingOutcome → Progress → Flow
  cli_answer job (ok outcome) p = settle_outcome outcome (note (attempted p.index job outcome) p)
  cli_answer job (err stop) p = broke (refuse (note (Event.interrupted p.index job) p))

  abbrev pub cli_result : ℕ → AcquiredJob → Result Stop ProcessingOutcome
  cli_result i job = (process (around i).ports with_activity job no_calls).0

  unfoldable pub handle_cli : ℕ → AcquiredJob → Progress → Flow
  unfolding settle_outcome process
  handle_cli i job p =
      let answered = cli_answer job (cli_result i job) p in
      if (around i).lost
      then broke (refuse p)
      else if (around i).interrupted
      then broke (refuse (note (Event.interrupted p.index job) p))
      else answered

  abbrev pub distributed_answer : AcquiredJob → Executed → Progress → Flow
  distributed_answer job none p = unwound p
  distributed_answer job (some (err stop)) p = unwound p
  distributed_answer job (some (ok outcome)) p =
      settle_outcome outcome (note (attempted p.index job outcome) p)

  abbrev pub distributed_result : ℕ → AcquiredJob → Executed
  distributed_result i job = run_distributed bridge (around i).execution job receive_started_at

  unfoldable pub handle_distributed : ℕ → AcquiredJob → Progress → Flow
  unfolding settle_outcome run_distributed
  handle_distributed i job p =
      let answered = distributed_answer job (distributed_result i job) p in
      if (around i).lost then broke (refuse p) else answered

  abbrev pub handle_reason : NoWorkReason → Progress → Flow
  handle_reason NoWorkReason.completed p = next p
  handle_reason reason p = next (refuse p)

  unfoldable pub handle_record : ℕ → RecordAcquisitionDisposition → Progress → Flow
  unfolding handle_cli handle_distributed
  handle_record i (acquired_with_mode job distributed) p = handle_distributed i job p
  handle_record i (acquired_with_mode job cli) p = handle_cli i job p
  handle_record i (acquired job) p = handle_cli i job p
  handle_record i (not_acquired item reason) p = handle_reason reason p
  handle_record i invalid_event p = next (refuse p)

  -- What follows a record, with the rest of the loop.
  abbrev pub follow : Flow → (Progress → Flow) → Flow
  follow (next p) rest = rest p
  follow (broke p) rest = broke p
  follow (unwound p) rest = unwound p

  unfoldable pub handle_records : ℕ → List RecordAcquisitionDisposition → Progress → Flow
  unfolding handle_record
  handle_records i [] p = next p
  handle_records i (disposition ∷ dispositions) p =
      let handled = follow (handle_record i disposition p) (handle_records (suc i) dispositions) in
      if (around i).stopped then broke (refuse p) else handled
