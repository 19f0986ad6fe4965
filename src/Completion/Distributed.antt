-- ===== src/Completion/Distributed.antt =====
-- A record that is encoded by a distributed execution (worker/src/completion.rs, and the deadline
-- and the error texts of worker/src/orchestration.rs).
use streaming_video_app.Prelude.{
  ℕ, suc, ◌+◌, ◌-◌, Text, codes, Bool, false, ◌||◌, Option, none, some, List, [], ◌∷◌, leb, ◌==◌,
  if◌then◌else◌, Result, ok, err, max, min,
}
use streaming_video_app.Acquisition.Types.{AcquiredJob}
use streaming_video_app.Attempt.Effects.{World, Trace, Failure, Stop}
use streaming_video_app.Attempt.Process.{Processor, ProcessingOutcome, fail_owned}
use streaming_video_app.Orchestration.Input.{
  OrchestrationError, permission, start, describe, failed, timed_out, finalizer, ExecutionInput,
  Formats, for_job,
}
use streaming_video_app.Orchestration.Effects
use streaming_video_app.Orchestration.Prior.{Outcome}
use streaming_video_app.Orchestration.Run.{run}

-- `Display for OrchestrationError`
unfoldable pub error_text : OrchestrationError → Text
error_text permission = codes "orchestration permission denied"
error_text (start reason) = codes "orchestration start failed"
error_text (describe reason) = codes "orchestration inspection failed"
error_text failed = codes "orchestration failed"
error_text timed_out = codes "orchestration timed out"
error_text OrchestrationError.ownership_lost = codes "orchestration ownership lost"
error_text (finalizer reason) = codes "orchestration finalizer failed"

-- Durations and instants in milliseconds.
abbrev pub sqs_visibility_lifetime : ℕ
sqs_visibility_lifetime = 43200000

abbrev deadline_within : ℕ → ℕ → ℕ → ℕ → Text → Result OrchestrationError (Text × ℕ)
deadline_within receive_started_at budget completion_margin now wall =
    if completion_margin == 0 || leb budget completion_margin
    then err timed_out
    else if leb (receive_started_at + (budget - completion_margin)) now
    then err timed_out
    else ok (wall, receive_started_at + (budget - completion_margin))

-- `now` is the instant of the check, `wall` the date that `chrono` prints for the deadline.
unfoldable pub deadline_from_receive : ℕ → ℕ → ℕ → ℕ → Text → Result OrchestrationError (Text × ℕ)
deadline_from_receive receive_started_at processing_budget completion_margin now wall =
    deadline_within receive_started_at (min processing_budget sqs_visibility_lifetime)
      completion_margin now wall

abbrev pub canonical_renditions : List Text
canonical_renditions = codes "360p" ∷ codes "720p" ∷ []

-- What the world does while one record is executed.
pub record Execution : Type 0 where
  pub gone_before : Bool  -- cancelled, or shutdown requested, at the start
  pub now : ℕ
  pub wall : Text
  pub services : Effects.World
  pub gone_after : Bool  -- the same, when the run has returned
  pub ports : World  -- of the attempt that records a failure

-- The parts of the processor that one record uses. The bridge polls with this interval.
pub record Bridge : Type 1 where
  pub formats : Formats
  pub processor : Processor
  pub processing_budget : ℕ
  pub heartbeat_interval : ℕ
  pub poll_interval : ℕ

abbrev pub no_calls : Trace
no_calls = record { tick = 0; log = [] }

-- `none` where the fuel of the run is used up.
abbrev pub Executed : Type 0
Executed = Option (Result Stop ProcessingOutcome)

module _ (bridge : Bridge) (execution : Execution) (job : AcquiredJob) where
  abbrev outcome : ProcessingOutcome → Executed
  outcome o = some (ok o)

  -- `self.processing`, without the activity flag.
  abbrev pub without_activity : Processor
  without_activity = record bridge.processor { has_activity = false }

  unfoldable pub record_failure : Text → Executed
  unfolding fail_owned
  record_failure reason =
      some (fail_owned execution.ports without_activity job (Failure.other reason) no_calls).0

  unfoldable pub started_run : ExecutionInput → ℕ → Outcome
  unfolding run
  started_run input deadline =
      (run bridge.formats execution.services (suc deadline) job input (max bridge.poll_interval 1)
        deadline (record { clock = execution.now; asked = 0; log = [] })).0

  -- The match on the bridge's result: a run that ended after cancellation lost the job.
  unfoldable pub run_answer : Outcome → Executed
  unfolding record_failure error_text
  run_answer none = none
  run_answer (some (ok u)) =
      if execution.gone_after
      then outcome ProcessingOutcome.ownership_lost
      else outcome ProcessingOutcome.completed
  run_answer (some (err OrchestrationError.ownership_lost)) =
      outcome ProcessingOutcome.ownership_lost
  run_answer (some (err e)) =
      let failure = record_failure (error_text e) in
      if execution.gone_after then outcome ProcessingOutcome.ownership_lost else failure

  abbrev pub with_input : ℕ → Result OrchestrationError ExecutionInput → Executed
  with_input deadline (err e) = record_failure (error_text e)
  with_input deadline (ok input) = run_answer (started_run input deadline)

  abbrev pub with_deadline : Result OrchestrationError (Text × ℕ) → Executed
  with_deadline (err e) = record_failure (error_text e)
  with_deadline (ok (deadline_at, deadline)) =
      with_input deadline (for_job bridge.formats job canonical_renditions deadline_at)

  abbrev pub with_receive : Option ℕ → Executed
  with_receive none = record_failure (codes "receive start time is missing")
  with_receive (some at) = with_deadline (
      deadline_from_receive at bridge.processing_budget bridge.heartbeat_interval execution.now
        execution.wall)

  unfoldable pub run_distributed : Option ℕ → Executed
  unfolding record_failure started_run run_answer deadline_from_receive for_job error_text
  run_distributed receive_started_at =
      let received = with_receive receive_started_at in
      if execution.gone_before then outcome ProcessingOutcome.ownership_lost else received
