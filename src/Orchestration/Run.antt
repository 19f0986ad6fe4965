-- ===== src/Orchestration/Run.antt =====
-- Start, polling and end of an execution (worker/src/orchestration.rs).
use streaming_video_app.Prelude.{
  ℕ, zero, suc, Text, codes, Bool, true, false, Option, none, some, if◌then◌else◌, Result, ok, err,
  max, length,
}
use streaming_video_app.Naming.{execution_name}
use streaming_video_app.Acquisition.Types.{AcquiredJob}
use streaming_video_app.Orchestration.Input.{
  OrchestrationError, ExecutionStatus, ExecutionInspection, ExecutionInput, Formats, not_found,
  found, running, succeeded, has_failed, has_timed_out, validate, input_matches,
}
use streaming_video_app.Orchestration.Effects.{
  World, M, pure, ◌>>=◌, ◌>>◌, is_past, double, lost, cancel, until_deadline, wait_or_signal,
  inspected, started, read_status, finalized,
}
use streaming_video_app.Orchestration.Prior.{Outcome, establish_previous_bound}

pub data Attach : Type 0 where
  ready : Attach
  terminal : OrchestrationError → Attach

abbrev error_or : OrchestrationError → Option OrchestrationError → OrchestrationError
error_or other none = other
error_or other (some e) = e

-- The error of an execution that expired.
abbrev pub expiry_error : Option OrchestrationError → Bool → OrchestrationError
expiry_error last_describe_error true = OrchestrationError.timed_out
expiry_error last_describe_error false = error_or OrchestrationError.timed_out last_describe_error

-- The delay, the last error and whether the execution was seen running.
abbrev pub Again : Type 0
Again = ℕ → Option OrchestrationError → Bool → M Outcome

module _ (formats : Formats) (world : World) where
  abbrev pub attach_status : ExecutionStatus → Attach
  attach_status running = ready
  attach_status succeeded = ready
  attach_status has_failed = terminal OrchestrationError.failed
  attach_status has_timed_out = terminal OrchestrationError.timed_out

  -- What follows from the inspection, the only await of `resolve_existing`.
  unfoldable pub resolve_existing :
      ExecutionInput
      → Result OrchestrationError ExecutionInspection
      → Result OrchestrationError Attach
  unfolding input_matches
  resolve_existing input (err e) = err e
  resolve_existing input (ok not_found) =
      err (OrchestrationError.start (codes "execution was not found after an ambiguous start"))
  resolve_existing input (ok (found status input_json)) =
      if input_matches formats input input_json
      then ok (attach_status status)
      else ok (terminal (OrchestrationError.start (codes "conflicting execution input")))

  abbrev pub resolve : Text → ExecutionInput → M (Option (Result OrchestrationError Attach))
  resolve name input =
      until_deadline world (λ n. resolve_existing input (world.inspect n))
        (λ answer. inspected name)

  abbrev pub cancel_with : Text → OrchestrationError → M (Result OrchestrationError (Unit {0}))
  cancel_with name e = cancel world name >> pure (err e)

  abbrev pub last_answer :
      Option OrchestrationError
      → Option (Result OrchestrationError Attach)
      → M (Result OrchestrationError (Unit {0}))
  last_answer last_error (some (ok ready)) = pure (ok tt)
  last_answer last_error (some (ok (terminal e))) = pure (err e)
  last_answer last_error _ = pure (
      err (
        error_or (OrchestrationError.start (codes "execution start could not be resolved"))
          last_error))

  -- An inspection after a start that failed with an error.
  abbrev pub ambiguous_answer :
      Text
      → OrchestrationError
      → (Option OrchestrationError → M (Result OrchestrationError (Unit {0})))
      → Option (Result OrchestrationError Attach)
      → M (Result OrchestrationError (Unit {0}))
  ambiguous_answer name error next none = cancel_with name OrchestrationError.timed_out
  ambiguous_answer name error next (some (ok ready)) = pure (ok tt)
  ambiguous_answer name error next (some (ok (terminal e))) = pure (err e)
  ambiguous_answer name error next (some (err (OrchestrationError.describe reason))) =
      next (some (OrchestrationError.describe reason))
  ambiguous_answer name error next (some (err (OrchestrationError.start reason))) =
      next (some error)
  ambiguous_answer name error next (some (err e)) = pure (err e)

  abbrev pub start_answer :
      Text
      → ExecutionInput
      → (Option OrchestrationError → M (Result OrchestrationError (Unit {0})))
      → Option (Result OrchestrationError (Unit {0}))
      → M (Result OrchestrationError (Unit {0}))
  start_answer name input next none = cancel_with name OrchestrationError.timed_out
  start_answer name input next (some (ok u)) = pure (ok tt)
  start_answer name input next (some (err OrchestrationError.permission)) =
      pure (err OrchestrationError.permission)
  start_answer name input next (some (err e)) = resolve name input >>= ambiguous_answer name e next

  -- The attempts to start that are left.
  unfoldable pub start_from :
      ℕ
      → Text
      → ExecutionInput
      → ℕ
      → Option OrchestrationError
      → M (Result OrchestrationError (Unit {0}))
  unfolding lost cancel until_deadline resolve_existing
  start_from zero name input deadline last_error = do
    past ← is_past deadline
    if past
        then cancel_with name OrchestrationError.timed_out
        else (resolve name input >>= last_answer last_error)
  start_from (suc more) name input deadline last_error = do
    gone ← lost world
    past ← is_past deadline
    if gone
        then cancel_with name OrchestrationError.ownership_lost
        else if past
        then cancel_with name OrchestrationError.timed_out
        else (until_deadline world world.start (λ answer. started name)
            >>= start_answer name input (start_from more name input deadline))

  -- `START_RECOVERY_ATTEMPTS` is 3.
  unfoldable pub start_or_attach :
      Text → ExecutionInput → ℕ → M (Result OrchestrationError (Unit {0}))
  unfolding start_from
  start_or_attach name input deadline = start_from 3 name input deadline none

  abbrev pub return_error : Text → OrchestrationError → M Outcome
  return_error name e = cancel world name >> pure (some (err e))

  unfoldable pub expire : Text → Option OrchestrationError → Bool → M Outcome
  unfolding cancel
  expire name last_describe_error saw_running =
      return_error name (expiry_error last_describe_error saw_running)

  abbrev pub finalizer_answer : Option (Result OrchestrationError (Unit {0})) → M Outcome
  finalizer_answer none = pure (some (err OrchestrationError.timed_out))
  finalizer_answer (some result) = pure (some result)

  unfoldable pub finish : Text → ℕ → M Outcome
  unfolding lost cancel until_deadline
  finish name deadline = do
    gone ← lost world
    past ← is_past deadline
    if gone
        then return_error name OrchestrationError.ownership_lost
        else if past
        then pure (some (err OrchestrationError.timed_out))
        else (until_deadline world world.finalize (λ answer. finalized) >>= finalizer_answer)

  -- The error of a wait that follows a status read; the last error of such a read wins over a
  -- timeout while the execution was never seen running.
  abbrev pub wait_error : Option OrchestrationError → Bool → OrchestrationError → OrchestrationError
  wait_error last_describe_error saw_running OrchestrationError.timed_out =
      expiry_error last_describe_error saw_running
  wait_error last_describe_error saw_running e = e

  abbrev pub waited_answer :
      Text
      → Option OrchestrationError
      → Bool
      → M Outcome
      → Result OrchestrationError (Unit {0})
      → M Outcome
  waited_answer name last_describe_error saw_running next (ok u) = next
  waited_answer name last_describe_error saw_running next (err e) =
      return_error name (wait_error last_describe_error saw_running e)

  abbrev pub status_answer :
      Text
      → ℕ
      → ℕ
      → Option OrchestrationError
      → Bool
      → Again
      → Option (Result OrchestrationError ExecutionStatus)
      → M Outcome
  status_answer name deadline delay last_error saw again none = expire name last_error saw
  status_answer name deadline delay last_error saw again (some (ok running)) =
      wait_or_signal world delay deadline
      >>= waited_answer name none true (again (double delay) none true)
  status_answer name deadline delay last_error saw again (some (ok succeeded)) =
      finish name deadline
  status_answer name deadline delay last_error saw again (some (ok has_failed)) =
      pure (some (err OrchestrationError.failed))
  status_answer name deadline delay last_error saw again (some (ok has_timed_out)) =
      pure (some (err OrchestrationError.timed_out))
  status_answer name deadline delay last_error saw again
        (some (err (OrchestrationError.describe reason))) =
      let e = some (OrchestrationError.describe reason) in
      wait_or_signal world delay deadline >>= waited_answer name e saw (again (double delay) e saw)
  status_answer name deadline delay last_error saw again (some (err e)) = return_error name e

  -- One turn of the loop.
  unfoldable pub poll_turn : Text → ℕ → ℕ → Option OrchestrationError → Bool → Again → M Outcome
  unfolding lost cancel expire finish until_deadline wait_or_signal
  poll_turn name deadline delay last_error saw again = do
    gone ← lost world
    past ← is_past deadline
    if gone
        then return_error name OrchestrationError.ownership_lost
        else if past
        then expire name last_error saw
        else (until_deadline world world.status (read_status name)
            >>= status_answer name deadline delay last_error saw again)

  unfoldable pub poll : ℕ → Text → ℕ → Again
  unfolding poll_turn
  poll zero name deadline delay last_error saw = pure none
  poll (suc fuel) name deadline delay last_error saw =
      poll_turn name deadline delay last_error saw (poll fuel name deadline)

  abbrev pub then_poll : ℕ → Text → ℕ → ℕ → Result OrchestrationError (Unit {0}) → M Outcome
  then_poll fuel name poll_interval deadline (ok u) =
      poll fuel name deadline (max poll_interval 1) none false
  then_poll fuel name poll_interval deadline (err e) = pure (some (err e))

  abbrev pub then_start : ℕ → Text → ExecutionInput → ℕ → ℕ → Outcome → M Outcome
  then_start fuel name input poll_interval deadline (some (ok u)) =
      start_or_attach name input deadline >>= then_poll fuel name poll_interval deadline
  then_start fuel name input poll_interval deadline other = pure other

  -- A run whose input is valid.
  unfoldable pub run_valid : ℕ → AcquiredJob → ExecutionInput → ℕ → ℕ → M Outcome
  unfolding lost cancel establish_previous_bound start_or_attach poll
  run_valid fuel job input poll_interval deadline = do
    gone ← lost world
    past ← is_past deadline
    if gone
        then return_error (execution_name job.item.job_id job.attempt)
            OrchestrationError.ownership_lost
        else if past
        then pure (some (err OrchestrationError.timed_out))
        else (establish_previous_bound world fuel job poll_interval (length input.renditions)
              deadline
            >>= then_start fuel (execution_name job.item.job_id job.attempt) input poll_interval
                deadline)

  abbrev pub when_valid : M Outcome → Result OrchestrationError (Unit {0}) → M Outcome
  when_valid valid (ok u) = valid
  when_valid valid (err e) = pure (some (err e))

  unfoldable pub run : ℕ → AcquiredJob → ExecutionInput → ℕ → ℕ → M Outcome
  unfolding validate run_valid
  run fuel job input poll_interval deadline =
      when_valid (run_valid fuel job input poll_interval deadline) (validate formats input)
