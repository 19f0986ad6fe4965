-- ===== src/Orchestration/Prior.antt =====
-- The bound on the executions of earlier attempts (worker/src/orchestration.rs).
use streaming_video_app.Prelude.{
  ℕ, zero, suc, ◌-◌, Text, codes, Bool, true, false, not, ◌&&◌, Option, none, some, List, [], ◌∷◌,
  leb, if◌then◌else◌, Result, ok, err, max,
}
use streaming_video_app.Naming.{execution_name}
use streaming_video_app.Acquisition.Types.{AcquiredJob}
use streaming_video_app.Orchestration.Input.{
  OrchestrationError, ExecutionStatus, ExecutionInspection, child_bound_holds,
  describe_is_retryable, saturating_add, describe, not_found, found, running,
}
use streaming_video_app.Orchestration.Effects.{
  World, M, pure, ◌>>=◌, ◌>>◌, is_past, double, lost, cancel, until_deadline, wait_or_signal,
  inspected, counted,
}

pub data PriorObservation : Type 0 where
  residual : ℕ → PriorObservation
  pending : PriorObservation

-- `first..first + count`
abbrev pub attempts_from : ℕ → ℕ → List ℕ
attempts_from first zero = []
attempts_from first (suc count) = first ∷ attempts_from (suc first) count

abbrev pub prior_attempts : AcquiredJob → List ℕ
prior_attempts job = attempts_from 1 (job.attempt - 1)

-- A loop that ran out of fuel is `none`.
abbrev pub Outcome : Type 0
Outcome = Option (Result OrchestrationError (Unit {0}))

module _ (world : World) where
  abbrev pub stop : OrchestrationError → M (Result OrchestrationError PriorObservation)
  stop e = pure (err e)

  abbrev pub count_answer :
      Option (Result OrchestrationError ℕ) → M (Result OrchestrationError PriorObservation)
  count_answer none = stop OrchestrationError.timed_out
  count_answer (some (ok count)) = pure (ok (residual count))
  count_answer (some (err e)) = if describe_is_retryable e then pure (ok pending) else stop e

  unfoldable pub observe_found_prior_execution :
      Text → ExecutionStatus → ℕ → M (Result OrchestrationError PriorObservation)
  unfolding cancel until_deadline
  observe_found_prior_execution name running deadline = do cancel world name; pure (ok pending)
  observe_found_prior_execution name status deadline =
      until_deadline world world.residual_running_children (λ answer. counted name) >>= count_answer

  abbrev pub inspection_answer :
      Text
      → ℕ
      → M (Result OrchestrationError PriorObservation)
      → Option (Result OrchestrationError ExecutionInspection)
      → M (Result OrchestrationError PriorObservation)
  inspection_answer name deadline absent none = stop OrchestrationError.timed_out
  inspection_answer name deadline absent (some (ok not_found)) = absent
  inspection_answer name deadline absent (some (ok (found status input_json))) =
      observe_found_prior_execution name status deadline
  inspection_answer name deadline absent (some (err e)) =
      if describe_is_retryable e then pure (ok pending) else stop e

  -- One turn of the loop, with what it does where the execution was not found.
  unfoldable pub observe_turn :
      Text
      → ℕ
      → M (Result OrchestrationError PriorObservation)
      → M (Result OrchestrationError PriorObservation)
  unfolding lost until_deadline observe_found_prior_execution
  observe_turn name deadline absent = do
    gone ← lost world
    past ← is_past deadline
    if gone
        then stop OrchestrationError.ownership_lost
        else if past
        then stop OrchestrationError.timed_out
        else (until_deadline world world.inspect (λ answer. inspected name)
            >>= inspection_answer name deadline absent)

  abbrev pub waited_for :
      M (Result OrchestrationError PriorObservation)
      → Result OrchestrationError (Unit {0})
      → M (Result OrchestrationError PriorObservation)
  waited_for next (ok u) = next
  waited_for next (err e) = stop e

  -- The loop, with the confirmations of absence that are wanted after the next one.
  unfoldable pub observe_from : ℕ → Text → ℕ → ℕ → M (Result OrchestrationError PriorObservation)
  unfolding observe_turn wait_or_signal
  observe_from zero name deadline delay = observe_turn name deadline (pure (ok (residual 0)))
  observe_from (suc more) name deadline delay = observe_turn name deadline (
      wait_or_signal world delay deadline
      >>= waited_for (observe_from more name deadline (double delay)))

  -- `NOT_FOUND_CONFIRMATIONS` is 3.
  unfoldable pub observe_prior_execution :
      ℕ → Text → ℕ → M (Result OrchestrationError PriorObservation)
  unfolding observe_from
  observe_prior_execution poll_interval name deadline =
      observe_from 2 name deadline (max poll_interval 1)

  unfoldable pub cancel_attempts : Text → List ℕ → M (Unit {0})
  unfolding cancel
  cancel_attempts job_id [] = pure tt
  cancel_attempts job_id (attempt ∷ attempts) = do
    cancel world (execution_name job_id attempt)
    cancel_attempts job_id attempts

  abbrev pub cancel_prior_attempts : AcquiredJob → M (Unit {0})
  cancel_prior_attempts job = cancel_attempts job.item.job_id (prior_attempts job)

  unfoldable pub fail_previous_bound : AcquiredJob → M OrchestrationError
  unfolding cancel_attempts
  fail_previous_bound job = do
    cancel_prior_attempts job
    pure (describe (codes "previous execution bound not established"))

  -- An error that is not a timeout is returned after the cancellations.
  abbrev pub give_up :
      {A : Type 0} → AcquiredJob → OrchestrationError → M (Result OrchestrationError A)
  give_up job OrchestrationError.timed_out = fail_previous_bound job >>= λ e. pure (err e)
  give_up job e = cancel_prior_attempts job >> pure (err e)

  abbrev pub attempt_answer :
      {A : Type 0}
      → AcquiredJob
      → (ℕ → M (Result OrchestrationError A))
      → M (Result OrchestrationError A)
      → Result OrchestrationError PriorObservation
      → M (Result OrchestrationError A)
  attempt_answer job with_residual while_pending (ok (residual n)) = with_residual n
  attempt_answer job with_residual while_pending (ok pending) = while_pending
  attempt_answer job with_residual while_pending (err e) = give_up job e

  -- The attempts that are left, with the children counted so far.
  unfoldable pub observe_attempts :
      AcquiredJob → ℕ → ℕ → List ℕ → ℕ → Bool → M (Result OrchestrationError (ℕ × Bool))
  unfolding observe_prior_execution fail_previous_bound cancel_attempts
  observe_attempts job poll_interval deadline [] count is_pending = pure (ok (count, is_pending))
  observe_attempts job poll_interval deadline (attempt ∷ attempts) count is_pending =
      observe_prior_execution poll_interval (execution_name job.item.job_id attempt) deadline
      >>= attempt_answer job
          (λ n.
            observe_attempts job poll_interval deadline attempts (saturating_add count n)
              is_pending)
          (observe_attempts job poll_interval deadline attempts count true)

  abbrev pub bound_wait_answer :
      AcquiredJob → Result OrchestrationError (Unit {0}) → M (Result OrchestrationError (Unit {0}))
  bound_wait_answer job (ok u) = pure (ok tt)
  bound_wait_answer job (err e) = give_up job e

  unfoldable pub wait_for_previous_bound :
      AcquiredJob → ℕ → ℕ → M (Result OrchestrationError (Unit {0}))
  unfolding wait_or_signal fail_previous_bound cancel_attempts
  wait_for_previous_bound job delay deadline =
      wait_or_signal world delay deadline >>= bound_wait_answer job

  abbrev pub continue_after : M Outcome → Result OrchestrationError (Unit {0}) → M Outcome
  continue_after next (ok u) = next
  continue_after next (err e) = pure (some (err e))

  abbrev pub bound_answer :
      AcquiredJob → ℕ → ℕ → ℕ → M Outcome → Result OrchestrationError (ℕ × Bool) → M Outcome
  bound_answer job planned deadline delay next (err e) = pure (some (err e))
  bound_answer job planned deadline delay next (ok (count, is_pending)) =
      if not is_pending && child_bound_holds count planned
      then pure (some (ok tt))
      else (wait_for_previous_bound job delay deadline >>= continue_after next)

  -- One turn of the loop.
  unfoldable pub bound_turn : AcquiredJob → ℕ → ℕ → ℕ → ℕ → M Outcome → M Outcome
  unfolding lost observe_attempts wait_for_previous_bound fail_previous_bound cancel_attempts
  bound_turn job poll_interval planned deadline delay next = do
    gone ← lost world
    past ← is_past deadline
    if gone
        then (give_up job OrchestrationError.ownership_lost >>= λ r. pure (some r))
        else if past
        then (fail_previous_bound job >>= λ e. pure (some (err e)))
        else (observe_attempts job poll_interval deadline (prior_attempts job) 0 false
            >>= bound_answer job planned deadline delay next)

  unfoldable pub bound_loop : ℕ → AcquiredJob → ℕ → ℕ → ℕ → ℕ → M Outcome
  unfolding bound_turn
  bound_loop zero job poll_interval planned deadline delay = pure none
  bound_loop (suc fuel) job poll_interval planned deadline delay =
      bound_turn job poll_interval planned deadline delay
        (bound_loop fuel job poll_interval planned deadline (double delay))

  unfoldable pub establish_previous_bound : ℕ → AcquiredJob → ℕ → ℕ → ℕ → M Outcome
  unfolding bound_loop
  establish_previous_bound fuel job poll_interval planned deadline =
      if leb job.attempt 1
      then pure (some (ok tt))
      else bound_loop fuel job poll_interval planned deadline (max poll_interval 1)
