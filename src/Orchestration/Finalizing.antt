-- ===== src/Orchestration/Finalizing.antt =====
-- When a run (worker/src/orchestration.rs) calls the finalizer.
use streaming_video_app.Prelude.{
  ℕ, zero, suc, Text, refl, Bool, false, not, ◌&&◌, Option, none, some, Result, ok, err, leb,
  length,
}
use streaming_video_app.Acquisition.Types.{AcquiredJob}
use streaming_video_app.Naming.{execution_name}
use streaming_video_app.Orchestration.Input.{
  OrchestrationError, ExecutionInput, Formats, child_bound_holds, validate,
}
use streaming_video_app.Orchestration.Effects.{
  started, inspected, World, State, M, ◌>>=◌, is_past, double, until_deadline,
}
use streaming_video_app.Orchestration.Prior.{
  Outcome, observe_attempts, prior_attempts, wait_for_previous_bound, bound_answer, bound_turn,
  bound_loop, establish_previous_bound, continue_after, fail_previous_bound, give_up,
}
use streaming_video_app.Orchestration.Run.{
  Attach, ready, terminal, run_valid, run, start_from, start_or_attach, then_poll, then_start,
  when_valid, resolve, last_answer, ambiguous_answer, start_answer,
}
use streaming_video_app.Orchestration.Keeps.{
  Keeps, Keeps-pure, Keeps-bind, Keeps-if, Keeps-is_past, until_deadline-Keeps, checks-Keeps,
  observe_attempts-Keeps, wait_for_previous_bound-Keeps, fail_previous_bound-Keeps, give_up-Keeps,
}
use streaming_video_app.Orchestration.Order.{
  IsFinalizedAfterSuccess, Ordered, finalizing_kept, return_error-Keeps, cancel_with-Keeps,
  poll-Keeps,
}

module _ (formats : Formats) (world : World) (name : Text) where
  last_answer-Keeps :
      (e : Option OrchestrationError) (o : Option (Result OrchestrationError Attach))
      → Keeps (Ordered name) (last_answer formats world e o)
  last_answer-Keeps e none = Keeps-pure (Ordered name) _
  last_answer-Keeps e (some (ok ready)) = Keeps-pure (Ordered name) _
  last_answer-Keeps e (some (ok (terminal t))) = Keeps-pure (Ordered name) _
  last_answer-Keeps e (some (err t)) = Keeps-pure (Ordered name) _

  ambiguous_answer-Keeps :
      (e : OrchestrationError)
      (next : Option OrchestrationError → M (Result OrchestrationError (Unit {0})))
      → ((last : Option OrchestrationError) → Keeps (Ordered name) (next last))
      → (other : Text) (o : Option (Result OrchestrationError Attach))
      → Keeps (Ordered name) (ambiguous_answer formats world other e next o)
  ambiguous_answer-Keeps e next h other none = cancel_with-Keeps formats world name other _
  ambiguous_answer-Keeps e next h other (some (ok ready)) = Keeps-pure (Ordered name) _
  ambiguous_answer-Keeps e next h other (some (ok (terminal t))) = Keeps-pure (Ordered name) _
  ambiguous_answer-Keeps e next h other (some (err (OrchestrationError.describe reason))) = h _
  ambiguous_answer-Keeps e next h other (some (err (OrchestrationError.start reason))) = h _
  ambiguous_answer-Keeps e next h other (some (err OrchestrationError.permission)) =
      Keeps-pure (Ordered name) _
  ambiguous_answer-Keeps e next h other (some (err OrchestrationError.failed)) =
      Keeps-pure (Ordered name) _
  ambiguous_answer-Keeps e next h other (some (err OrchestrationError.timed_out)) =
      Keeps-pure (Ordered name) _
  ambiguous_answer-Keeps e next h other (some (err OrchestrationError.ownership_lost)) =
      Keeps-pure (Ordered name) _
  ambiguous_answer-Keeps e next h other (some (err (OrchestrationError.finalizer reason))) =
      Keeps-pure (Ordered name) _

  resolve-Keeps :
      (other : Text) (input : ExecutionInput)
      → Keeps (Ordered name) (resolve formats world other input)
  resolve-Keeps other input =
      until_deadline-Keeps world _ (finalizing_kept formats world name) _ (λ a. inspected other)
        λ a. refl

  ambiguous-Keeps :
      (other : Text) (input : ExecutionInput) (e : OrchestrationError)
      (next : Option OrchestrationError → M (Result OrchestrationError (Unit {0})))
      → ((last : Option OrchestrationError) → Keeps (Ordered name) (next last))
      → Keeps
          (Ordered name)
          (resolve formats world other input >>= ambiguous_answer formats world other e next)
  ambiguous-Keeps other input e next h =
      Keeps-bind (Ordered name) (resolve formats world other input) _ (resolve-Keeps other input)
        (ambiguous_answer-Keeps e next h other)

  start_answer-Keeps :
      (other : Text) (input : ExecutionInput)
      (next : Option OrchestrationError → M (Result OrchestrationError (Unit {0})))
      → ((last : Option OrchestrationError) → Keeps (Ordered name) (next last))
      → (o : Option (Result OrchestrationError (Unit {0})))
      → Keeps (Ordered name) (start_answer formats world other input next o)
  start_answer-Keeps other input next h none = cancel_with-Keeps formats world name other _
  start_answer-Keeps other input next h (some (ok u)) = Keeps-pure (Ordered name) _
  start_answer-Keeps other input next h (some (err OrchestrationError.permission)) =
      Keeps-pure (Ordered name) _
  start_answer-Keeps other input next h (some (err OrchestrationError.failed)) =
      ambiguous-Keeps other input _ next h
  start_answer-Keeps other input next h (some (err OrchestrationError.timed_out)) =
      ambiguous-Keeps other input _ next h
  start_answer-Keeps other input next h (some (err OrchestrationError.ownership_lost)) =
      ambiguous-Keeps other input _ next h
  start_answer-Keeps other input next h (some (err (OrchestrationError.start reason))) =
      ambiguous-Keeps other input _ next h
  start_answer-Keeps other input next h (some (err (OrchestrationError.describe reason))) =
      ambiguous-Keeps other input _ next h
  start_answer-Keeps other input next h (some (err (OrchestrationError.finalizer reason))) =
      ambiguous-Keeps other input _ next h

  start_from-Keeps :
      (more : ℕ) (other : Text) (input : ExecutionInput) (deadline : ℕ)
      (last : Option OrchestrationError)
      → Keeps (Ordered name) (start_from formats world more other input deadline last)
  unfolding start_from
  start_from-Keeps zero other input deadline last =
      Keeps-bind (Ordered name) (is_past deadline) _ (Keeps-is_past (Ordered name) deadline) λ past.
        Keeps-if (Ordered name) past _ _
          (cancel_with-Keeps formats world name other OrchestrationError.timed_out)
          (Keeps-bind (Ordered name) (resolve formats world other input) _
            (resolve-Keeps other input) (last_answer-Keeps last))
  start_from-Keeps (suc more) other input deadline last =
      checks-Keeps world _ (finalizing_kept formats world name) deadline _ _ _
        (cancel_with-Keeps formats world name other _)
        (cancel_with-Keeps formats world name other _)
        (Keeps-bind (Ordered name) (until_deadline world world.start (λ a. started other)) _
          (until_deadline-Keeps world _ (finalizing_kept formats world name) _ (λ a. started other)
            λ a. refl)
          (start_answer-Keeps other input _ λ e. start_from-Keeps more other input deadline e))

  continue_after-Keeps :
      (next : M Outcome)
      → Keeps (Ordered name) next
      → (r : Result OrchestrationError (Unit {0}))
      → Keeps (Ordered name) (continue_after world next r)
  continue_after-Keeps next h (ok u) = h
  continue_after-Keeps next h (err e) = Keeps-pure (Ordered name) _

  bound_answer-Keeps :
      (job : AcquiredJob) (planned deadline delay : ℕ) (next : M Outcome)
      → Keeps (Ordered name) next
      → (r : Result OrchestrationError (ℕ × Bool))
      → Keeps (Ordered name) (bound_answer world job planned deadline delay next r)
  bound_answer-Keeps job planned deadline delay next h (err e) = Keeps-pure (Ordered name) _
  bound_answer-Keeps job planned deadline delay next h (ok (count, is_pending)) =
      Keeps-if (Ordered name) (not is_pending && child_bound_holds count planned) _ _
        (Keeps-pure (Ordered name) _)
        (Keeps-bind (Ordered name) (wait_for_previous_bound world job delay deadline) _
          (wait_for_previous_bound-Keeps world _ (finalizing_kept formats world name) job delay
            deadline)
          (continue_after-Keeps next h))

  bound_loop-Keeps :
      (fuel : ℕ) (job : AcquiredJob) (poll_interval planned deadline delay : ℕ)
      → Keeps (Ordered name) (bound_loop world fuel job poll_interval planned deadline delay)
  unfolding bound_loop bound_turn
  bound_loop-Keeps zero job poll_interval planned deadline delay = Keeps-pure (Ordered name) _
  bound_loop-Keeps (suc fuel) job poll_interval planned deadline delay =
      checks-Keeps world _ (finalizing_kept formats world name) deadline _ _ _
        (Keeps-bind (Ordered name) (give_up world job OrchestrationError.ownership_lost) _
          (give_up-Keeps world _ (finalizing_kept formats world name) job
            OrchestrationError.ownership_lost)
          λ r. Keeps-pure (Ordered name) (some r))
        (Keeps-bind (Ordered name) (fail_previous_bound world job) _
          (fail_previous_bound-Keeps world _ (finalizing_kept formats world name) job)
          λ e. Keeps-pure (Ordered name) (some (err e)))
        (Keeps-bind (Ordered name)
          (observe_attempts world job poll_interval deadline (prior_attempts job) 0 false) _
          (observe_attempts-Keeps world _ (finalizing_kept formats world name) job poll_interval
            deadline (prior_attempts job) 0 false)
          (bound_answer-Keeps job planned deadline delay _
            (bound_loop-Keeps fuel job poll_interval planned deadline (double delay))))

  establish-Keeps :
      (fuel : ℕ) (job : AcquiredJob) (poll_interval planned deadline : ℕ)
      → Keeps
          (Ordered name)
          (establish_previous_bound world fuel job poll_interval planned deadline)
  unfolding establish_previous_bound
  establish-Keeps fuel job poll_interval planned deadline =
      Keeps-if (Ordered name) (leb job.attempt 1) _ _ (Keeps-pure (Ordered name) _)
        (bound_loop-Keeps fuel job poll_interval planned deadline _)

  then_poll-Keeps :
      (fuel poll_interval deadline : ℕ) (r : Result OrchestrationError (Unit {0}))
      → Keeps (Ordered name) (then_poll formats world fuel name poll_interval deadline r)
  then_poll-Keeps fuel poll_interval deadline (ok u) =
      poll-Keeps formats world name fuel deadline _ none false
  then_poll-Keeps fuel poll_interval deadline (err e) = Keeps-pure (Ordered name) _

  then_start-Keeps :
      (fuel : ℕ) (input : ExecutionInput) (poll_interval deadline : ℕ) (o : Outcome)
      → Keeps (Ordered name) (then_start formats world fuel name input poll_interval deadline o)
  unfolding start_or_attach
  then_start-Keeps fuel input poll_interval deadline none = Keeps-pure (Ordered name) _
  then_start-Keeps fuel input poll_interval deadline (some (err e)) = Keeps-pure (Ordered name) _
  then_start-Keeps fuel input poll_interval deadline (some (ok u)) =
      Keeps-bind (Ordered name) (start_or_attach formats world name input deadline) _
        (start_from-Keeps 3 name input deadline none) (then_poll-Keeps fuel poll_interval deadline)

module _ (formats : Formats) (world : World) (job : AcquiredJob) where
  abbrev name : Text
  name = execution_name job.item.job_id job.attempt

  run_valid-Keeps :
      (fuel : ℕ) (input : ExecutionInput) (poll_interval deadline : ℕ)
      → Keeps (Ordered name) (run_valid formats world fuel job input poll_interval deadline)
  unfolding run_valid
  run_valid-Keeps fuel input poll_interval deadline =
      checks-Keeps world _ (finalizing_kept formats world name) deadline _ _ _
        (return_error-Keeps formats world name name _) (Keeps-pure (Ordered name) _)
        (Keeps-bind (Ordered name)
          (establish_previous_bound world fuel job poll_interval (length input.renditions) deadline)
          _ (establish-Keeps formats world name fuel job poll_interval _ deadline)
          (then_start-Keeps formats world name fuel input poll_interval deadline))

  when_valid-Keeps :
      (valid : M Outcome)
      → Keeps (Ordered name) valid
      → (r : Result OrchestrationError (Unit {0}))
      → Keeps (Ordered name) (when_valid formats world valid r)
  when_valid-Keeps valid h (ok u) = h
  when_valid-Keeps valid h (err e) = Keeps-pure (Ordered name) _

  -- However a run ends, and with any fuel, it called the finalizer only directly after it found the
  -- job owned, and that directly after it read that the job's own execution had succeeded, if the
  -- calls before the run were so ordered.
  pub run-IsFinalizedAfterSuccess :
      (fuel : ℕ) (input : ExecutionInput) (poll_interval deadline : ℕ) (s : State)
      → IsFinalizedAfterSuccess name s.log
      → IsFinalizedAfterSuccess name
          (run formats world fuel job input poll_interval deadline s).1.log
  unfolding run
  run-IsFinalizedAfterSuccess fuel input poll_interval deadline s h =
      (when_valid-Keeps _ (run_valid-Keeps fuel input poll_interval deadline)
          (validate formats input)).at
        s h
