-- ===== src/Orchestration/Keeps.antt =====
-- Properties of the state that the steps of a run (worker/src/orchestration.rs) keep.
use streaming_video_app.Prelude.{
  ℕ, zero, suc, Text, codes, ◌≡◌, refl, Bool, true, false, Option, none, some, List, [], ◌∷◌,
  if◌then◌else◌, Result, ok, err,
}
use streaming_video_app.Acquisition.Types.{AcquiredJob}
use streaming_video_app.Naming.{execution_name}
use streaming_video_app.Orchestration.Input.{
  OrchestrationError, ExecutionStatus, ExecutionInspection, describe_is_retryable, not_found, found,
  running, succeeded, has_failed, has_timed_out,
}
use streaming_video_app.Orchestration.Effects.{
  Call, finalized, World, State, M, pure, ◌>>=◌, is_past, double, lost, cancel, until_deadline,
  sleep, wait_or_signal, woken_up, after, inspected, counted,
}
use streaming_video_app.Orchestration.Prior.{
  PriorObservation, residual, pending, count_answer, observe_found_prior_execution,
  inspection_answer, observe_turn, waited_for, observe_from, observe_prior_execution,
  cancel_attempts, cancel_prior_attempts, fail_previous_bound, give_up, attempt_answer,
  bound_wait_answer, observe_attempts, wait_for_previous_bound, prior_attempts,
}

pub record Keeps {A : Type 0} (P : State → Type 0) (m : M A) : Type 0 where
  pub at : (s : State) → P s → P (m s).1

abbrev pub is_finalized : Call → Bool
is_finalized finalized = true
is_finalized _ = false

-- Every call but the finalizer's keeps the property.
pub record IsKept (world : World) (P : State → Type 0) : Type 0 where
  pub keeps_lost : (s : State) → P s → P (lost world s).1
  pub keeps_call :
      (call : Call) → is_finalized call ≡ false → (s : State) → P s → P (after world call s)

module _ (P : State → Type 0) where
  pub Keeps-pure : {A : Type 0} (a : A) → Keeps P (pure a)
  Keeps-pure a = record { at = λ s h. h }

  pub Keeps-bind :
      {A B : Type 0} (m : M A) (f : A → M B)
      → Keeps P m
      → ((a : A) → Keeps P (f a))
      → Keeps P (m >>= f)
  Keeps-bind m f hm hf = record { at = λ s h. (hf (m s).0).at (m s).1 (hm.at s h) }

  pub Keeps-if :
      {A : Type 0} (b : Bool) (x y : M A) → Keeps P x → Keeps P y → Keeps P (if b then x else y)
  Keeps-if true x y hx hy = hx
  Keeps-if false x y hx hy = hy

  pub Keeps-is_past : (deadline : ℕ) → Keeps P (is_past deadline)
  Keeps-is_past deadline = record { at = λ s h. h }

module _ (world : World) (P : State → Type 0) (kept : IsKept world P) where
  pub lost-Keeps : Keeps P (lost world)
  lost-Keeps = record { at = kept.keeps_lost }

  pub cancel-Keeps : (name : Text) → Keeps P (cancel world name)
  unfolding cancel
  cancel-Keeps name = record { at = kept.keeps_call _ refl }

  pub until_deadline-Keeps :
      {A : Type 0} (answer : ℕ → A) (call : Option A → Call)
      → ((a : Option A) → is_finalized (call a) ≡ false)
      → Keeps P (until_deadline world answer call)
  unfolding until_deadline
  until_deadline-Keeps answer call h = record { at = λ s. kept.keeps_call _ (h _) s }

  sleep-Keeps : (delay deadline : ℕ) → Keeps P (sleep world delay deadline)
  unfolding sleep
  sleep-Keeps delay deadline = record { at = λ s. kept.keeps_call _ refl s }

  -- A test of the watches and of the clock, then one of three actions.
  pub checks-Keeps :
      {A : Type 0} (deadline : ℕ) (x y z : M A)
      → Keeps P x
      → Keeps P y
      → Keeps P z
      → Keeps P (
          lost world >>= λ gone.
          is_past deadline >>= λ past. if gone then x else (if past then y else z))
  checks-Keeps deadline x y z hx hy hz = Keeps-bind P (lost world) _ lost-Keeps λ gone.
      Keeps-bind P (is_past deadline) _ (Keeps-is_past P deadline)
        λ past. Keeps-if P gone x _ hx (Keeps-if P past y z hy hz)

  woken_up-Keeps : (deadline : ℕ) (woken : Option Bool) → Keeps P (woken_up world deadline woken)
  woken_up-Keeps deadline (some true) = Keeps-pure P _
  woken_up-Keeps deadline (some false) =
      checks-Keeps deadline _ _ _ (Keeps-pure P _) (Keeps-pure P _) (Keeps-pure P _)
  woken_up-Keeps deadline none =
      checks-Keeps deadline _ _ _ (Keeps-pure P _) (Keeps-pure P _) (Keeps-pure P _)

  pub wait_or_signal-Keeps : (delay deadline : ℕ) → Keeps P (wait_or_signal world delay deadline)
  unfolding wait_or_signal
  wait_or_signal-Keeps delay deadline =
      checks-Keeps deadline _ _ _ (Keeps-pure P _) (Keeps-pure P _) (
        Keeps-bind P (sleep world delay deadline) _ (sleep-Keeps delay deadline)
          (woken_up-Keeps deadline))

  count_answer-Keeps :
      (answer : Option (Result OrchestrationError ℕ)) → Keeps P (count_answer world answer)
  count_answer-Keeps none = Keeps-pure P _
  count_answer-Keeps (some (ok count)) = Keeps-pure P _
  count_answer-Keeps (some (err e)) =
      Keeps-if P (describe_is_retryable e) _ _ (Keeps-pure P _) (Keeps-pure P _)

  found-Keeps :
      (name : Text) (status : ExecutionStatus) (deadline : ℕ)
      → Keeps P (observe_found_prior_execution world name status deadline)
  unfolding observe_found_prior_execution
  found-Keeps name running deadline =
      Keeps-bind P (cancel world name) _ (cancel-Keeps name) λ u. Keeps-pure P (ok pending)
  found-Keeps name succeeded deadline =
      Keeps-bind P (until_deadline world world.residual_running_children (λ a. counted name)) _
        (until_deadline-Keeps _ (λ a. counted name) λ a. refl) count_answer-Keeps
  found-Keeps name has_failed deadline =
      Keeps-bind P (until_deadline world world.residual_running_children (λ a. counted name)) _
        (until_deadline-Keeps _ (λ a. counted name) λ a. refl) count_answer-Keeps
  found-Keeps name has_timed_out deadline =
      Keeps-bind P (until_deadline world world.residual_running_children (λ a. counted name)) _
        (until_deadline-Keeps _ (λ a. counted name) λ a. refl) count_answer-Keeps

  inspection_answer-Keeps :
      (name : Text) (deadline : ℕ) (absent : M (Result OrchestrationError PriorObservation))
      → Keeps P absent
      → (answer : Option (Result OrchestrationError ExecutionInspection))
      → Keeps P (inspection_answer world name deadline absent answer)
  inspection_answer-Keeps name deadline absent h none = Keeps-pure P _
  inspection_answer-Keeps name deadline absent h (some (ok not_found)) = h
  inspection_answer-Keeps name deadline absent h (some (ok (found status input_json))) =
      found-Keeps name status deadline
  inspection_answer-Keeps name deadline absent h (some (err e)) =
      Keeps-if P (describe_is_retryable e) _ _ (Keeps-pure P _) (Keeps-pure P _)

  observe_turn-Keeps :
      (name : Text) (deadline : ℕ) (absent : M (Result OrchestrationError PriorObservation))
      → Keeps P absent
      → Keeps P (observe_turn world name deadline absent)
  unfolding observe_turn
  observe_turn-Keeps name deadline absent h =
      checks-Keeps deadline _ _ _ (Keeps-pure P _) (Keeps-pure P _) (
        Keeps-bind P (until_deadline world world.inspect (λ a. inspected name)) _
          (until_deadline-Keeps _ (λ a. inspected name) λ a. refl)
          (inspection_answer-Keeps name deadline absent h))

  waited_for-Keeps :
      (next : M (Result OrchestrationError PriorObservation))
      → Keeps P next
      → (answer : Result OrchestrationError (Unit {0})) → Keeps P (waited_for world next answer)
  waited_for-Keeps next h (ok u) = h
  waited_for-Keeps next h (err e) = Keeps-pure P _

  observe_from-Keeps :
      (more : ℕ) (name : Text) (deadline delay : ℕ)
      → Keeps P (observe_from world more name deadline delay)
  unfolding observe_from
  observe_from-Keeps zero name deadline delay = observe_turn-Keeps name deadline _ (Keeps-pure P _)
  observe_from-Keeps (suc more) name deadline delay = observe_turn-Keeps name deadline _ (
      Keeps-bind P (wait_or_signal world delay deadline) _ (wait_or_signal-Keeps delay deadline)
        (waited_for-Keeps _ (observe_from-Keeps more name deadline (double delay))))

  cancel_attempts-Keeps :
      (job_id : Text) (attempts : List ℕ) → Keeps P (cancel_attempts world job_id attempts)
  unfolding cancel_attempts
  cancel_attempts-Keeps job_id [] = Keeps-pure P _
  cancel_attempts-Keeps job_id (attempt ∷ attempts) =
      Keeps-bind P (cancel world (execution_name job_id attempt)) _
        (cancel-Keeps (execution_name job_id attempt)) λ u. cancel_attempts-Keeps job_id attempts

  pub fail_previous_bound-Keeps : (job : AcquiredJob) → Keeps P (fail_previous_bound world job)
  unfolding fail_previous_bound
  fail_previous_bound-Keeps job =
      Keeps-bind P (cancel_prior_attempts world job) _
        (cancel_attempts-Keeps job.item.job_id (prior_attempts job))
        λ u.
          Keeps-pure P
            (OrchestrationError.describe (codes "previous execution bound not established"))

  cancelled-Keeps :
      {A : Type 0} (job : AcquiredJob) (a : A)
      → Keeps P (cancel_prior_attempts world job >>= λ u. pure a)
  cancelled-Keeps job a =
      Keeps-bind P (cancel_prior_attempts world job) _
        (cancel_attempts-Keeps job.item.job_id (prior_attempts job)) λ u. Keeps-pure P a

  pub give_up-Keeps :
      {A : Type 0} (job : AcquiredJob) (e : OrchestrationError)
      → Keeps P (give_up world {A = A} job e)
  give_up-Keeps job OrchestrationError.timed_out =
      Keeps-bind P (fail_previous_bound world job) _ (fail_previous_bound-Keeps job)
        λ e. Keeps-pure P (err e)
  give_up-Keeps job OrchestrationError.permission = cancelled-Keeps job _
  give_up-Keeps job OrchestrationError.failed = cancelled-Keeps job _
  give_up-Keeps job OrchestrationError.ownership_lost = cancelled-Keeps job _
  give_up-Keeps job (OrchestrationError.start reason) = cancelled-Keeps job _
  give_up-Keeps job (OrchestrationError.describe reason) = cancelled-Keeps job _
  give_up-Keeps job (OrchestrationError.finalizer reason) = cancelled-Keeps job _

  attempt_answer-Keeps :
      {A : Type 0} (job : AcquiredJob) (with_residual : ℕ → M (Result OrchestrationError A))
      (while_pending : M (Result OrchestrationError A))
      → ((n : ℕ) → Keeps P (with_residual n))
      → Keeps P while_pending
      → (answer : Result OrchestrationError PriorObservation)
      → Keeps P (attempt_answer world job with_residual while_pending answer)
  attempt_answer-Keeps job f p hf hp (ok (residual n)) = hf n
  attempt_answer-Keeps job f p hf hp (ok pending) = hp
  attempt_answer-Keeps job f p hf hp (err e) = give_up-Keeps job e

  pub observe_attempts-Keeps :
      (job : AcquiredJob) (poll_interval deadline : ℕ) (attempts : List ℕ) (count : ℕ)
      (is_pending : Bool)
      → Keeps P (observe_attempts world job poll_interval deadline attempts count is_pending)
  unfolding observe_attempts observe_prior_execution
  observe_attempts-Keeps job poll_interval deadline [] count is_pending = Keeps-pure P _
  observe_attempts-Keeps job poll_interval deadline (attempt ∷ attempts) count is_pending =
      Keeps-bind P
        (observe_prior_execution world poll_interval (execution_name job.item.job_id attempt)
          deadline)
        _ (observe_from-Keeps 2 _ deadline _)
        (attempt_answer-Keeps job _ _
          (λ n. observe_attempts-Keeps job poll_interval deadline attempts _ is_pending)
          (observe_attempts-Keeps job poll_interval deadline attempts count true))

  bound_wait_answer-Keeps :
      (job : AcquiredJob) (answer : Result OrchestrationError (Unit {0}))
      → Keeps P (bound_wait_answer world job answer)
  bound_wait_answer-Keeps job (ok u) = Keeps-pure P (ok tt)
  bound_wait_answer-Keeps job (err e) = give_up-Keeps job e

  pub wait_for_previous_bound-Keeps :
      (job : AcquiredJob) (delay deadline : ℕ)
      → Keeps P (wait_for_previous_bound world job delay deadline)
  unfolding wait_for_previous_bound
  wait_for_previous_bound-Keeps job delay deadline =
      Keeps-bind P (wait_or_signal world delay deadline) _ (wait_or_signal-Keeps delay deadline)
        (bound_wait_answer-Keeps job)
