-- ===== src/Sfn/Retryable.antt =====
-- The errors of the execution client that the orchestration retries (worker/src/sfn.rs).
use streaming_video_app.Prelude.{Text, ◌≡◌, refl, true, ◌⊎◌, inl, inr, Result, ok, err, ◌>>=◌}
use streaming_video_app.Orchestration.Input.{
  OrchestrationError, ExecutionInspection, permission, found, describe_is_retryable,
}
use streaming_video_app.Sfn.Arns.{SfnApiError, execution_arn}
use streaming_video_app.Sfn.Tasks.{confirm_residual_ecs_tasks}
use streaming_video_app.Sfn.Client.{
  DescribedExecution, Services, count_of, inspect_answer, status_of, residual_answer, inspect,
  status, residual_running_children,
}

-- An answer, a refusal for good, or an error after which the orchestration asks again.
abbrev pub IsRetried {ℓ} : {A : Type ℓ} → Result OrchestrationError A → Type 0
IsRetried (ok a) = Unit
IsRetried (err e) = (e ≡ permission) ⊎ (describe_is_retryable e ≡ true)

inspect_answer-IsRetried :
    (r : Result SfnApiError DescribedExecution) → IsRetried (inspect_answer r)
inspect_answer-IsRetried (ok described) = tt
inspect_answer-IsRetried (err SfnApiError.not_found) = tt
inspect_answer-IsRetried (err SfnApiError.permission) = inl refl
inspect_answer-IsRetried (err SfnApiError.already_exists) = inr refl
inspect_answer-IsRetried (err SfnApiError.unavailable) = inr refl

residual_answer-IsRetried {ℓ} :
    {A : Type ℓ} (r : Result SfnApiError A) → IsRetried (residual_answer r)
residual_answer-IsRetried (ok a) = tt
residual_answer-IsRetried (err SfnApiError.not_found) = inr refl
residual_answer-IsRetried (err SfnApiError.permission) = inl refl
residual_answer-IsRetried (err SfnApiError.already_exists) = inr refl
residual_answer-IsRetried (err SfnApiError.unavailable) = inr refl

status_of-IsRetried : (i : ExecutionInspection) → IsRetried (status_of i)
status_of-IsRetried (found s json) = tt
status_of-IsRetried ExecutionInspection.not_found = inr refl

IsRetried-bind {ℓ κ} :
    {A : Type ℓ} {B : Type κ} (m : Result OrchestrationError A)
    (f : A → Result OrchestrationError B)
    → IsRetried m
    → ((a : A) → IsRetried (f a))
    → IsRetried (m >>= f)
IsRetried-bind (ok a) f h k = k a
IsRetried-bind (err e) f h k = h

-- With a state machine whose name yields an execution's name, the status, the inspection and the
-- count of residual children are each an answer, a refusal for want of permission, or an error
-- after which the orchestration asks again.
pub client-IsRetried :
    (state_machine_arn : Text) (services : Services) (name arn : Text)
    → execution_arn state_machine_arn name ≡ ok arn
    → IsRetried (inspect state_machine_arn services name)
      × IsRetried (status state_machine_arn services name)
      × IsRetried (residual_running_children state_machine_arn services name)
unfolding inspect status residual_running_children confirm_residual_ecs_tasks count_of
client-IsRetried state_machine_arn services name arn e = rw e (
  inspect_answer-IsRetried (services.describe_execution arn),
  IsRetried-bind (inspect_answer (services.describe_execution arn)) status_of
      (inspect_answer-IsRetried (services.describe_execution arn)) status_of-IsRetried,
  IsRetried-bind (residual_answer (services.child_task_arns arn)) _
      (residual_answer-IsRetried (services.child_task_arns arn))
      (λ arns.
        residual_answer-IsRetried (confirm_residual_ecs_tasks services.describe_tasks arns).answer),
)
