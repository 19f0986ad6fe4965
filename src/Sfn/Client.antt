-- ===== src/Sfn/Client.antt =====
-- The execution client of the orchestration, over the service's answers (worker/src/sfn.rs).
use streaming_video_app.Prelude.{ℕ, Text, codes, List, [], ◌∷◌, Result, ok, err, ◌>>=◌}
use streaming_video_app.Orchestration.Input.{
  OrchestrationError, ExecutionStatus, ExecutionInspection, permission, start, describe, found,
}
use streaming_video_app.Sfn.Arns.{SfnApiError, execution_arn}
use streaming_video_app.Sfn.Tasks.{DescribedTasks, confirm_residual_ecs_tasks}

pub record DescribedExecution : Type 0 where
  pub status : ExecutionStatus
  pub input_json : Text

abbrev pub residual_message : Text
residual_message = codes "residual children could not be inspected"

abbrev pub start_answer : Result SfnApiError (Unit {0}) → Result OrchestrationError (Unit {0})
start_answer (ok done) = ok tt
start_answer (err SfnApiError.already_exists) = err (start (codes "already exists"))
start_answer (err SfnApiError.permission) = err permission
start_answer (err SfnApiError.not_found) = err (start (codes "unavailable"))
start_answer (err SfnApiError.unavailable) = err (start (codes "unavailable"))

abbrev pub inspect_answer :
    Result SfnApiError DescribedExecution → Result OrchestrationError ExecutionInspection
inspect_answer (ok described) = ok (found described.status described.input_json)
inspect_answer (err SfnApiError.not_found) = ok ExecutionInspection.not_found
inspect_answer (err SfnApiError.permission) = err permission
inspect_answer (err SfnApiError.already_exists) = err (describe (codes "unavailable"))
inspect_answer (err SfnApiError.unavailable) = err (describe (codes "unavailable"))

abbrev pub residual_error : SfnApiError → OrchestrationError
residual_error SfnApiError.permission = permission
residual_error SfnApiError.already_exists = describe residual_message
residual_error SfnApiError.not_found = describe residual_message
residual_error SfnApiError.unavailable = describe residual_message

abbrev pub residual_answer {ℓ} : {A : Type ℓ} → Result SfnApiError A → Result OrchestrationError A
residual_answer (ok a) = ok a
residual_answer (err e) = err (residual_error e)

abbrev pub status_of : ExecutionInspection → Result OrchestrationError ExecutionStatus
status_of (found status input_json) = ok status
status_of ExecutionInspection.not_found = err (describe (codes "execution was not found"))

-- The services: a payload, the answers by name, and what the history names.
pub record Services : Type 0 where
  pub start_execution : Text → Text → Text → Result SfnApiError (Unit {0})
  pub describe_execution : Text → Result SfnApiError DescribedExecution
  pub child_task_arns : Text → Result SfnApiError (List Text)
  pub describe_tasks : Text → List Text → Result SfnApiError DescribedTasks

module _ (state_machine_arn : Text) (services : Services) where
  open services use {start_execution, describe_execution, child_task_arns, describe_tasks}

  -- With the payload, or why there is none.
  unfoldable pub start_named :
      Text → Result OrchestrationError Text → Result OrchestrationError (Unit {0})
  start_named name payload_json = do
    payload ← payload_json
    start_answer (start_execution state_machine_arn name payload)

  unfoldable pub inspect : Text → Result OrchestrationError ExecutionInspection
  unfolding execution_arn
  inspect name = do
    arn ← execution_arn state_machine_arn name
    inspect_answer (describe_execution arn)

  unfoldable pub status : Text → Result OrchestrationError ExecutionStatus
  unfolding inspect
  status name = do inspection ← inspect name; status_of inspection

  -- The executions that it asks to stop.
  unfoldable pub cancel : Text → List Text
  unfolding execution_arn
  cancel name = elim (execution_arn state_machine_arn name) [ ok arn ↦ arn ∷ [] | err e ↦ [] ]

  unfoldable pub count_of : Text → Result OrchestrationError ℕ
  unfolding confirm_residual_ecs_tasks
  count_of arn = do
    arns ← residual_answer (child_task_arns arn)
    residual_answer (confirm_residual_ecs_tasks describe_tasks arns).answer

  unfoldable pub residual_running_children : Text → Result OrchestrationError ℕ
  unfolding execution_arn
  residual_running_children name = do arn ← execution_arn state_machine_arn name; count_of arn
