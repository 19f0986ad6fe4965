-- ===== src/Examples/Services.antt =====
-- Answers of the execution service, of the task service and of the queue (worker/src/sfn.rs,
-- queue/src/sqs.rs).
use streaming_video_app.Prelude.{
  ℕ, suc, ◌≡◌, refl, Text, codes, length, true, false, none, some, Option, List, [], ◌∷◌, All,
  Result, ok, err,
}
use streaming_video_app.Sfn.Arns.{SfnApiError, not_found}
use streaming_video_app.Sfn.History.{
  Value, array, object, string, value, no_values, entry, no_entries, HistoryEvent, child_task_arns,
}
use streaming_video_app.Sfn.Tasks.{DescribedTasks, confirm_residual_ecs_tasks}
use streaming_video_app.Sfn.Tasks.Accounted.{IsPlaced, confirm_residual_ecs_tasks-IsAccountedFor}
use streaming_video_app.Sfn.Client.{
  DescribedExecution, Services, inspect, status, residual_running_children,
}
use streaming_video_app.Sfn.Retryable.{IsRetried, client-IsRetried}
use streaming_video_app.Sfn.Named.{AreTasks, child_task_arns-AreTasks}
use streaming_video_app.Queue.{Message, AwsMessage, IsReceived, receive, receive-IsReceived}

abbrev stopped_task : Text
stopped_task = codes "arn:aws:ecs:r:1:task/c/1"

abbrev running_task : Text
running_task = codes "arn:aws:ecs:r:1:task/c/2"

-- The first task has stopped, and the second runs.
abbrev describe : Text → List Text → Result SfnApiError DescribedTasks
describe cluster chunk = ok (record {
  tasks = (stopped_task, codes "Stopped") ∷ (running_task, codes "RUNNING") ∷ [];
  missing = [];
})

abbrev asked : List Text
asked = stopped_task ∷ running_task ∷ []

confirm_residual_ecs_tasks-IsAccountedFor_example :
    All (IsPlaced describe (confirm_residual_ecs_tasks describe asked).stops) asked
    × (1 ≡ length (confirm_residual_ecs_tasks describe asked).stops)
unfolding child_task_arns confirm_residual_ecs_tasks inspect receive residual_running_children
    status streaming_video_app.Prelude.text_eq streaming_video_app.Queue.parse_count
    streaming_video_app.Sfn.Arns.execution_arn streaming_video_app.Sfn.Arns.is_ecs_task_arn
    streaming_video_app.Sfn.Client.count_of streaming_video_app.Sfn.Tasks.inspect_all
confirm_residual_ecs_tasks-IsAccountedFor_example =
    confirm_residual_ecs_tasks-IsAccountedFor describe asked 1 refl

abbrev services : Services
services = record {
  start_execution = λ machine name payload. ok tt;
  describe_execution = λ arn. err not_found;
  child_task_arns = λ arn. ok asked;
  describe_tasks = describe;
}

abbrev machine : Text
machine = codes "arn:aws:states:r:1:stateMachine:m"

client-IsRetried_example :
    IsRetried (inspect machine services (codes "n"))
    × IsRetried (status machine services (codes "n"))
    × IsRetried (residual_running_children machine services (codes "n"))
unfolding child_task_arns receive streaming_video_app.Sfn.Arns.execution_arn
    streaming_video_app.Sfn.Arns.is_ecs_task_arn
client-IsRetried_example =
    client-IsRetried machine services (codes "n") (codes "arn:aws:states:r:1:execution:m:n") refl

abbrev from_str : Text → Option Value
from_str raw = some (
    object (
      entry (codes "TaskArn") (string running_task)
        (entry (codes "Note") (array (value (string (codes "no task")) no_values)) no_entries)))

abbrev submitted : HistoryEvent
submitted = record {
  submitted = some (codes "ecs", some (codes "{}"));
  succeeded = none;
  scheduled = none;
  started = none;
  failed = none;
  timed_out = none;
}

child_task_arns-AreTasks_example : AreTasks (running_task ∷ [])
unfolding child_task_arns receive streaming_video_app.Sfn.Arns.is_ecs_task_arn
child_task_arns-AreTasks_example =
    child_task_arns-AreTasks from_str (ok (submitted ∷ []) ∷ []) (running_task ∷ []) refl

abbrev sent : AwsMessage
sent = record {
  aws_message_id = some (codes "id-1");
  aws_receipt_handle = some (codes "receipt");
  aws_body = some (codes "{}");
  approximate_receive_count = some (codes "2");
}

abbrev received : Message
received = record {
  message_id = some (codes "id-1");
  delivery_id = [];
  receipt_handle = codes "receipt";
  body = codes "{}";
  receive_count = 2;
  visibility_deadline = some 30500;
  receive_started_at = some 500;
}

receive-IsReceived_example : IsReceived 500 (some received)
unfolding confirm_residual_ecs_tasks inspect receive residual_running_children status
    streaming_video_app.Queue.parse_count streaming_video_app.Sfn.Client.count_of
receive-IsReceived_example =
    receive-IsReceived (ok 30) 500 (λ seconds. ok (sent ∷ [])) (some received) refl
