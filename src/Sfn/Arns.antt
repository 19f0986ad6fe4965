-- ===== src/Sfn/Arns.antt =====
-- Resource names, error codes and statuses (worker/src/sfn.rs).
use streaming_video_app.Prelude.{
  ℕ, ◌+◌, Text, codes, text_eq, Bool, true, false, ◌&&◌, ◌||◌, Option, none, some, [], ◌∷◌, ◌++◌,
  leb, ltb, ◌==◌, if◌then◌else◌, Result, ok, err,
}
use streaming_video_app.Notification.Decode.{strip_prefix}
use streaming_video_app.Config.Parse.{contains}
use streaming_video_app.Orchestration.Input.{
  OrchestrationError, ExecutionStatus, running, succeeded, has_failed, has_timed_out,
}

pub data SfnApiError : Type 0 where
  already_exists not_found permission unavailable : SfnApiError

-- `aws_sdk_sfn::types::ExecutionStatus`, and what a later SDK may add.
pub data AwsStatus : Type 0 where
  aws_succeeded aws_failed aws_aborted aws_timed_out aws_running aws_pending_redrive aws_unknown :
      AwsStatus

unfoldable pub map_status : AwsStatus → ExecutionStatus
map_status aws_succeeded = succeeded
map_status aws_failed = has_failed
map_status aws_aborted = has_failed
map_status aws_timed_out = has_timed_out
map_status aws_running = running
map_status aws_pending_redrive = running
map_status aws_unknown = has_failed

unfoldable pub map_aws_error_code : Text → SfnApiError
map_aws_error_code code =
    if text_eq code (codes "ExecutionAlreadyExists")
    then already_exists
    else if text_eq code (codes "ExecutionDoesNotExist")
    then not_found
    else if text_eq code (codes "AccessDeniedException") || text_eq code (codes "AccessDenied")
    then permission
    else unavailable

abbrev to_lower : ℕ → ℕ
to_lower b = if leb 65 b && leb b 90 then b + 32 else b

-- `str::eq_ignore_ascii_case`
unfoldable pub eq_ignore_ascii_case : Text → Text → Bool
eq_ignore_ascii_case [] [] = true
eq_ignore_ascii_case (a ∷ s) (b ∷ t) = to_lower a == to_lower b && eq_ignore_ascii_case s t
eq_ignore_ascii_case _ _ = false

abbrev pub is_prefix : Text → Text → Bool
is_prefix pattern s = elim (strip_prefix pattern s) [ none ↦ false | some rest ↦ true ]

abbrev extend_before : ℕ → Option (Text × Text) → Option (Text × Text)
extend_before b none = none
extend_before b (some (before, after)) = some (b ∷ before, after)

abbrev split_here : Option Text → Option (Text × Text)
split_here none = none
split_here (some rest) = some ([], rest)

abbrev or_else : Option (Text × Text) → Option (Text × Text) → Option (Text × Text)
or_else none other = other
or_else (some p) other = some p

-- `str::split_once`: at the first occurrence.
unfoldable pub split_once : Text → Text → Option (Text × Text)
unfolding strip_prefix
split_once pattern [] = split_here (strip_prefix pattern [])
split_once pattern (b ∷ s) =
    or_else (split_here (strip_prefix pattern (b ∷ s))) (extend_before b (split_once pattern s))

-- `str::rsplit_once`: at the last occurrence.
unfoldable pub rsplit_once : Text → Text → Option (Text × Text)
unfolding strip_prefix
rsplit_once pattern [] = split_here (strip_prefix pattern [])
rsplit_once pattern (b ∷ s) =
    or_else (extend_before b (rsplit_once pattern s)) (split_here (strip_prefix pattern (b ∷ s)))

unfoldable pub is_ecs_task_arn : Text → Bool
unfolding strip_prefix contains
is_ecs_task_arn value = is_prefix (codes "arn:aws:ecs:") value && contains (codes ":task/") value

abbrev non_empty : Text → Result SfnApiError Text
non_empty [] = err unavailable
non_empty (b ∷ s) = ok (b ∷ s)

abbrev cluster_of : Option (Text × Text) → Result SfnApiError Text
cluster_of none = err unavailable
cluster_of (some (cluster, task)) = non_empty cluster

unfoldable pub cluster_from_task_arn : Text → Result SfnApiError Text
unfolding split_once
cluster_from_task_arn arn = elim (split_once (codes ":task/") arn) [
  | none ↦ err unavailable
  | some (before, rest) ↦ cluster_of (split_once (codes "/") rest)
]

unfoldable pub is_stopped_status : Text → Bool
unfolding eq_ignore_ascii_case
is_stopped_status status = eq_ignore_ascii_case status (codes "STOPPED")

unfoldable pub execution_arn : Text → Text → Result OrchestrationError Text
unfolding rsplit_once
execution_arn state_machine_arn name =
    elim (rsplit_once (codes ":stateMachine:") state_machine_arn) [
      | none ↦ err (OrchestrationError.start (codes "invalid state machine arn"))
      | some (before, machine) ↦
          ok (before ++ (codes ":execution:" ++ (machine ++ (codes ":" ++ name))))
    ]

-- The order of `String`.
unfoldable pub text_ltb : Text → Text → Bool
text_ltb [] [] = false
text_ltb [] (b ∷ t) = true
text_ltb (a ∷ s) [] = false
text_ltb (a ∷ s) (b ∷ t) = ltb a b || (a == b && text_ltb s t)
