-- ===== src/Sfn/Tasks.antt =====
-- The children that a previous attempt left running (worker/src/sfn.rs).
pub mod Report
pub mod Accounted
use streaming_video_app.Prelude.{
  ℕ, zero, suc, Text, codes, text_eq, Bool, true, false, ◌||◌, Option, none, some, List, [], ◌∷◌,
  ◌++◌, length, if◌then◌else◌, Result, ok, err, ◌>>=◌,
}
use streaming_video_app.Orchestration.Input.{is_in}
use streaming_video_app.Config.Parse.{is_empty}
use streaming_video_app.Sfn.Arns.{
  SfnApiError, unavailable, eq_ignore_ascii_case, cluster_from_task_arn, is_stopped_status,
  text_ltb,
}

abbrev pub ecs_describe_batch : ℕ
ecs_describe_batch = 100

pub record DescribedTasks : Type 0 where
  pub tasks : List (Text × Text)
  pub missing : List Text

-- The SDK's answer: the tasks' names and last statuses, and the failures' names and reasons.
pub record DescribeResponse : Type 0 where
  pub reported : List (Option Text × Option Text)
  pub failures : List (Option Text × Option Text)

abbrev or_default : Option Text → Text
or_default none = []
or_default (some text) = text

abbrev task_pairs : List (Option Text × Option Text) → List (Text × Text)
task_pairs [] = []
task_pairs ((arn, status) ∷ tasks) = (or_default arn, or_default status) ∷ task_pairs tasks

abbrev add_missing : Text → Result SfnApiError (List Text) → Result SfnApiError (List Text)
add_missing arn (ok arns) = ok (arn ∷ arns)
add_missing arn (err e) = err e

unfoldable pub missing_arns : List (Option Text × Option Text) → Result SfnApiError (List Text)
unfolding eq_ignore_ascii_case
missing_arns [] = ok []
missing_arns ((arn, reason) ∷ failures) =
    let rest = missing_arns failures in
    if eq_ignore_ascii_case (or_default reason) (codes "MISSING")
    then add_missing (or_default arn) rest
    else err unavailable

unfoldable pub describe_tasks :
    Result SfnApiError DescribeResponse → Result SfnApiError DescribedTasks
unfolding missing_arns
describe_tasks response = do
  answer ← response
  missing ← missing_arns answer.failures
  ok (record { tasks = task_pairs answer.reported; missing = missing })

-- What the loop over the tasks of an answer has put into `seen` and `residual`.
pub record Seen : Type 0 where
  pub seen : List Text
  pub residual : List (Text × Text)

abbrev pub note_task : Text → Text → Bool → Seen → Result SfnApiError Seen
note_task cluster arn true noted =
    ok (record { seen = arn ∷ noted.seen; residual = noted.residual })
note_task cluster arn false noted =
    ok (record { seen = arn ∷ noted.seen; residual = (cluster, arn) ∷ noted.residual })

abbrev pub check_named : Bool → Result SfnApiError (Unit {0})
check_named true = err unavailable
check_named false = ok tt

unfoldable pub live_tasks : Text → List (Text × Text) → Result SfnApiError Seen
unfolding is_stopped_status
live_tasks cluster [] = ok (record { seen = []; residual = [] })
live_tasks cluster ((arn, last_status) ∷ tasks) = do
  _ ← check_named (is_empty arn || is_empty last_status)
  noted ← live_tasks cluster tasks
  note_task cluster arn (is_stopped_status last_status) noted

abbrev pub check_seen : Bool → Result SfnApiError (Unit {0})
check_seen true = ok tt
check_seen false = err unavailable

unfoldable pub check_requested : List Text → List Text → Result SfnApiError (Unit {0})
check_requested seen [] = ok tt
check_requested seen (arn ∷ requested) = do
  _ ← check_seen (is_in arn seen)
  check_requested seen requested

unfoldable pub classify_live_tasks :
    Text → List Text → DescribedTasks → Result SfnApiError (List (Text × Text))
unfolding live_tasks check_requested
classify_live_tasks cluster requested described = do
  noted ← live_tasks cluster described.tasks
  _ ← check_requested (described.missing ++ noted.seen) requested
  ok noted.residual

-- `by_cluster`, in the order of its keys.
abbrev pub Groups : Type 0
Groups = List (Text × List Text)

abbrev pub place : Bool → Bool → Text → Text → Text × List Text → Groups → Groups → Groups
place true earlier cluster arn group groups rest = (group.0, group.1 ++ (arn ∷ [])) ∷ groups
place false true cluster arn group groups rest = (cluster, arn ∷ []) ∷ group ∷ groups
place false false cluster arn group groups rest = group ∷ rest

unfoldable pub add_to_cluster : Text → Text → Groups → Groups
unfolding text_ltb
add_to_cluster cluster arn [] = (cluster, arn ∷ []) ∷ []
add_to_cluster cluster arn (group ∷ groups) =
    place (text_eq cluster group.0) (text_ltb cluster group.0) cluster arn group groups
      (add_to_cluster cluster arn groups)

unfoldable pub group_by_cluster : List Text → Groups → Result SfnApiError Groups
unfolding add_to_cluster cluster_from_task_arn
group_by_cluster [] groups = ok groups
group_by_cluster (arn ∷ arns) groups = do
  cluster ← cluster_from_task_arn arn
  group_by_cluster arns (add_to_cluster cluster arn groups)

-- `slice::chunks`: the rest of a chunk with room for so many more, and the chunks after it.
unfoldable pub chunks_from : ℕ → List Text → List Text × List (List Text)
chunks_from room [] = ([], [])
chunks_from zero (x ∷ xs) = let after = chunks_from 99 xs in ([], (x ∷ after.0) ∷ after.1)
chunks_from (suc room) (x ∷ xs) = let after = chunks_from room xs in (x ∷ after.0, after.1)

unfoldable pub chunks : List Text → List (List Text)
unfolding chunks_from
chunks arns = (chunks_from 0 arns).1

-- What the inspection answered, and the tasks it asked to stop.
pub record Confirmation : Type 0 where
  pub answer : Result SfnApiError ℕ
  pub stops : List (Text × Text)

abbrev pub conclude : Result SfnApiError (List (Text × Text)) → Confirmation
conclude (ok residual) = record { answer = ok (length residual); stops = residual }
conclude (err e) = record { answer = err e; stops = [] }

-- The service's answers, by cluster and batch.
module _ (describe : Text → List Text → Result SfnApiError DescribedTasks) where
  unfoldable pub inspect_chunks : Text → List (List Text) → Result SfnApiError (List (Text × Text))
  unfolding classify_live_tasks
  inspect_chunks cluster [] = ok []
  inspect_chunks cluster (chunk ∷ later) = do
    described ← describe cluster chunk
    residual ← classify_live_tasks cluster chunk described
    others ← inspect_chunks cluster later
    ok (residual ++ others)

  unfoldable pub inspect_groups : Groups → Result SfnApiError (List (Text × Text))
  unfolding inspect_chunks chunks
  inspect_groups [] = ok []
  inspect_groups ((cluster, arns) ∷ groups) = do
    residual ← inspect_chunks cluster (chunks arns)
    others ← inspect_groups groups
    ok (residual ++ others)

  unfoldable pub inspect_all : List Text → Result SfnApiError (List (Text × Text))
  unfolding group_by_cluster inspect_groups
  inspect_all arns = do groups ← group_by_cluster arns []; inspect_groups groups

  unfoldable pub confirm_residual_ecs_tasks : List Text → Confirmation
  confirm_residual_ecs_tasks [] = record { answer = ok 0; stops = [] }
  confirm_residual_ecs_tasks (arn ∷ arns) = conclude (inspect_all (arn ∷ arns))
