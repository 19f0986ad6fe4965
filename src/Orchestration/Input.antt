-- ===== src/Orchestration/Input.antt =====
-- The input of an execution and its checks (worker/src/orchestration.rs).
use streaming_video_app.Prelude.{
  ℕ, ◌+◌, Text, codes, text_eq, Bool, true, false, not, ◌&&◌, ◌||◌, Option, some, List, [], ◌∷◌,
  leb, ltb, Result, ok, ◌>>=◌, ensure, length, min,
}
use streaming_video_app.Naming.{execution_name, canonical_source_key, canonical_output_prefix}
use streaming_video_app.Acquisition.Types.{AcquiredJob}

pub data OrchestrationError : Type 0 where
  permission failed timed_out ownership_lost : OrchestrationError
  start describe finalizer : Text → OrchestrationError

pub data ExecutionStatus : Type 0 where
  running succeeded has_failed has_timed_out : ExecutionStatus

pub data ExecutionInspection : Type 0 where
  not_found : ExecutionInspection
  found : ExecutionStatus → Text → ExecutionInspection

pub record ExecutionInput : Type 0 where
  pub video_id : Text
  pub job_id : Text
  pub attempt : ℕ
  pub execution_id : Text
  pub source_key : Text
  pub output_prefix : Text
  pub renditions : List Text
  pub deadline_at : Text

-- `serde_json` on an execution's input, and `chrono`'s reading of a date.
pub record Formats : Type 1 where
  pub Value : Type 0
  pub from_str : Text → Option Value
  pub to_value : ExecutionInput → Option Value
  pub same_value : Value → Value → Bool
  pub is_rfc3339 : Text → Bool

abbrev pub max_active_child_encoders : ℕ
max_active_child_encoders = 2

abbrev pub is_allowed : Text → Bool
is_allowed rendition = text_eq rendition (codes "360p") || text_eq rendition (codes "720p")

abbrev pub is_in : Text → List Text → Bool
is_in x [] = false
is_in x (y ∷ ys) = text_eq x y || is_in x ys

-- The loop over the renditions, with those that were seen.
unfoldable pub are_unique_renditions : List Text → List Text → Bool
are_unique_renditions seen [] = true
are_unique_renditions seen (rendition ∷ rest) =
    is_allowed rendition
    && (not (is_in rendition seen) && are_unique_renditions (rendition ∷ seen) rest)

abbrev pub start_error : Bool → Text → Result OrchestrationError (Unit {0})
start_error test reason = ensure test (start reason)

unfoldable pub validate_renditions : List Text → Result OrchestrationError (Unit {0})
unfolding are_unique_renditions
validate_renditions renditions = do
  _ ←
      start_error (ltb 0 (length renditions) && leb (length renditions) 2)
        (codes "renditions must contain one or two allowed identifiers")
  start_error (are_unique_renditions [] renditions)
      (codes "renditions must be unique 360p and/or 720p")

-- A `usize` is a 64-bit number on the worker's platforms.
abbrev pub saturating_add : ℕ → ℕ → ℕ
saturating_add a b = min (a + b) 18446744073709551615

unfoldable pub child_bound_holds : ℕ → ℕ → Bool
child_bound_holds residual_running planned_children =
    leb (saturating_add residual_running planned_children) max_active_child_encoders

abbrev pub describe_is_retryable : OrchestrationError → Bool
describe_is_retryable (describe reason) = true
describe_is_retryable _ = false

module _ (formats : Formats) where
  open formats use {Value, from_str, to_value, same_value, is_rfc3339}

  unfoldable pub validate : ExecutionInput → Result OrchestrationError (Unit {0})
  unfolding validate_renditions execution_name canonical_source_key canonical_output_prefix
  validate input = do
    _ ← validate_renditions input.renditions
    _ ←
        start_error (text_eq input.execution_id (execution_name input.job_id input.attempt))
          (codes "execution_id identity mismatch")
    _ ←
        start_error (text_eq input.source_key (canonical_source_key input.video_id input.job_id))
          (codes "source key identity mismatch")
    _ ←
        start_error
          (text_eq input.output_prefix
            (canonical_output_prefix input.video_id input.job_id input.attempt input.execution_id))
          (codes "output prefix identity mismatch")
    start_error (is_rfc3339 input.deadline_at) (codes "invalid deadline_at")

  abbrev pub input_of : AcquiredJob → List Text → Text → ExecutionInput
  input_of job renditions deadline_at = record {
    video_id = job.item.video_id;
    job_id = job.item.job_id;
    attempt = job.attempt;
    execution_id = execution_name job.item.job_id job.attempt;
    source_key = canonical_source_key job.item.video_id job.item.job_id;
    output_prefix =
        canonical_output_prefix job.item.video_id job.item.job_id job.attempt
          (execution_name job.item.job_id job.attempt);
    renditions = renditions;
    deadline_at = deadline_at;
  }

  unfoldable pub for_job : AcquiredJob → List Text → Text → Result OrchestrationError ExecutionInput
  unfolding validate
  for_job job renditions deadline_at = do
    _ ←
        start_error (text_eq job.item.key (canonical_source_key job.item.video_id job.item.job_id))
          (codes "source key identity mismatch")
    _ ← validate (input_of job renditions deadline_at)
    ok (input_of job renditions deadline_at)

  abbrev matches_value : Option Value → Option Value → Bool
  matches_value (some actual) (some expected) = same_value actual expected
  matches_value _ _ = false

  unfoldable pub input_matches : ExecutionInput → Text → Bool
  input_matches expected json = matches_value (from_str json) (to_value expected)
