-- ===== src/Finalizer/Types.antt =====
-- The results of the child encoders, and what is read back of them (worker/src/finalizer.rs).
use streaming_video_app.Prelude.{ℕ, Text, codes, Bool, Option, List}
use streaming_video_app.Orchestration.Input.{OrchestrationError, finalizer}

abbrev pub playlist_type : Text
playlist_type = codes "application/vnd.apple.mpegurl"

abbrev pub segment_type : Text
segment_type = codes "video/mp2t"

abbrev pub immutable_cache : Text
immutable_cache = codes "public,max-age=31536000,immutable"

pub record ObjectDescriptor : Type 0 where
  pub key : Text
  pub size_bytes : ℕ
  pub content_type : Text

pub record ChildResult : Type 0 where
  pub video_id : Text
  pub job_id : Text
  pub attempt : ℕ
  pub execution_id : Text
  pub rendition : Text
  pub source_key : Text
  pub output_prefix : Text
  pub schema_version : ℕ
  pub media_playlist : ObjectDescriptor
  pub segments : List ObjectDescriptor
  pub width : ℕ
  pub height : ℕ
  pub bandwidth : ℕ
  pub codecs : Text

pub record MediaVariant : Type 0 where
  pub width : ℕ
  pub height : ℕ
  pub bandwidth : ℕ
  pub codecs : Text

pub record ValidatedObjects : Type 0 where
  pub playlist : Text
  pub segments : List Text

-- The store's answer to `read_object`.
pub record StoredObject : Type 0 where
  pub contents : Text
  pub content_type : Option Text
  pub content_length : Option ℕ

-- `serde_json` on a child's result, the replacement of bytes that are not UTF-8, and `f64`: the
-- reading of a number, the test that it is finite and positive, and the rate in bits for each
-- second, rounded up.
pub record Decoders : Type 1 where
  pub Float : Type 0
  pub child_result : Text → Option ChildResult
  pub from_utf8_lossy : Text → Text
  pub parse_f64 : Text → Option Float
  pub is_positive : Float → Bool
  pub rate : ℕ → Float → ℕ

abbrev pub finalizer_error : Text → OrchestrationError
finalizer_error message = finalizer message
