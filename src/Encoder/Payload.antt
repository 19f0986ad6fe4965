-- ===== src/Encoder/Payload.antt =====
-- What a child encoder is asked to do, and its checks (worker/src/encoder.rs).
use streaming_video_app.Prelude.{
  ℕ, suc, Text, codes, decimal, text_eq, Bool, true, not, ◌&&◌, ◌||◌, [], ◌∷◌, ◌++◌, length, leb,
  ◌==◌, Result, ◌>>=◌, ensure, if◌then◌else◌,
}
use streaming_video_app.Config.Parse.{is_digit}

pub record ChildPayload : Type 0 where
  pub video_id : Text
  pub job_id : Text
  pub attempt : ℕ
  pub execution_id : Text
  pub rendition : Text
  pub source_key : Text
  pub output_prefix : Text

pub data EncoderError : Type 0 where
  invalid_payload input media storage json : Text → EncoderError

unfoldable pub error_text : EncoderError → Text
error_text (invalid_payload s) = codes "invalid child payload: " ++ s
error_text (input s) = s
error_text (media s) = s
error_text (storage s) = s
error_text (json s) = s

abbrev is_hyphen_place : ℕ → Bool
is_hyphen_place i = i == 8 || (i == 13 || (i == 18 || i == 23))

abbrev is_uuid_byte : ℕ → ℕ → Bool
is_uuid_byte i b = if is_hyphen_place i then b == 45 else is_digit b || (leb 97 b && leb b 102)

abbrev are_uuid_bytes : ℕ → Text → Bool
are_uuid_bytes i [] = true
are_uuid_bytes i (b ∷ s) = is_uuid_byte i b && are_uuid_bytes (suc i) s

unfoldable pub canonical_uuid : Text → Bool
canonical_uuid value = length value == 36 && are_uuid_bytes 0 value

abbrev pub require : Bool → Text → Result EncoderError (Unit {0})
require test reason = ensure test (invalid_payload reason)

unfoldable pub expected_execution : ChildPayload → Text
unfolding decimal
expected_execution payload =
    codes "job-" ++ (payload.job_id ++ (codes "-a" ++ decimal payload.attempt))

abbrev pub expected_source : ChildPayload → Text
expected_source payload =
    codes "videos/"
    ++ (payload.video_id ++ (codes "/jobs/" ++ (payload.job_id ++ codes "/source.mp4")))

unfoldable pub expected_prefix : ChildPayload → Text
unfolding decimal
expected_prefix payload =
    codes "videos/"
    ++ (payload.video_id
        ++ (codes "/jobs/"
            ++ (payload.job_id
                ++ (codes "/hls/attempts/"
                    ++ (decimal payload.attempt
                        ++ (codes "/"
                            ++ (payload.execution_id ++ (codes "/" ++ payload.rendition))))))))

abbrev pub is_rendition : Text → Bool
is_rendition rendition = text_eq rendition (codes "360p") || text_eq rendition (codes "720p")

unfoldable pub validate_payload : ChildPayload → Result EncoderError (Unit {0})
unfolding canonical_uuid
validate_payload payload = do
  _ ←
      require (not (not (canonical_uuid payload.video_id) || not (canonical_uuid payload.job_id)))
        (codes "ids must be lowercase UUIDs")
  _ ←
      require
        (not
          (payload.attempt == 0 || not (text_eq payload.execution_id (expected_execution payload))))
        (codes "execution identity mismatch")
  _ ← require (is_rendition payload.rendition) (codes "unsupported rendition")
  _ ← require (text_eq payload.source_key (expected_source payload)) (codes "source key mismatch")
  require (text_eq payload.output_prefix (expected_prefix payload)) (codes "output prefix mismatch")

unfoldable pub ceiling : Text → ℕ × ℕ
ceiling rendition = if text_eq rendition (codes "360p") then (640, 360) else (1280, 720)
