-- ===== src/Encoder/Order.antt =====
-- The order in which a child encoder writes its objects (worker/src/encoder.rs).
use streaming_video_app.Prelude.{ℕ, ◌<◌, Text, List, length, Result, ◌≡◌, ok, err}
use streaming_video_app.Attempt.Effects.{HlsOutput}
use streaming_video_app.Hls.Validate.{validate_hls_output}
use streaming_video_app.Encoder.Payload.{ChildPayload, EncoderError}
use streaming_video_app.Encoder.Media.{Documents}
use streaming_video_app.Encoder.Rates.{Floats}
use streaming_video_app.Encoder.Effects.{Call, World}
use streaming_video_app.Encoder.Run.{Encoded}
use streaming_video_app.Encoder.Writes.{put_keys, IsPartial, Keys, Writes, Segments, Finished}

module _ (documents : Documents) (floats : Floats) (world : World) (payload : ChildPayload) where
  abbrev prefix : Text
  prefix = payload.output_prefix

  abbrev None : Keys
  None = Segments prefix 0

  -- The output that the validation read in a directory that the file system answered, with a segment
  -- at least.
  abbrev pub IsOutput : HlsOutput → Type 0
  IsOutput output =
      (0 < length output.segments)
      × ((directory : Text) × ((validate_hls_output world.files directory ≡ ok output)
            × ((n : ℕ) × (world.directory n ≡ ok directory))))

  -- A result only after all the segments of the output, and their playlist.
  abbrev pub IsFinished : Keys
  IsFinished keys =
      (output : HlsOutput) × (IsOutput output × Finished prefix (length output.segments) keys)

  abbrev SomeSegments : HlsOutput → Keys
  SomeSegments output keys = None keys × IsOutput output

  abbrev HasSegments : Encoded → Keys
  HasSegments encoded = SomeSegments encoded.output

  abbrev IsDirectory : Text → Type 0
  IsDirectory directory = (n : ℕ) × (world.directory n ≡ ok directory)

  -- From no object, with the calls so far: an error leaves a part of the writes.
  abbrev pub IsInOrder : Result EncoderError (Unit {0}) × List Call → Type 0
  IsInOrder (ok done, log) = IsFinished (put_keys log)
  IsInOrder (err e, log) = IsPartial prefix (put_keys log)
