-- ===== src/Examples/Media.antt =====
-- A rendition that is encoded, validated and published (encoding/src/lib.rs,
-- worker/src/encoder.rs, worker/src/finalizer.rs).
use streaming_video_app.Prelude.{
  ◌>>=◌, ℕ, pos, ◌≡◌, refl, Text, codes, text_eq, true, false, ◌==◌, if◌then◌else◌, none, some,
  Option, List, [], ◌∷◌, ok, err, arith,
}
use streaming_video_app.Naming.{execution_name, canonical_source_key, canonical_output_prefix}
use streaming_video_app.Attempt.Effects.{HlsOutput}
use streaming_video_app.Persistence.Port.{applied}
use streaming_video_app.Orchestration.Input.{ExecutionInput}
use streaming_video_app.Hls.Validate.{Files, validate_hls_output}
use streaming_video_app.Hls.Sound.{IsValidOutput, validate_hls_output-IsValidOutput}
use streaming_video_app.Finalizer.Types.{ChildResult, Decoders, playlist_type, segment_type}
use streaming_video_app.Finalizer.Checks.{slash, validate_result}
use streaming_video_app.Finalizer.Effects as FinalizerEffects
use streaming_video_app.Finalizer.Run.{parsed, finalize}
use streaming_video_app.Encoder.Payload.{ChildPayload, validate_payload}
use streaming_video_app.Encoder.Media.{Documents, Probe, exited}
use streaming_video_app.Encoder.Rates.{Floats}
use streaming_video_app.Encoder.Effects as EncoderEffects
use streaming_video_app.Encoder.Run.{Encoded, result_of, encode_child_with}
use streaming_video_app.Encoder.Agreement.{
  as_child_result, IsChildOf, IsWithinCeiling, result_of-validate_result,
}
use streaming_video_app.Examples.Messages.{uuid}
use streaming_video_app.Examples.Attempts.{job}

abbrev playlist : Text
playlist = codes "#EXTM3U\n#EXTINF:6.0,\nsegment-00000.ts\n"

abbrev files : Files
files = record {
  canonicalize = λ path. ok path;
  read_to_string = λ path. ok playlist;
  is_file = λ path. true;
  debug = λ text. text;
}

abbrev output : HlsOutput
output = record { playlist = codes "/w/index.m3u8"; segments = codes "/w/segment-00000.ts" ∷ [] }

validate_hls_output-IsValidOutput_example : IsValidOutput files (codes "/w") output
unfolding canonical_output_prefix canonical_source_key encode_child_with execution_name finalize
    streaming_video_app.Encoder.Media.video_codec streaming_video_app.Encoder.Payload.ceiling
    streaming_video_app.Encoder.Payload.expected_execution
    streaming_video_app.Encoder.Payload.expected_prefix
    streaming_video_app.Finalizer.Checks.add_duration
    streaming_video_app.Finalizer.Checks.is_foreign streaming_video_app.Finalizer.Checks.is_skipped
    streaming_video_app.Finalizer.Objects.references_in streaming_video_app.Hls.Lines.segment_name
    streaming_video_app.Hls.Validate.is_header streaming_video_app.Prelude.Utf8.is_utf8
    streaming_video_app.Prelude.text_eq validate_hls_output validate_payload
validate_hls_output-IsValidOutput_example =
    validate_hls_output-IsValidOutput files (codes "/w") output refl

-- A number for each `f64`.
abbrev floats : Floats
floats = record {
  Float = ℕ;
  from_u32 = λ n. n;
  divide = λ a b. a;
  multiply = λ a b. a;
  least = λ a b. a;
  floor_u32 = λ a. a;
  parse_f64 = λ text. some 6;
  is_positive = λ a. true;
  rate = λ size seconds. size;
  from_utf8_lossy = λ text. text;
}

-- A document is the name of the member that it is; each one is a list of one stream, too.
abbrev documents : Documents
unfolding text_eq
documents = record {
  Json = Text;
  from_slice = λ bytes. some (codes "document");
  get = λ name value. some name;
  as_array = λ value. some (codes "stream" ∷ []);
  as_str = λ value. some (
      if text_eq value (codes "codec_type")
      then codes "video"
      else if text_eq value (codes "codec_name")
      then codes "h264"
      else codes "High");
  as_u64 = λ value. some (if text_eq value (codes "level") then 30 else 360);
  as_i64 = λ value. none;
}

abbrev payload : ChildPayload
payload = record {
  video_id = uuid;
  job_id = uuid;
  attempt = 1;
  execution_id = execution_name uuid 1;
  rendition = codes "360p";
  source_key = canonical_source_key uuid uuid;
  output_prefix =
      slash (canonical_output_prefix uuid uuid 1 (execution_name uuid 1)) (codes "360p");
}

abbrev encoder_world : EncoderEffects.World
encoder_world = record {
  directory = λ n. ok (codes "/w");
  source = λ n. ok (codes "video");
  write_file = λ n. ok tt;
  run_probe = λ n. exited (pos 0) (codes "{}");
  encode = λ n. ok (pos 0);
  files = files;
  contents = λ n. ok (codes "bytes");
  size_of = λ path. some 5;
  upload = λ n. ok tt;
  to_vec = λ result. ok (codes "{}");
}

abbrev encoded : Encoded
encoded = record {
  output = output;
  size = (640, 360);
  codecs = codes "avc1.64001e";
  playlist = playlist;
}

abbrev input : ExecutionInput
input = record {
  video_id = uuid;
  job_id = uuid;
  attempt = 1;
  execution_id = execution_name uuid 1;
  source_key = canonical_source_key uuid uuid;
  output_prefix = canonical_output_prefix uuid uuid 1 (execution_name uuid 1);
  renditions = codes "360p" ∷ [];
  deadline_at = codes "2026-01-01T00:00:00Z";
}

is_child : IsChildOf payload input
is_child = record {
  same_video = refl;
  same_job = refl;
  same_attempt = refl;
  same_execution = refl;
  same_source = refl;
  is_canonical = refl;
}

is_within : IsWithinCeiling (codes "360p") encoded
unfolding canonical_output_prefix canonical_source_key encode_child_with execution_name finalize
    streaming_video_app.Encoder.Media.video_codec streaming_video_app.Encoder.Payload.ceiling
    streaming_video_app.Encoder.Payload.expected_execution
    streaming_video_app.Encoder.Payload.expected_prefix
    streaming_video_app.Finalizer.Checks.add_duration
    streaming_video_app.Finalizer.Checks.is_foreign streaming_video_app.Finalizer.Checks.is_skipped
    streaming_video_app.Finalizer.Objects.references_in streaming_video_app.Hls.Lines.segment_name
    streaming_video_app.Hls.Validate.is_header streaming_video_app.Prelude.Utf8.is_utf8
    streaming_video_app.Prelude.text_eq validate_payload
is_within = record {
  has_width = omega arith;
  has_height = omega arith;
  width_fits = omega arith;
  height_fits = omega arith;
  has_codecs = refl;
}

result_of-validate_result_example :
    (parsed (as_child_result (result_of documents floats encoder_world payload encoded []))
      >>= λ result.
          validate_result result input
            (codes "360p")
            (slash payload.output_prefix (codes "result.json")))
    ≡ ok tt
unfolding canonical_output_prefix canonical_source_key encode_child_with execution_name finalize
    streaming_video_app.Encoder.Media.video_codec
    streaming_video_app.Encoder.Payload.expected_execution
    streaming_video_app.Encoder.Payload.expected_prefix
    streaming_video_app.Finalizer.Checks.add_duration
    streaming_video_app.Finalizer.Checks.is_foreign streaming_video_app.Finalizer.Checks.is_skipped
    streaming_video_app.Finalizer.Objects.references_in streaming_video_app.Hls.Lines.segment_name
    streaming_video_app.Hls.Validate.is_header streaming_video_app.Prelude.Utf8.is_utf8
    streaming_video_app.Prelude.text_eq validate_payload
result_of-validate_result_example =
    result_of-validate_result documents floats encoder_world payload input encoded [] refl is_child
      is_within

-- What the finalizer reads of a child's result.
abbrev child : ChildResult
child = record {
  video_id = uuid;
  job_id = uuid;
  attempt = 1;
  execution_id = input.execution_id;
  rendition = codes "360p";
  source_key = input.source_key;
  output_prefix = slash input.output_prefix (codes "360p");
  schema_version = 1;
  media_playlist = record {
    key = slash (slash input.output_prefix (codes "360p")) (codes "index.m3u8");
    size_bytes = 38;
    content_type = playlist_type;
  };
  segments =
      record {
        key = slash (slash input.output_prefix (codes "360p")) (codes "segment-00000.ts");
        size_bytes = 38;
        content_type = segment_type;
      }
      ∷ [];
  width = 640;
  height = 360;
  bandwidth = 5;
  codecs = codes "avc1.64001e";
}

abbrev decoders : Decoders
decoders = record {
  Float = ℕ;
  child_result = λ bytes. some child;
  from_utf8_lossy = λ text. text;
  parse_f64 = λ text. some 6;
  is_positive = λ a. true;
  rate = λ size seconds. size;
}

-- The call with number 7 reads the playlist, and the next one its segment.
abbrev finalizer_world : FinalizerEffects.World
finalizer_world = record {
  gone = λ n. false;
  tempdir = λ n. ok tt;
  read = λ n. ok (codes "bytes");
  read_object = λ n. ok (record {
    contents = playlist;
    content_type = some (if n == 7 then playlist_type else segment_type);
    content_length = some 38;
  });
  write_file = λ n. ok tt;
  probe_source = λ n. ok (640, 360);
  probe_encoded = λ n. ok (640, 360, codes "avc1.64001e");
  put = λ n. ok tt;
  complete = λ n. ok applied;
}

-- The run succeeds in this world.
finalize_succeeds : (finalize decoders finalizer_world (codes "out") job input []).0 ≡ ok tt
unfolding canonical_output_prefix canonical_source_key encode_child_with execution_name finalize
    streaming_video_app.Encoder.Media.video_codec
    streaming_video_app.Encoder.Payload.expected_execution
    streaming_video_app.Encoder.Payload.expected_prefix
    streaming_video_app.Finalizer.Checks.add_duration
    streaming_video_app.Finalizer.Checks.is_foreign streaming_video_app.Finalizer.Checks.is_skipped
    streaming_video_app.Finalizer.Objects.references_in streaming_video_app.Hls.Lines.segment_name
    streaming_video_app.Hls.Validate.is_header streaming_video_app.Prelude.Utf8.is_utf8
    streaming_video_app.Prelude.text_eq
finalize_succeeds = refl

-- So does the encoder's.
encode_succeeds :
    (encode_child_with documents floats encoder_world 1000 (codes "in") (codes "out") payload []).0
    ≡ ok tt
unfolding canonical_output_prefix canonical_source_key encode_child_with execution_name
    streaming_video_app.Encoder.Media.number_of streaming_video_app.Encoder.Media.video_codec
    streaming_video_app.Encoder.Payload.expected_execution
    streaming_video_app.Encoder.Payload.expected_prefix streaming_video_app.Hls.Lines.segment_name
    streaming_video_app.Hls.Validate.is_header text_eq
encode_succeeds = refl
