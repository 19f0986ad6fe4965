-- ===== src/Encoder/Run.antt =====
-- The encoding of one rendition and the writing of its objects (worker/src/encoder.rs).
use streaming_video_app.Prelude.{
  ℕ, ℤ, pos, negsuc, zero, suc, Text, codes, decimal, Bool, true, false, not, List, [], ◌∷◌, ◌++◌,
  map, length, Result, ok, err, ensure,
}
use streaming_video_app.Config.Parse.{is_empty}
use streaming_video_app.Attempt.Effects.{HlsOutput}
use streaming_video_app.Hls.Lines.{join, segment_name}
use streaming_video_app.Hls.Validate.{HlsError, hls_error_text, validate_hls_output}
use streaming_video_app.Finalizer.Types.{
  ObjectDescriptor, playlist_type, segment_type, immutable_cache,
}
use streaming_video_app.Finalizer.Checks.{slash}
use streaming_video_app.Encoder.Payload.{
  ChildPayload, EncoderError, input, media, storage, json, validate_payload, ceiling,
}
use streaming_video_app.Encoder.Media.{Documents, reject, probe_command, probe, encoded_codecs}
use streaming_video_app.Encoder.Rates.{Floats, scaled_dimensions, peak_bandwidth}
use streaming_video_app.Encoder.Effects.{
  EncodedResult, created_directory, read_source, wrote_file, ran_encoder, read_file, put, World, M,
  ◌>>=◌, pure, lift, ask, ask_probe,
}

abbrev audio_arguments : Bool → List Text
audio_arguments true = codes "-c:a" ∷ codes "aac" ∷ []
audio_arguments false = codes "-an" ∷ []

-- The encoder's arguments, after its path.
unfoldable pub encode_arguments : Text → ℕ × ℕ → Bool → List Text
unfolding decimal
encode_arguments directory (width, height) has_audio =
    (codes "-y"
      ∷ codes "-i"
      ∷ join directory (codes "source.mp4")
      ∷ codes "-vf"
      ∷ (codes "scale="
          ++ (decimal width ++ (codes ":" ++ (decimal height ++ codes ":flags=lanczos"))))
      ∷ codes "-c:v"
      ∷ codes "libx264"
      ∷ codes "-pix_fmt"
      ∷ codes "yuv420p"
      ∷ codes "-sc_threshold"
      ∷ codes "0"
      ∷ codes "-force_key_frames"
      ∷ codes "expr:gte(t,n_forced*6)"
      ∷ [])
    ++ (audio_arguments has_audio
        ++ (codes "-f"
            ∷ codes "hls"
            ∷ codes "-start_number"
            ∷ codes "0"
            ∷ codes "-hls_time"
            ∷ codes "6"
            ∷ codes "-hls_playlist_type"
            ∷ codes "vod"
            ∷ codes "-hls_segment_filename"
            ∷ join directory (codes "segment-%05d.ts")
            ∷ join directory (codes "index.m3u8")
            ∷ []))

abbrev pub must_succeed : ℤ → Result EncoderError (Unit {0})
must_succeed (pos zero) = ok tt
must_succeed (pos (suc status)) = reject (codes "FFmpeg failed")
must_succeed (negsuc status) = reject (codes "FFmpeg failed")

abbrev pub as_media : Result HlsError HlsOutput → Result EncoderError HlsOutput
as_media (ok output) = ok output
as_media (err e) = reject (hls_error_text e)

abbrev pub first_segment : List Text → Result EncoderError Text
first_segment [] = reject (codes "encoded output has no video")
first_segment (segment ∷ rest) = ok segment

-- What an encode has left, with what was read of it.
pub record Encoded : Type 0 where
  pub output : HlsOutput
  pub size : ℕ × ℕ
  pub codecs : Text
  pub playlist : Text

module _ (documents : Documents) (floats : Floats) (world : World) where
  -- Up to the first write to the object store.
  unfoldable pub encode_to_files : ℕ → Text → ChildPayload → M Encoded
  unfolding validate_payload probe scaled_dimensions validate_hls_output encoded_codecs
  encode_to_files source_bytes input_bucket payload = do
    _ ← lift (validate_payload payload)
    directory ← ask input (created_directory payload.job_id) world.directory
    _ ← ask storage (read_source input_bucket payload.source_key source_bytes) world.source
    _ ← ask input wrote_file world.write_file
    source ←
        ask_probe world.run_probe (probe_command (join directory (codes "source.mp4")))
          (probe documents)
    status ←
        ask media
          (ran_encoder (
            encode_arguments directory
              (scaled_dimensions floats source.0 source.1 (ceiling payload.rendition)) source.2))
          world.encode
    _ ← lift (must_succeed status)
    output ← lift (as_media (validate_hls_output world.files directory))
    segment ← lift (first_segment output.segments)
    codecs ← ask_probe world.run_probe (probe_command segment) (encoded_codecs documents)
    playlist ← ask media (read_file output.playlist) world.contents
    pure (record {
      output = output;
      size = scaled_dimensions floats source.0 source.1 (ceiling payload.rendition);
      codecs = codecs;
      playlist = playlist;
    })

  -- One turn of the loop over the segments.
  unfoldable pub write_segment : Text → Text → ℕ → Text → M ObjectDescriptor
  write_segment output_bucket prefix index segment = do
    contents ← ask media (read_file segment) world.contents
    _ ← lift (ensure (not (is_empty contents)) (media (codes "empty segment")))
    _ ←
        ask storage
          (put output_bucket (slash prefix (segment_name index)) segment_type immutable_cache
            contents)
          world.upload
    pure (record {
      key = slash prefix (segment_name index);
      size_bytes = length contents;
      content_type = segment_type;
    })

  unfoldable pub write_segments : Text → Text → ℕ → List Text → M (List ObjectDescriptor)
  unfolding write_segment
  write_segments output_bucket prefix index [] = pure []
  write_segments output_bucket prefix index (segment ∷ later) = do
    descriptor ← write_segment output_bucket prefix index segment
    descriptors ← write_segments output_bucket prefix (suc index) later
    pure (descriptor ∷ descriptors)

  unfoldable pub result_of : ChildPayload → Encoded → List ObjectDescriptor → EncodedResult
  unfolding peak_bandwidth
  result_of payload encoded descriptors = record {
    payload = payload;
    schema_version = 1;
    media_playlist = record {
      key = slash payload.output_prefix (codes "index.m3u8");
      size_bytes = length encoded.playlist;
      content_type = playlist_type;
    };
    segments = descriptors;
    width = encoded.size.0;
    height = encoded.size.1;
    bandwidth = peak_bandwidth floats encoded.playlist (map world.size_of encoded.output.segments);
    codecs = encoded.codecs;
  }

  abbrev pub as_json : Result Text Text → Result EncoderError Text
  as_json (ok bytes) = ok bytes
  as_json (err reason) = err (json reason)

  -- The result, last of all.
  abbrev pub write_result : Text → EncodedResult → M (Unit {0})
  write_result output_bucket result = do
    bytes ← lift (as_json (world.to_vec result))
    ask storage
        (put output_bucket (slash result.payload.output_prefix (codes "result.json"))
          (codes "application/json") immutable_cache bytes)
        world.upload

  abbrev pub write_playlist : Text → Text → Text → M (Unit {0})
  write_playlist output_bucket prefix playlist =
      ask storage
        (put output_bucket (slash prefix (codes "index.m3u8")) playlist_type immutable_cache
          playlist)
        world.upload

  unfoldable pub write_objects : Text → ChildPayload → Encoded → M (Unit {0})
  unfolding write_segments result_of
  write_objects output_bucket payload encoded = do
    descriptors ← write_segments output_bucket payload.output_prefix 0 encoded.output.segments
    _ ← write_playlist output_bucket payload.output_prefix encoded.playlist
    write_result output_bucket (result_of payload encoded descriptors)

  unfoldable pub encode_child_with : ℕ → Text → Text → ChildPayload → M (Unit {0})
  unfolding encode_to_files write_objects
  encode_child_with source_bytes input_bucket output_bucket payload = do
    encoded ← encode_to_files source_bytes input_bucket payload
    write_objects output_bucket payload encoded
