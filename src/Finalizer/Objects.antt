-- ===== src/Finalizer/Objects.antt =====
-- The reading of a rendition's objects (worker/src/finalizer.rs).
use streaming_video_app.Prelude.{
  ℕ, suc, Text, codes, text_eq, Bool, false, not, ◌&&◌, ◌||◌, Option, none, some, List, [], ◌∷◌,
  ◌++◌, map, length, ltb, ◌==◌, Result, ok, err, if◌then◌else◌,
}
use streaming_video_app.Prelude.Utf8.{is_utf8}
use streaming_video_app.Config.Parse.{is_empty}
use streaming_video_app.Orchestration.Input.{OrchestrationError}
use streaming_video_app.Hls.Lines.{lines, segment_name}
use streaming_video_app.Finalizer.Types.{
  playlist_type, segment_type, ObjectDescriptor, ChildResult, MediaVariant, ValidatedObjects,
  StoredObject, Decoders, finalizer_error,
}
use streaming_video_app.Finalizer.Checks.{
  demand, slash, count_references, mime_type, rendition_ceiling, peak_bandwidth,
}
use streaming_video_app.Finalizer.Effects.{
  read_key, wrote_file, probed, World, M, ◌>>=◌, pure, lift, ask,
}

abbrev or_empty : Option Text → Text
or_empty none = []
or_empty (some value) = value

abbrev has_size : Option ℕ → ℕ → Bool
has_size none size = false
has_size (some stored) size = stored == size

-- The checks on the object that the store answered.
unfoldable pub check_object :
    StoredObject → ObjectDescriptor → Text → Result OrchestrationError (Unit {0})
unfolding mime_type
check_object object descriptor content_type =
    if text_eq (mime_type (or_empty object.content_type)) content_type
    then demand
        (has_size object.content_length descriptor.size_bytes
          && (length object.contents == descriptor.size_bytes && not (is_empty object.contents)))
        (codes "object size mismatch")
    else err (finalizer_error (codes "object MIME type mismatch"))

module _ (decoders : Decoders) (world : World) where
  unfoldable pub read_descriptor : Text → ObjectDescriptor → Text → M Text
  unfolding check_object
  read_descriptor bucket descriptor content_type = do
    _ ← lift (
        demand (text_eq descriptor.content_type content_type && not (descriptor.size_bytes == 0))
          (codes "object descriptor metadata mismatch"))
    object ← ask (read_key bucket descriptor.key) world.read_object
    _ ← lift (check_object object descriptor content_type)
    pure object.contents

  -- The loop over the segments' descriptors, with the index of the next one.
  unfoldable pub read_segments : Text → Text → List ObjectDescriptor → ℕ → M (List Text)
  unfolding read_descriptor
  read_segments bucket prefix [] index = pure []
  read_segments bucket prefix (descriptor ∷ later) index = do
    _ ← lift (
        demand
          (text_eq descriptor.key (slash prefix (segment_name index))
            && text_eq descriptor.content_type segment_type)
          (codes "segment descriptor mismatch"))
    contents ← read_descriptor bucket descriptor segment_type
    rest ← read_segments bucket prefix later (suc index)
    pure (contents ∷ rest)

  unfoldable pub references_in : Text → Result OrchestrationError ℕ
  unfolding count_references lines
  references_in playlist = count_references (lines playlist) 0

  unfoldable pub validate_objects : Text → ChildResult → M ValidatedObjects
  unfolding read_segments
  validate_objects bucket result = do
    playlist ← read_descriptor bucket result.media_playlist playlist_type
    _ ← lift (demand (is_utf8 playlist) (codes "media playlist is not UTF-8"))
    count ← lift (references_in playlist)
    _ ← lift (demand (count == length result.segments) (codes "segment descriptor count mismatch"))
    segments ← read_segments bucket result.output_prefix result.segments 0
    pure (record { playlist = playlist; segments = segments })

  abbrev pub first_segment : List Text → Result OrchestrationError Text
  first_segment [] = err (finalizer_error (codes "encoded output has no video"))
  first_segment (segment ∷ rest) = ok segment

  abbrev pub exceeds : ℕ × ℕ → ℕ × ℕ → Bool
  exceeds (width, height) (most_width, most_height) = ltb most_width width || ltb most_height height

  -- The files' paths are relative to the temporary directory.
  unfoldable pub inspect_actual_media : Text → ValidatedObjects → ℕ × ℕ → M MediaVariant
  unfolding rendition_ceiling peak_bandwidth
  inspect_actual_media rendition objects source = do
    _ ← lift (first_segment objects.segments)
    _ ← ask (wrote_file (rendition ++ codes ".ts")) world.write_file
    measured ← ask (probed (rendition ++ codes ".ts")) world.probe_encoded
    _ ← lift (
        demand (not (exceeds (measured.0, measured.1) (rendition_ceiling rendition)))
          (codes "actual media exceeds the rendition ceiling"))
    _ ← lift (
        demand (not (exceeds (measured.0, measured.1) source))
          (codes "actual media exceeds the source resolution"))
    bandwidth ← lift (peak_bandwidth decoders objects.playlist (map length objects.segments))
    _ ← lift (demand (not (is_empty measured.2)) (codes "actual media claims are invalid"))
    pure (record {
      width = measured.0;
      height = measured.1;
      bandwidth = bandwidth;
      codecs = measured.2;
    })

  unfoldable pub inspect_source : Text → Text → M (ℕ × ℕ)
  inspect_source bucket key = do
    bytes ← ask (read_key bucket key) world.read
    _ ← lift (demand (not (is_empty bytes)) (codes "source is empty"))
    _ ← ask (wrote_file (codes "source.mp4")) world.write_file
    ask (probed (codes "source.mp4")) world.probe_source
