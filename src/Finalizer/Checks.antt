-- ===== src/Finalizer/Checks.antt =====
-- The checks on a child's result and the master playlist (worker/src/finalizer.rs).
use streaming_video_app.Prelude.{
  ℕ, suc, max, Text, codes, decimal, text_eq, Bool, true, false, not, ◌&&◌, ◌||◌, Option, none,
  some, List, [], ◌∷◌, ◌++◌, length, ltb, ◌==◌, if◌then◌else◌, Result, ok, err, ◌>>=◌, ensure,
  ok_or,
}
use streaming_video_app.Notification.Decode.{split, strip_prefix}
use streaming_video_app.Config.Parse.{trim, is_empty, contains}
use streaming_video_app.Orchestration.Input.{OrchestrationError, ExecutionInput}
use streaming_video_app.Hls.Lines.{lines, starts_with, segment_name}
use streaming_video_app.Finalizer.Types.{
  playlist_type, ChildResult, MediaVariant, Decoders, finalizer_error,
}

abbrev pub demand : Bool → Text → Result OrchestrationError (Unit {0})
demand test message = ensure test (finalizer_error message)

abbrev pub slash : Text → Text → Text
slash prefix name = prefix ++ (47 ∷ name)

-- The members of a result that tell whose it is, and the media claims that are wrong in themselves.
abbrev pub is_of_another_run : ChildResult → ExecutionInput → Text → Text → Bool
is_of_another_run result input rendition result_key =
    not (result.schema_version == 1)
    || (not (text_eq result.video_id input.video_id)
        || (not (text_eq result.job_id input.job_id)
            || (not (result.attempt == input.attempt)
                || (not (text_eq result.execution_id input.execution_id)
                    || (not (text_eq result.source_key input.source_key)
                        || (not (text_eq result.rendition rendition)
                            || (not (
                                  text_eq result.output_prefix
                                    (slash input.output_prefix rendition))
                                || not (
                                    text_eq result_key (
                                      slash (slash input.output_prefix rendition)
                                        (codes "result.json"))))))))))

abbrev pub is_above : Text → ℕ → ℕ → Text → ChildResult → Bool
is_above name width height rendition result =
    text_eq rendition name && (ltb width result.width || ltb height result.height)

abbrev pub has_bad_claims : ChildResult → Text → Bool
has_bad_claims result rendition =
    result.width == 0
    || (result.height == 0
        || (result.bandwidth == 0
            || (is_empty result.codecs
                || (is_above (codes "360p") 640 360 rendition result
                    || is_above (codes "720p") 1280 720 rendition result))))

unfoldable pub validate_result :
    ChildResult → ExecutionInput → Text → Text → Result OrchestrationError (Unit {0})
validate_result result input rendition result_key = do
  _ ←
      demand
        (not
          (is_of_another_run result input rendition result_key || has_bad_claims result rendition))
        (codes "child result identity or media claims are invalid")
  demand
      (not (
        not (
          text_eq result.media_playlist.key
            (slash (slash input.output_prefix rendition) (codes "index.m3u8")))
        || not (text_eq result.media_playlist.content_type playlist_type)))
      (codes "media playlist descriptor mismatch")

unfoldable pub is_skipped : Text → Bool
unfolding starts_with
is_skipped line = is_empty line || starts_with (codes "#") line

unfoldable pub is_foreign : ℕ → Text → Bool
unfolding starts_with contains
is_foreign count line =
    contains (codes "/") line
    || (contains (codes ":") line
        || (starts_with (codes ".") line || not (text_eq line (segment_name count))))

-- One line, with the number of references before it and the rest of the loop.
abbrev pub reference_line :
    Bool → Bool → ℕ → (ℕ → Result OrchestrationError ℕ) → Result OrchestrationError ℕ
reference_line true foreign count later = later count
reference_line false true count later =
    err (finalizer_error (codes "media playlist reference is outside its rendition"))
reference_line false false count later = later (suc count)

-- The number of references in a playlist's lines.
unfoldable pub count_references : List Text → ℕ → Result OrchestrationError ℕ
unfolding trim
count_references [] count = ok count
count_references (line ∷ later) count =
    reference_line (is_skipped (trim line)) (is_foreign count (trim line)) count
      (count_references later)

abbrev first_part : List Text → Text → Text
first_part [] value = value
first_part (part ∷ parts) value = part

unfoldable pub mime_type : Text → Text
unfolding trim split
mime_type value = trim (first_part (split 59 value) value)

unfoldable pub rendition_ceiling : Text → ℕ × ℕ
rendition_ceiling rendition = if text_eq rendition (codes "360p") then (640, 360) else (1280, 720)

module _ (decoders : Decoders) where
  open decoders use {Float, from_utf8_lossy, parse_f64, is_positive, rate}

  abbrev positive : Option Float → Result OrchestrationError Float
  positive none = err (finalizer_error (codes "media playlist duration is invalid"))
  positive (some seconds) = do
    _ ← demand (is_positive seconds) (codes "media playlist duration is invalid")
    ok seconds

  unfoldable pub add_duration :
      Option Text → Result OrchestrationError (List Float) → Result OrchestrationError (List Float)
  unfolding split
  add_duration none later = later
  add_duration (some value) later = do
    seconds ← positive (parse_f64 (first_part (split 44 value) value))
    durations ← later
    ok (seconds ∷ durations)

  unfoldable pub durations_of : List Text → Result OrchestrationError (List Float)
  unfolding strip_prefix
  durations_of [] = ok []
  durations_of (line ∷ later) =
      add_duration (strip_prefix (codes "#EXTINF:") line) (durations_of later)

  abbrev pub peak_of : List Float → List ℕ → ℕ → ℕ
  peak_of (seconds ∷ durations) (size ∷ sizes) peak =
      peak_of durations sizes (max peak (rate size seconds))
  peak_of _ _ peak = peak

  unfoldable pub peak_bandwidth : Text → List ℕ → Result OrchestrationError ℕ
  unfolding lines durations_of
  peak_bandwidth playlist segment_sizes = do
    durations ← durations_of (lines (from_utf8_lossy playlist))
    _ ←
        demand (length durations == length segment_sizes)
          (codes "media playlist EXTINF count mismatch")
    _ ←
        demand (not (peak_of durations segment_sizes 0 == 0))
          (codes "actual media claims are invalid")
    ok (peak_of durations segment_sizes 0)

-- `variants`: a rendition has one entry at most.
abbrev pub Variants : Type 0
Variants = List (Text × MediaVariant)

abbrev pub get : Text → Variants → Option MediaVariant
get rendition [] = none
get rendition ((name, variant) ∷ rest) =
    if text_eq name rendition then some variant else get rendition rest

abbrev pub insert : Text → MediaVariant → Variants → Variants
insert rendition variant [] = (rendition, variant) ∷ []
insert rendition variant ((name, old) ∷ rest) =
    let others = insert rendition variant rest in
    if text_eq name rendition then (rendition, variant) ∷ rest else (name, old) ∷ others

unfoldable pub variant_lines : Text → MediaVariant → Text
unfolding decimal
variant_lines rendition variant =
    codes "#EXT-X-STREAM-INF:BANDWIDTH="
    ++ (decimal variant.bandwidth
        ++ (codes ",RESOLUTION="
            ++ (decimal variant.width
                ++ (codes "x"
                    ++ (decimal variant.height
                        ++ (codes ",CODECS=\""
                            ++ (variant.codecs
                                ++ (codes "\"\n" ++ (rendition ++ codes "/index.m3u8\n")))))))))

unfoldable pub master_lines : List Text → Variants → Result OrchestrationError Text
unfolding variant_lines
master_lines [] variants = ok []
master_lines (rendition ∷ later) variants = do
  variant ← ok_or (get rendition variants) (finalizer_error (codes "missing rendition"))
  rest ← master_lines later variants
  ok (variant_lines rendition variant ++ rest)

unfoldable pub build_master : List Text → Variants → Result OrchestrationError Text
unfolding master_lines
build_master renditions variants = do
  entries ← master_lines renditions variants
  ok (codes "#EXTM3U\n" ++ entries)
