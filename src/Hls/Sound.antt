-- ===== src/Hls/Sound.antt =====
-- What a playlist that passes the validation holds (encoding/src/lib.rs).
use Prim.Native.String.{String}
use streaming_video_app.Prelude.{
  ℕ, zero, suc, ◌≡◌, refl, Text, codes, text_eq, text_eq_sound, true, not, List, [], ◌∷◌, ◌++◌,
  length, Result, OnOk, OnOk-bind, OnOk-at, OnOk-test, OnOk-trivial, ok, err, All,
}
use streaming_video_app.Config.Parse.{trim}
use streaming_video_app.Attempt.Effects.{HlsOutput}
use streaming_video_app.Hls.Lines.{
  lines, segment_name, is_segment_filename, is_unsafe_path, join, path_starts_with,
  tag_has_uri_attribute,
}
use streaming_video_app.Hls.Validate.{
  IoError, HlsError, invalid_playlist, Files, read, is_header, after_header, LineKind, blank, tag,
  media, line_kind, resolved, check_reference, add_segment, check_line, check_lines, is_non_empty,
  validate_hls_output,
}

-- The references to media among the lines.
abbrev keep_media : LineKind → Text → List Text → List Text
keep_media media reference rest = reference ∷ rest
keep_media _ reference rest = rest

unfoldable pub media_lines : List Text → List Text
media_lines [] = []
media_lines (line ∷ rest) = keep_media (line_kind (trim line)) (trim line) (media_lines rest)

abbrev names_from : ℕ → ℕ → List Text
names_from from zero = []
names_from from (suc n) = segment_name from ∷ names_from (suc from) n

-- The first so many names of segments, in order.
abbrev pub segment_names : ℕ → List Text
segment_names n = names_from 0 n

module _ (files : Files) (work_directory root : Text) where
  -- A file below the directory.
  abbrev pub IsContained : Text → Type 0
  IsContained file = (path_starts_with root file ≡ true) × (files.is_file file ≡ true)

  abbrev Fits : ℕ → List Text → List Text → Type 0
  Fits expected found segments =
      (found ≡ names_from expected (length segments)) × All IsContained segments

  abbrev IsReference : ℕ → Text → Text → Type 0
  IsReference expected reference file = (reference ≡ segment_name expected) × IsContained file

  abbrev refuse : String → Text → HlsError
  refuse reason text = invalid_playlist (codes reason ++ files.debug text)

  check_reference-IsReference :
      (expected : ℕ) (reference : Text)
      → OnOk
          (IsReference expected reference)
          (check_reference files work_directory root expected reference)
  unfolding check_reference
  check_reference-IsReference expected reference =
      OnOk-test Q (not (is_unsafe_path reference))
        (refuse "media reference is not a safe relative path: " reference) _
        (λ _.
          OnOk-test Q (is_segment_filename reference)
            (refuse "unexpected media filename: " reference) _
            (λ _.
              OnOk-test Q (text_eq reference (segment_name expected))
                (refuse "expected media segment " (segment_name expected)) _
                (λ same.
                  OnOk-bind (λ _. Unit {0}) Q
                    (resolved files work_directory root reference
                      (files.canonicalize (join work_directory reference)))
                    _
                    (OnOk-trivial (
                      resolved files work_directory root reference
                        (files.canonicalize (join work_directory reference))))
                    (λ file _.
                      OnOk-test Q (path_starts_with root file)
                        (refuse "media reference escapes work directory: " reference) _
                        (λ below.
                          OnOk-test Q (files.is_file file)
                            (refuse "media reference is not a file: " reference) _
                            (λ real. (
                              text_eq_sound reference (segment_name expected) same,
                              (below, real),
                            )))))))
    where
      Q : Text → Type 0
      Q = IsReference expected reference

  check_line-Fits :
      (kind : LineKind) (reference : Text) (expected : ℕ) (found : List Text)
      (later : ℕ → Result HlsError (List Text))
      → ((n : ℕ) → OnOk (Fits n found) (later n))
      → OnOk
          (Fits expected (keep_media kind reference found))
          (check_line files work_directory root kind reference expected later)
  unfolding check_line
  check_line-Fits blank reference expected found later h = h expected
  check_line-Fits tag reference expected found later h =
      OnOk-test (Fits expected found) (not (tag_has_uri_attribute reference))
        (invalid_playlist (codes "unsupported URI-bearing tag: " ++ files.debug reference)) _
        (λ _. h expected)
  check_line-Fits media reference expected found later h =
      OnOk-bind (IsReference expected reference) (Fits expected (reference ∷ found))
        (check_reference files work_directory root expected reference) _
        (check_reference-IsReference expected reference)
        (λ file r. added file r (later (suc expected)) (h (suc expected)))
    where
      added :
          (file : Text)
          → IsReference expected reference file
          → (rest : Result HlsError (List Text)) → OnOk (Fits (suc expected) found) rest
          → OnOk
              (Fits expected (reference ∷ found))
              (add_segment files work_directory root file rest)
      added file r (ok segments) h = (cc, (r.1, h.1))
      added file r (err e) h = tt

  check_lines-Fits :
      (rest : List Text) (expected : ℕ)
      → OnOk
          (Fits expected (media_lines rest))
          (check_lines files work_directory root rest expected)
  unfolding check_lines media_lines
  check_lines-Fits [] expected = (refl, tt)
  check_lines-Fits (line ∷ rest) expected =
      check_line-Fits (line_kind (trim line)) (trim line) expected (media_lines rest) _
        (check_lines-Fits rest)

read-ok {ℓ} : {A : Type ℓ} (r : Result IoError A) → OnOk (λ a. r ≡ ok a) (read r)
read-ok (ok a) = refl
read-ok (err e) = tt

abbrev pub IsValidOutput : Files → Text → HlsOutput → Type 0
IsValidOutput files work_directory output =
    (root playlist_text : Text) × (files.canonicalize work_directory ≡ ok root)
    × (files.read_to_string output.playlist ≡ ok playlist_text)
    × (is_header (lines playlist_text) ≡ true)
    × (media_lines (after_header (lines playlist_text)) ≡ segment_names (length output.segments))
    × (is_non_empty output.segments ≡ true)
    × All (IsContained files work_directory root) output.segments

module _ (files : Files) (work_directory : Text) where
  abbrev playlist : Text
  playlist = join work_directory (codes "index.m3u8")

  abbrev Q : HlsOutput → Type 0
  Q = IsValidOutput files work_directory

  by_checks : OnOk Q (validate_hls_output files work_directory)
  unfolding validate_hls_output
  by_checks =
      OnOk-bind (λ root. files.canonicalize work_directory ≡ ok root) Q
        (read (files.canonicalize work_directory)) _ (read-ok (files.canonicalize work_directory))
        (λ root r.
          OnOk-bind (λ text. files.read_to_string playlist ≡ ok text) Q
            (read (files.read_to_string playlist)) _ (read-ok (files.read_to_string playlist))
            (λ text t.
              OnOk-test Q (is_header (lines text))
                (invalid_playlist (codes "playlist must start with #EXTM3U")) _
                (λ header.
                  OnOk-bind
                    (Fits files work_directory root 0 (media_lines (after_header (lines text)))) Q
                    (check_lines files work_directory root (after_header (lines text)) 0) _
                    (check_lines-Fits files work_directory root (after_header (lines text)) 0)
                    (λ segments fits.
                      OnOk-test Q (is_non_empty segments)
                        (invalid_playlist (codes "playlist contains no media segments")) _
                        (λ has_one. (root, text, r, t, header, fits.0, has_one, fits.1))))))

  -- A playlist that passes the validation of a directory starts with its header; the references to
  -- media in it are the segments' names from the first on, in order, and there is one at least; and
  -- each file of the output lies below the directory and is a file.
  pub validate_hls_output-IsValidOutput :
      (output : HlsOutput)
      → validate_hls_output files work_directory ≡ ok output
      → IsValidOutput files work_directory output
  validate_hls_output-IsValidOutput output e =
      OnOk-at (IsValidOutput files work_directory) (validate_hls_output files work_directory) output
        e by_checks
