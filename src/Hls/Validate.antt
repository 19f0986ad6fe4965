-- ===== src/Hls/Validate.antt =====
-- The validation of an encode's output (encoding/src/lib.rs).
use streaming_video_app.Prelude.{
  ℕ, ℤ, pos, negsuc, zero, suc, Text, codes, decimal, text_eq, Bool, true, false, not, List, [],
  ◌∷◌, ◌++◌, if◌then◌else◌, Result, ok, err, ◌>>=◌, ensure,
}
use streaming_video_app.Config.Parse.{trim, is_empty}
use streaming_video_app.Attempt.Effects.{HlsOutput}
use streaming_video_app.Hls.Lines.{
  lines, starts_with, segment_name, is_segment_filename, tag_has_uri_attribute, is_unsafe_path,
  join, path_starts_with,
}

pub data IoError : Type 0 where
  missing : Text → IoError
  other : Text → IoError

pub data HlsError : Type 0 where
  process : Text → HlsError
  failed : ℤ → HlsError
  filesystem : IoError → HlsError
  invalid_playlist : Text → HlsError

abbrev pub io_text : IoError → Text
io_text (missing reason) = reason
io_text (other reason) = reason

unfoldable pub status_text : ℤ → Text
unfolding decimal
status_text (pos n) = decimal n
status_text (negsuc n) = 45 ∷ decimal (suc n)

-- `Display`
unfoldable pub hls_error_text : HlsError → Text
hls_error_text (process reason) = codes "run ffmpeg: " ++ reason
hls_error_text (failed status) = codes "ffmpeg exited with status " ++ status_text status
hls_error_text (filesystem e) = codes "HLS output: " ++ io_text e
hls_error_text (invalid_playlist reason) = codes "invalid HLS playlist: " ++ reason

-- The file system, and the format `{:?}` of a text.
pub record Files : Type 0 where
  pub canonicalize : Text → Result IoError Text
  pub read_to_string : Text → Result IoError Text
  pub is_file : Text → Bool
  pub debug : Text → Text

abbrev pub read {ℓ} : {A : Type ℓ} → Result IoError A → Result HlsError A
read (ok a) = ok a
read (err e) = err (filesystem e)

abbrev pub check : Bool → Text → Result HlsError (Unit {0})
check test reason = ensure test (invalid_playlist reason)

-- `lines.next().map(str::trim) != Some("#EXTM3U")`
unfoldable pub is_header : List Text → Bool
unfolding trim
is_header [] = false
is_header (line ∷ rest) = text_eq (trim line) (codes "#EXTM3U")

abbrev pub after_header : List Text → List Text
after_header [] = []
after_header (line ∷ rest) = rest

pub data LineKind : Type 0 where
  blank tag media : LineKind

unfoldable pub line_kind : Text → LineKind
unfolding starts_with
line_kind reference =
    if is_empty reference then blank else if starts_with (codes "#") reference then tag else media

module _ (files : Files) (work_directory root : Text) where
  open files use {canonicalize, is_file, debug}

  abbrev pub resolved : Text → Result IoError Text → Result HlsError Text
  resolved reference (ok file) = ok file
  resolved reference (err (missing reason)) =
      err (invalid_playlist (codes "referenced segment is missing: " ++ debug reference))
  resolved reference (err (other reason)) = err (filesystem (other reason))

  unfoldable pub check_reference : ℕ → Text → Result HlsError Text
  unfolding is_unsafe_path is_segment_filename path_starts_with
  check_reference expected_segment reference = do
    _ ←
        check (not (is_unsafe_path reference))
          (codes "media reference is not a safe relative path: " ++ debug reference)
    _ ←
        check (is_segment_filename reference)
          (codes "unexpected media filename: " ++ debug reference)
    _ ←
        check (text_eq reference (segment_name expected_segment))
          (codes "expected media segment " ++ debug (segment_name expected_segment))
    file ← resolved reference (canonicalize (join work_directory reference))
    _ ←
        check (path_starts_with root file)
          (codes "media reference escapes work directory: " ++ debug reference)
    _ ← check (is_file file) (codes "media reference is not a file: " ++ debug reference)
    ok file

  abbrev pub add_segment : Text → Result HlsError (List Text) → Result HlsError (List Text)
  add_segment file (ok segments) = ok (file ∷ segments)
  add_segment file (err e) = err e

  unfoldable pub check_line :
      LineKind → Text → ℕ → (ℕ → Result HlsError (List Text)) → Result HlsError (List Text)
  unfolding tag_has_uri_attribute check_reference
  check_line blank reference expected later = later expected
  check_line tag reference expected later = do
    _ ←
        check (not (tag_has_uri_attribute reference))
          (codes "unsupported URI-bearing tag: " ++ debug reference)
    later expected
  check_line media reference expected later = do
    file ← check_reference expected reference
    add_segment file (later (suc expected))

  -- The loop over the lines, with `expected_segment`.
  unfoldable pub check_lines : List Text → ℕ → Result HlsError (List Text)
  unfolding trim line_kind check_line
  check_lines [] expected = ok []
  check_lines (raw_line ∷ later) expected =
      check_line (line_kind (trim raw_line)) (trim raw_line) expected (check_lines later)

abbrev pub is_non_empty {ℓ} : {A : Type ℓ} → List A → Bool
is_non_empty [] = false
is_non_empty (a ∷ rest) = true

unfoldable pub validate_hls_output : Files → Text → Result HlsError HlsOutput
unfolding lines check_lines
validate_hls_output files work_directory = do
  root ← read (files.canonicalize work_directory)
  playlist_text ← read (files.read_to_string (join work_directory (codes "index.m3u8")))
  _ ← check (is_header (lines playlist_text)) (codes "playlist must start with #EXTM3U")
  segments ← check_lines files work_directory root (after_header (lines playlist_text)) 0
  _ ← check (is_non_empty segments) (codes "playlist contains no media segments")
  ok (record { playlist = join work_directory (codes "index.m3u8"); segments = segments })

-- The arguments of the command that encodes, after the executable's path.
unfoldable pub encode_arguments : Text → List Text
encode_arguments work_directory =
    codes "-y"
    ∷ codes "-i"
    ∷ join work_directory (codes "source.mp4")
    ∷ codes "-c:v"
    ∷ codes "libx264"
    ∷ codes "-c:a"
    ∷ codes "aac"
    ∷ codes "-f"
    ∷ codes "hls"
    ∷ codes "-start_number"
    ∷ codes "0"
    ∷ codes "-hls_time"
    ∷ codes "6"
    ∷ codes "-hls_playlist_type"
    ∷ codes "vod"
    ∷ codes "-hls_segment_filename"
    ∷ join work_directory (codes "segment-%05d.ts")
    ∷ join work_directory (codes "index.m3u8")
    ∷ []

unfoldable pub encoded : Files → Text → ℤ → Result HlsError HlsOutput
unfolding validate_hls_output
encoded files work_directory (pos zero) = validate_hls_output files work_directory
encoded files work_directory (pos (suc status)) = err (failed (pos (suc status)))
encoded files work_directory (negsuc status) = err (failed (negsuc status))

-- What the process answered: an error, or its status. The files are those that it left.
unfoldable pub encode_hls : Files → Text → (List Text → Result Text ℤ) → Result HlsError HlsOutput
unfolding encode_arguments encoded
encode_hls files work_directory execute = elim (execute (encode_arguments work_directory)) [
  | err e ↦ err (process e)
  | ok status ↦ encoded files work_directory status
]
