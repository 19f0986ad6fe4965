-- ===== src/Encoder/Media.antt =====
-- What ffprobe tells of a media file (worker/src/encoder.rs).
use streaming_video_app.Prelude.{
  ℕ, ℤ, pos, negsuc, zero, suc, ◌+◌, ◌/◌, ◌%◌, Text, codes, decimal, text_eq, Bool, true, false,
  not, ◌||◌, Option, none, some, List, [], ◌∷◌, ◌++◌, leb, ltb, ◌==◌, Result, ok, err, ◌>>=◌,
  ensure, ok_or, if◌then◌else◌,
}
use streaming_video_app.Config.Parse.{parse_unsigned, u64_max}
use streaming_video_app.Encoder.Payload.{EncoderError, media}

-- `serde_json`: its reading of bytes, and a value's members.
pub record Documents : Type 1 where
  pub Json : Type 0
  pub from_slice : Text → Option Json
  pub get : Text → Json → Option Json
  pub as_array : Json → Option (List Json)
  pub as_str : Json → Option Text
  pub as_u64 : Json → Option ℕ
  pub as_i64 : Json → Option ℤ

-- An ffprobe that did not answer in time, that could not run, or its status and output.
pub data Probe : Type 0 where
  timed_out : Probe
  not_run : Text → Probe
  exited : ℤ → Text → Probe

abbrev pub reject : {A : Type 0} → Text → Result EncoderError A
reject reason = err (media reason)

abbrev pub must : {A : Type 0} → Option A → Text → Result EncoderError A
must o reason = ok_or o (media reason)

-- The arguments after the executable's path.
unfoldable pub probe_command : Text → List Text
probe_command path =
    codes "-v" ∷ codes "error" ∷ codes "-show_streams" ∷ codes "-of" ∷ codes "json" ∷ path ∷ []

abbrev pub bind_option : {A B : Type 0} → Option A → (A → Option B) → Option B
bind_option none f = none
bind_option (some a) f = f a

abbrev is_text : Option Text → Text → Bool
is_text none expected = false
is_text (some text) expected = text_eq text expected

-- Two digits in base 16.
abbrev hex_digit : ℕ → ℕ
hex_digit n = if ltb n 10 then 48 + n else 87 + n

abbrev pub hex : ℕ → Text
hex n = hex_digit (n / 16) ∷ hex_digit (n % 16) ∷ []

abbrev pub h264_profile : Text → Result EncoderError (ℕ × ℕ)
h264_profile profile =
    if text_eq profile (codes "Baseline")
    then ok (66, 0)
    else if text_eq profile (codes "Constrained Baseline")
    then ok (66, 64)
    else if text_eq profile (codes "Main")
    then ok (77, 0)
    else if text_eq profile (codes "Extended")
    then ok (88, 0)
    else if text_eq profile (codes "High")
    then ok (100, 0)
    else if text_eq profile (codes "Constrained High")
    then ok (100, 12)
    else if text_eq profile (codes "High 10")
    then ok (110, 0)
    else if text_eq profile (codes "High 4:2:2")
    then ok (122, 0)
    else if text_eq profile (codes "High 4:4:4") || text_eq profile (codes "High 4:4:4 Predictive")
    then ok (244, 0)
    else reject (codes "unsupported H.264 profile: " ++ profile)

abbrev pub aac_object_type : Text → Result EncoderError ℕ
aac_object_type profile =
    if text_eq profile (codes "Main")
    then ok 1
    else if text_eq profile (codes "LC")
    then ok 2
    else if text_eq profile (codes "SSR")
    then ok 3
    else if text_eq profile (codes "LTP")
    then ok 4
    else if text_eq profile (codes "HE-AAC") || text_eq profile (codes "HE AAC")
    then ok 5
    else if text_eq profile (codes "HE-AACv2") || text_eq profile (codes "HE AAC v2")
    then ok 29
    else reject (codes "unsupported AAC profile: " ++ profile)

abbrev or_lc : Option Text → Text
or_lc none = codes "LC"
or_lc (some profile) = profile

abbrev or_else_number : Option ℕ → Option ℕ → Option ℕ
or_else_number none other = other
or_else_number (some n) other = some n

abbrev non_negative : ℤ → Option ℕ
non_negative (pos n) = some n
non_negative (negsuc n) = none

module _ (documents : Documents) where
  open documents use {Json, from_slice, get, as_array, as_str, as_u64, as_i64}

  unfoldable pub ffprobe_json : Probe → Text → Result EncoderError Json
  ffprobe_json timed_out timeout_message = reject timeout_message
  ffprobe_json (not_run reason) timeout_message = reject reason
  ffprobe_json (exited (pos zero) stdout) timeout_message =
      must (from_slice stdout) (codes "invalid ffprobe output")
  ffprobe_json (exited (pos (suc status)) stdout) timeout_message =
      reject (codes "media is corrupt or unreadable")
  ffprobe_json (exited (negsuc status) stdout) timeout_message =
      reject (codes "media is corrupt or unreadable")

  unfoldable pub streams_of : Json → Result EncoderError (List Json)
  streams_of value =
      must (bind_option (get (codes "streams") value) as_array) (codes "source has no streams")

  abbrev pub has_type : Text → Json → Bool
  has_type name stream = is_text (bind_option (get (codes "codec_type") stream) as_str) name

  -- `iter().find(…)`
  abbrev pub find_stream : Text → List Json → Option Json
  find_stream name [] = none
  find_stream name (stream ∷ rest) =
      if has_type name stream then some stream else find_stream name rest

  abbrev pub is_found : Option Json → Bool
  is_found none = false
  is_found (some stream) = true

  -- A member as a `u32`.
  abbrev pub dimension : Text → Json → Text → Result EncoderError ℕ
  dimension name stream reason = do
    n ← must (bind_option (get name stream) as_u64) reason
    ok (n % 4294967296)

  abbrev pub is_even_and_positive : ℕ → ℕ → Bool
  is_even_and_positive width height =
      not (width == 0 || (height == 0 || (not (width % 2 == 0) || not (height % 2 == 0))))

  abbrev pub dimensions : Json → Text → Result EncoderError (ℕ × ℕ)
  dimensions video reason = do
    width ← dimension (codes "width") video (codes "video width missing")
    height ← dimension (codes "height") video (codes "video height missing")
    _ ← ensure (is_even_and_positive width height) (media reason)
    ok (width, height)

  -- Of the source: its width and height, and whether it has audio.
  unfoldable pub probe : Probe → Result EncoderError (ℕ × ℕ × Bool)
  unfolding ffprobe_json streams_of
  probe answer = do
    value ← ffprobe_json answer (codes "source probe timed out")
    streams ← streams_of value
    video ← must (find_stream (codes "video") streams) (codes "source has no video")
    size ← dimensions video (codes "source dimensions must be positive and even")
    ok (size.0, size.1, is_found (find_stream (codes "audio") streams))

  unfoldable pub number_of : Json → Option ℕ
  unfolding parse_unsigned
  number_of value = or_else_number (as_u64 value) (
      or_else_number (bind_option (as_i64 value) non_negative)
        (bind_option (as_str value) (parse_unsigned u64_max)))

  unfoldable pub stream_u8 : Json → Text → Result EncoderError ℕ
  stream_u8 stream field = do
    value ← must (get field stream) (field ++ codes " missing")
    number ← must (number_of value) (field ++ codes " missing")
    _ ← ensure (leb number 255) (media (field ++ codes " missing"))
    ok number

  unfoldable pub h264_avc1 : Json → Result EncoderError Text
  unfolding stream_u8
  h264_avc1 stream = do
    profile ←
        must (bind_option (get (codes "profile") stream) as_str) (codes "H.264 profile missing")
    level ← stream_u8 stream (codes "level")
    named ← h264_profile profile
    ok (codes "avc1." ++ (hex named.0 ++ (hex named.1 ++ hex level)))

  unfoldable pub aac_mp4a : Json → Result EncoderError Text
  unfolding decimal
  aac_mp4a stream = do
    object_type ← aac_object_type (or_lc (bind_option (get (codes "profile") stream) as_str))
    ok (codes "mp4a.40." ++ decimal object_type)

  unfoldable pub video_codec : Json → Option Text → Result EncoderError Text
  unfolding h264_avc1
  video_codec video none = reject (codes "encoded video codec missing")
  video_codec video (some name) =
      let named = h264_avc1 video in
      if text_eq name (codes "h264")
      then named
      else reject (codes "unsupported encoded video codec: " ++ name)

  unfoldable pub audio_codec : Json → Option Text → Result EncoderError Text
  unfolding aac_mp4a
  audio_codec audio none = reject (codes "encoded audio codec missing")
  audio_codec audio (some name) =
      let named = aac_mp4a audio in
      if text_eq name (codes "aac")
      then named
      else reject (codes "unsupported encoded audio codec: " ++ name)

  abbrev pub with_audio : Text → Option Json → Result EncoderError Text
  with_audio video none = ok video
  with_audio video (some stream) = do
    audio ← audio_codec stream (bind_option (get (codes "codec_name") stream) as_str)
    ok (video ++ (codes "," ++ audio))

  unfoldable pub rfc6381_codecs : List Json → Result EncoderError Text
  rfc6381_codecs streams = do
    stream ← must (find_stream (codes "video") streams) (codes "encoded output has no video")
    video ← video_codec stream (bind_option (get (codes "codec_name") stream) as_str)
    with_audio video (find_stream (codes "audio") streams)

  unfoldable pub encoded_codecs : Probe → Result EncoderError Text
  unfolding ffprobe_json streams_of rfc6381_codecs
  encoded_codecs answer = do
    value ← ffprobe_json answer (codes "encoded stream probe timed out")
    streams ← streams_of value
    rfc6381_codecs streams

  unfoldable pub encoded_media_from_probe : Json → Result EncoderError (ℕ × ℕ × Text)
  unfolding streams_of rfc6381_codecs
  encoded_media_from_probe value = do
    streams ← streams_of value
    video ← must (find_stream (codes "video") streams) (codes "encoded output has no video")
    size ← dimensions video (codes "encoded dimensions must be positive and even")
    codecs ← rfc6381_codecs streams
    ok (size.0, size.1, codecs)

  unfoldable pub probe_encoded_file : Probe → Result EncoderError (ℕ × ℕ × Text)
  unfolding ffprobe_json encoded_media_from_probe
  probe_encoded_file answer = do
    value ← ffprobe_json answer (codes "encoded stream probe timed out")
    encoded_media_from_probe value
