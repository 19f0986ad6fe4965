-- ===== src/Encoder/Effects.antt =====
-- What a child encoder asks of the world and what it is answered (worker/src/encoder.rs).
use streaming_video_app.Prelude.{ℕ, ℤ, Text, Option, List, ◌∷◌, length, Result, ok, err}
use streaming_video_app.Prelude.Logged.{Logged, and_then}
use streaming_video_app.Hls.Validate.{Files}
use streaming_video_app.Finalizer.Types.{ObjectDescriptor}
use streaming_video_app.Encoder.Payload.{ChildPayload, EncoderError}
use streaming_video_app.Encoder.Media.{Probe}

pub record EncodedResult : Type 0 where
  pub payload : ChildPayload
  pub schema_version : ℕ
  pub media_playlist : ObjectDescriptor
  pub segments : List ObjectDescriptor
  pub width : ℕ
  pub height : ℕ
  pub bandwidth : ℕ
  pub codecs : Text

pub data Call : Type 0 where
  created_directory : Text → Call
  read_source : Text → Text → ℕ → Call
  wrote_file : Call
  probed : List Text → Call
  ran_encoder : List Text → Call
  read_file : Text → Call
  -- A bucket, a key, a type, the cache's control, and the contents.
  put : Text → Text → Text → Text → Text → Call

-- The answers of the world, by the number of calls before; the files are those that the encoder's
-- process leaves in its directory, and their sizes are what the file system tells.
pub record World : Type 0 where
  pub directory : ℕ → Result Text Text
  pub source : ℕ → Result Text Text
  pub write_file : ℕ → Result Text (Unit {0})
  pub run_probe : ℕ → Probe
  pub encode : ℕ → Result Text ℤ
  pub files : Files
  pub contents : ℕ → Result Text Text
  pub size_of : Text → Option ℕ
  pub upload : ℕ → Result Text (Unit {0})
  pub to_vec : EncodedResult → Result Text Text

abbrev pub M : Type 0 → Type 0
M A = Logged EncoderError Call A

infixl 5 ◌>>=◌
abbrev pub ◌>>=◌ : {A B : Type 0} → M A → (A → M B) → M B
m >>= f = and_then m f

abbrev pub pure : {A : Type 0} → A → M A
pure a log = (ok a, log)

-- A check without an effect.
abbrev pub lift : {A : Type 0} → Result EncoderError A → M A
lift r log = (r, log)

abbrev pub as_error : {A : Type 0} → (Text → EncoderError) → Result Text A → Result EncoderError A
as_error f (ok a) = ok a
as_error f (err reason) = err (f reason)

abbrev pub ask : {A : Type 0} → (Text → EncoderError) → Call → (ℕ → Result Text A) → M A
ask f call answer log = (as_error f (answer (length log)), call ∷ log)

-- An ffprobe, and what is read of its answer.
abbrev pub ask_probe :
    {A : Type 0} → (ℕ → Probe) → List Text → (Probe → Result EncoderError A) → M A
ask_probe answer command read log = (read (answer (length log)), probed command ∷ log)
