-- ===== src/Finalizer/Effects.antt =====
-- What the finalizer asks of the world and what it is answered (worker/src/finalizer.rs).
use streaming_video_app.Prelude.{ℕ, Text, Bool, true, false, ◌∷◌, length, Result, ok, err}
use streaming_video_app.Prelude.Logged.{Logged, and_then}
use streaming_video_app.Orchestration.Input.{OrchestrationError}
use streaming_video_app.Persistence.Port.{JobOperationOutcome}
use streaming_video_app.Finalizer.Types.{StoredObject, finalizer_error}

pub data Call : Type 0 where
  checked : Bool → Call  -- `*ownership.borrow()`
  created_directory : Call
  read_key : Text → Text → Call
  wrote_file : Text → Call
  probed : Text → Call
  -- A bucket, a key, a type, the cache's control, and the contents.
  published : Text → Text → Text → Text → Text → Call
  -- A job, a video, a worker, an attempt and a key.
  completed : Text → Text → Text → ℕ → Text → Call

-- The answers of the world, by the number of calls before.
pub record World : Type 0 where
  pub gone : ℕ → Bool
  pub tempdir : ℕ → Result Text (Unit {0})
  pub read : ℕ → Result Text Text
  pub read_object : ℕ → Result Text StoredObject
  pub write_file : ℕ → Result Text (Unit {0})
  pub probe_source : ℕ → Result Text (ℕ × ℕ)
  pub probe_encoded : ℕ → Result Text (ℕ × ℕ × Text)
  pub put : ℕ → Result Text (Unit {0})
  pub complete : ℕ → Result Text JobOperationOutcome

abbrev pub M : Type 0 → Type 0
M A = Logged OrchestrationError Call A

infixl 5 ◌>>=◌
abbrev pub ◌>>=◌ : {A B : Type 0} → M A → (A → M B) → M B
m >>= f = and_then m f

abbrev pub pure : {A : Type 0} → A → M A
pure a log = (ok a, log)

-- A check without an effect.
abbrev pub lift : {A : Type 0} → Result OrchestrationError A → M A
lift r log = (r, log)

-- An error's text becomes the finalizer's error.
abbrev pub or_finalizer : {A : Type 0} → Result Text A → Result OrchestrationError A
or_finalizer (ok a) = ok a
or_finalizer (err message) = err (finalizer_error message)

abbrev pub ask : {A : Type 0} → Call → (ℕ → Result Text A) → M A
ask call answer log = (or_finalizer (answer (length log)), call ∷ log)

abbrev pub unless_gone : Bool → Result OrchestrationError (Unit {0})
unless_gone true = err OrchestrationError.ownership_lost
unless_gone false = ok tt

-- `if *ownership.borrow() { return Err(OwnershipLost) }`
abbrev pub guard : World → M (Unit {0})
guard world log = (unless_gone (world.gone (length log)), checked (world.gone (length log)) ∷ log)
