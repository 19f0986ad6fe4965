-- ===== src/Attempt/Effects.antt =====
-- The effects of one owned attempt (worker/src/retry.rs, worker/src/publish.rs): what the attempt
-- asks of the world, in order, and what the world answers. Every await may also end the attempt.
use streaming_video_app.Prelude.{
  ℕ, suc, Text, Bool, true, false, Option, none, some, List, ◌∷◌, Result, ok, err,
}
use streaming_video_app.Persistence.Port.{PersistenceError, JobOperationOutcome}

-- `HlsOutput`: the playlist's path and the segments' paths.
pub record HlsOutput : Type 0 where
  pub playlist : Text
  pub segments : List Text

-- `std::io::Error`, `ObjectError`, `ProcessError` and `HlsError` by their texts.
pub data PublishError : Type 0 where
  filesystem : Text → PublishError
  storage : Text → PublishError
  invalid_segment_path : PublishError
  ownership_lost : PublishError

-- The failure text of an attempt; the source compares it with "ownership lost" only.
pub data Failure : Type 0 where
  ownership_lost : Failure
  create_work_directory : Text → Failure
  disk_reservation : Text → Failure
  wall_time_exceeded : Failure
  download_source : Text → Failure
  write_source : Text → Failure
  encode_hls : Text → Failure
  publish_hls : PublishError → Failure
  other : Text → Failure

-- One entry for each thing that the attempt observes or asks, the newest first.
pub data Call : Type 0 where
  checked : Bool → Call  -- the ownership watch was read: was ownership lost?
  locked : Call  -- a shared port was locked
  created_directory : Text → Call
  removed_directory : Call
  reserved_disk : Call
  read_object : Text → Text → ℕ → Call
  read_file : Text → Call
  wrote_file : Text → Call
  encoded : Text → Call
  wrote_object : Text → Text → Text → Text → Call  -- bucket, key, content type, contents
  completed_job : Text → Text → Text → Call  -- job, video, worker
  released_job : Text → Text → Text → ℕ → Call
  failed_job : Text → Text → Text → Failure → ℕ → Call
  retired : Call

-- An await that does not return: its task panics, or its future is dropped.
pub data Crash : Type 0 where
  panicked dropped : Crash

-- The answers of the world, by the number of observations made before.
pub record World : Type 0 where
  pub lost : ℕ → Bool
  pub crash : ℕ → Option Crash
  pub elapsed : ℕ → Bool  -- has the wall time of the pipeline run out?
  pub create_directory : ℕ → Result Text Text
  pub remove_directory : ℕ → Result Text (Unit {0})
  pub reserve : ℕ → Result Text (Unit {0})
  pub read_bounded : ℕ → Result Text Text
  pub read : ℕ → Result Text Text
  pub write_file : ℕ → Result Text (Unit {0})
  pub encode : ℕ → Result Text HlsOutput
  pub write : ℕ → Result Text (Unit {0})
  pub persist : ℕ → Result PersistenceError JobOperationOutcome

pub record Trace : Type 0 where
  pub tick : ℕ
  pub log : List Call

-- How an attempt ends other than by returning.
pub data Stop : Type 0 where
  timed_out : Stop
  crashed : Crash → Stop

abbrev pub M : Type 0 → Type 0
M A = Trace → Result Stop A × Trace

abbrev pub pure : {A : Type 0} → A → M A
pure a t = (ok a, t)

abbrev continue : {A B : Type 0} → Result Stop A × Trace → (A → M B) → Result Stop B × Trace
continue (ok a, t) f = f a t
continue (err e, t) f = (err e, t)

infixl 5 ◌>>=◌ ◌>>◌
abbrev pub ◌>>=◌ : {A B : Type 0} → M A → (A → M B) → M B
◌>>=◌ m f t = continue (m t) f

abbrev pub ◌>>◌ : {B : Type 0} → M (Unit {0}) → M B → M B
m >> k = m >>= λ _. k

abbrev pub record_call : Call → Trace → Trace
record_call call t = record t { tick = suc t.tick; log = call ∷ t.log }

-- Something that returns at once.
unfoldable pub observe : {A : Type 0} → (ℕ → A) → Call → M A
observe answer call t = (ok (answer t.tick), record_call call t)

abbrev answered : {A : Type 0} → Option Crash → A → Result Stop A
answered none a = ok a
answered (some c) a = err (crashed c)

-- An await outside the pipeline's timeout.
unfoldable pub await : {A : Type 0} → World → (ℕ → A) → Call → M A
await world answer call t = (answered (world.crash t.tick) (answer t.tick), record_call call t)

abbrev answered_in_time : {A : Type 0} → Bool → Option Crash → A → Result Stop A
answered_in_time true c a = err timed_out
answered_in_time false c a = answered c a

-- An await under the pipeline's timeout.
unfoldable pub timed_await : {A : Type 0} → World → (ℕ → A) → Call → M A
timed_await world answer call t = (
  answered_in_time (world.elapsed t.tick) (world.crash t.tick) (answer t.tick),
  record_call call t,
)

-- `*cancelled.borrow()`
unfoldable pub check_lost : World → M Bool
check_lost world t = (ok (world.lost t.tick), record_call (checked (world.lost t.tick)) t)

abbrev branch {ℓ} : {E A : Type 0} {X : Type ℓ} → (A → X) → (E → X) → Result E A → X
branch f g (ok a) = f a
branch f g (err e) = g e

-- `action.await?`, where the caller returns a `Result`.
infixl 5 ◌>>!◌
abbrev pub ◌>>!◌ : {E A B : Type 0} → M (Result E A) → (A → M (Result E B)) → M (Result E B)
m >>! f = m >>= branch f (λ e. pure (err e))
