-- ===== src/Orchestration/Effects.antt =====
-- What an execution's bridge asks of the world and what it is answered (worker/src/orchestration.rs).
use streaming_video_app.Prelude.{
  ℕ, suc, ◌+◌, ◌-◌, ◌*◌, Text, Bool, true, false, Option, none, some, List, ◌∷◌, leb, if◌then◌else◌,
  Result, ok, err, min,
}
use streaming_video_app.Orchestration.Input.{
  OrchestrationError, ExecutionStatus, ExecutionInspection,
}

-- One entry for each observation, with its answer where a later one depends on it: `none` is an
-- await that the deadline cut off.
pub data Call : Type 0 where
  checked : Bool → Call  -- `lost`
  cancelled : Text → Call
  started : Text → Call
  inspected : Text → Call
  counted : Text → Call
  read_status : Text → Option (Result OrchestrationError ExecutionStatus) → Call
  waited : ℕ → Call  -- for at most so many milliseconds
  finalized : Call

-- The answers of the world, by the number of observations made before.
pub record World : Type 0 where
  pub gone : ℕ → Bool
  pub took : ℕ → ℕ  -- milliseconds
  pub cut_off : ℕ → Bool  -- did the deadline pass first?
  pub woken : ℕ → Option Bool  -- a change of a watch that ended a wait: is ownership lost?
  pub start : ℕ → Result OrchestrationError (Unit {0})
  pub inspect : ℕ → Result OrchestrationError ExecutionInspection
  pub status : ℕ → Result OrchestrationError ExecutionStatus
  pub residual_running_children : ℕ → Result OrchestrationError ℕ
  pub finalize : ℕ → Result OrchestrationError (Unit {0})

pub record State : Type 0 where
  pub clock : ℕ
  pub asked : ℕ
  pub log : List Call

abbrev pub M : Type 0 → Type 0
M A = State → A × State

abbrev pub pure : {A : Type 0} → A → M A
pure a s = (a, s)

infixl 5 ◌>>=◌ ◌>>◌
abbrev pub ◌>>=◌ : {A B : Type 0} → M A → (A → M B) → M B
◌>>=◌ m f s = f (m s).0 (m s).1

abbrev pub ◌>>◌ : {A B : Type 0} → M A → M B → M B
m >> k = m >>= λ _. k

-- `Instant::now() >= deadline`
abbrev pub is_past : ℕ → M Bool
is_past deadline s = (leb deadline s.clock, s)

abbrev pub max_poll_interval : ℕ
max_poll_interval = 5000

abbrev pub double : ℕ → ℕ
double delay = min (delay * 2) max_poll_interval

module _ (world : World) where
  abbrev pub after : Call → State → State
  after call s = record {
    clock = s.clock + world.took s.asked;
    asked = suc s.asked;
    log = call ∷ s.log;
  }

  unfoldable pub lost : M Bool
  lost s = (
    world.gone s.asked,
    record s { asked = suc s.asked; log = checked (world.gone s.asked) ∷ s.log },
  )

  -- `self.client.cancel(name).await`
  unfoldable pub cancel : Text → M (Unit {0})
  cancel name s = (tt, after (cancelled name) s)

  abbrev in_time : {A : Type 0} → Bool → A → Option A
  in_time true a = none
  in_time false a = some a

  -- The answer to an await under `timeout_at`, or `none` for its error.
  abbrev reply : {A : Type 0} → (ℕ → A) → State → Option A
  reply answer s = in_time (world.cut_off s.asked) (answer s.asked)

  unfoldable pub until_deadline : {A : Type 0} → (ℕ → A) → (Option A → Call) → M (Option A)
  until_deadline answer call s = (reply answer s, after (call (reply answer s)) s)

  -- The `select!` of a wait.
  unfoldable pub sleep : ℕ → ℕ → M (Option Bool)
  sleep delay deadline s = (world.woken s.asked, after (waited (min delay (deadline - s.clock))) s)

  abbrev pub check_after_wait : ℕ → M (Result OrchestrationError (Unit {0}))
  check_after_wait deadline = do
    gone ← lost
    past ← is_past deadline
    if gone
        then pure (err OrchestrationError.ownership_lost)
        else if past
        then pure (err OrchestrationError.timed_out)
        else pure (ok tt)

  abbrev pub woken_up : ℕ → Option Bool → M (Result OrchestrationError (Unit {0}))
  woken_up deadline (some true) = pure (err OrchestrationError.ownership_lost)
  woken_up deadline _ = check_after_wait deadline

  unfoldable pub wait_or_signal : ℕ → ℕ → M (Result OrchestrationError (Unit {0}))
  unfolding lost sleep
  wait_or_signal delay deadline = do
    gone ← lost
    past ← is_past deadline
    if gone
        then pure (err OrchestrationError.ownership_lost)
        else if past
        then pure (err OrchestrationError.timed_out)
        else (sleep delay deadline >>= woken_up deadline)
