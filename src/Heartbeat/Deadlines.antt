-- ===== src/Heartbeat/Deadlines.antt =====
-- The deadlines of the leases and of the visibility (worker/src/heartbeat.rs). An instant is a
-- number of milliseconds.
use streaming_video_app.Prelude.{
  ℕ, Text, Bool, true, false, Option, none, some, List, [], ◌∷◌, ltb, leb, if◌then◌else◌, Result,
  err,
}
use streaming_video_app.Persistence.Port.{PersistenceError}
use streaming_video_app.Acquisition.Types.{AcquiredJob}

-- `QueueError` by its text.
pub data HeartbeatLoss : Type 0 where
  lease_lost : Text → HeartbeatLoss
  database : PersistenceError → HeartbeatLoss
  visibility_failed : Text → HeartbeatLoss
  lease_deadline_exceeded : Text → HeartbeatLoss
  visibility_deadline_exceeded : HeartbeatLoss

-- `leases` and the jobs are lists of one length; so is what the flags `active` hold when they are
-- read, which other tasks change.
pub record OwnershipDeadlines : Type 0 where
  pub leases : List ℕ
  pub visibility : ℕ

abbrev pub sooner : Text → ℕ → Option (ℕ × Text) → Option (ℕ × Text)
sooner job_id lease none = some (lease, job_id)
sooner job_id lease (some (other, other_id)) =
    if ltb other lease then some (other, other_id) else some (lease, job_id)

-- `filter(active).min_by_key(…)`: the first of the smallest, with its job.
unfoldable pub min_active : List AcquiredJob → List ℕ → List Bool → Option (ℕ × Text)
min_active (job ∷ jobs) (lease ∷ leases) (true ∷ active) =
    sooner job.item.job_id lease (min_active jobs leases active)
min_active (job ∷ jobs) (lease ∷ leases) (false ∷ active) = min_active jobs leases active
min_active _ _ _ = none

abbrev pub or_visibility : ℕ → Option (ℕ × Text) → ℕ × HeartbeatLoss
or_visibility visibility none = (visibility, visibility_deadline_exceeded)
or_visibility visibility (some (lease, job_id)) =
    if leb lease visibility
    then (lease, lease_deadline_exceeded job_id)
    else (visibility, visibility_deadline_exceeded)

unfoldable pub earliest : OwnershipDeadlines → List AcquiredJob → List Bool → ℕ × HeartbeatLoss
unfolding min_active
earliest deadlines acquired active =
    or_visibility deadlines.visibility (min_active acquired deadlines.leases active)

-- One turn of the loop of `before_deadline`: when it starts, the flags then, and, where the
-- operation ends before the sleep, when, with the flags then and its result.
pub record Turn (A : Type 0) : Type 0 where
  pub now : ℕ
  pub active : List Bool
  pub completion : Option (ℕ × (List Bool × Result HeartbeatLoss A))

module _ {A : Type 0} (deadlines : OwnershipDeadlines) (acquired : List AcquiredJob) where
  abbrev pub accept : ℕ → List Bool → Result HeartbeatLoss A → Result HeartbeatLoss A
  accept at active result =
      if leb (earliest deadlines acquired active).0 at
      then err (earliest deadlines acquired active).1
      else result

  abbrev pub after_select :
      Option (ℕ × (List Bool × Result HeartbeatLoss A))
      → Option (Result HeartbeatLoss A)
      → Option (Result HeartbeatLoss A)
  after_select none rest = rest
  after_select (some (at, (active, result))) rest = some (accept at active result)

  -- The turns that happen; `none` while the operation is pending.
  unfoldable pub before_deadline : List (Turn A) → Option (Result HeartbeatLoss A)
  unfolding earliest
  before_deadline [] = none
  before_deadline (turn ∷ turns) =
      let rest = before_deadline turns in
      if leb (earliest deadlines acquired turn.active).0 turn.now
      then some (err (earliest deadlines acquired turn.active).1)
      else after_select turn.completion rest
