-- ===== src/Heartbeat/Watchdog.antt =====
-- What the watchdog (worker/src/heartbeat.rs) guarantees.
use streaming_video_app.Prelude.{
  ℕ, ◌≤◌, ◌<◌, Text, ◌≡◌, refl, ◌⊎◌, inl, inr, Bool, true, false, Option, none, some, List, [], ◌∷◌,
  leb, arith, Result, ok, Bool-cases, ap, sym,
}
use streaming_video_app.Acquisition.Types.{AcquiredJob}
use streaming_video_app.Heartbeat.Deadlines.{
  HeartbeatLoss, lease_deadline_exceeded, visibility_deadline_exceeded, OwnershipDeadlines, sooner,
  min_active, or_visibility, earliest, Turn, accept, after_select, before_deadline,
}

-- The instant is before the lease of every active job.
abbrev pub IsBeforeLeases : ℕ → List AcquiredJob → List ℕ → List Bool → Type 0
IsBeforeLeases at (job ∷ jobs) (lease ∷ leases) (true ∷ active) =
    (at < lease) × IsBeforeLeases at jobs leases active
IsBeforeLeases at (job ∷ jobs) (lease ∷ leases) (false ∷ active) =
    IsBeforeLeases at jobs leases active
IsBeforeLeases at _ _ _ = Unit

-- Some active job has this identifier and this lease.
abbrev pub HasLease : Text → ℕ → List AcquiredJob → List ℕ → List Bool → Type 0
HasLease job_id at (job ∷ jobs) (lease ∷ leases) (true ∷ active) =
    ((job.item.job_id ≡ job_id) × (lease ≡ at)) ⊎ HasLease job_id at jobs leases active
HasLease job_id at (job ∷ jobs) (lease ∷ leases) (false ∷ active) =
    HasLease job_id at jobs leases active
HasLease job_id at _ _ _ = ⊥

abbrev IsBefore : ℕ → Option (ℕ × Text) → Type 0
IsBefore at none = Unit
IsBefore at (some (lease, job_id)) = at < lease

sooner-IsBefore :
    (at : ℕ) (job_id : Text) (lease : ℕ) (o : Option (ℕ × Text))
    → IsBefore at (sooner job_id lease o)
    → (at < lease) × IsBefore at o
sooner-IsBefore at job_id lease none h = (h, tt)
sooner-IsBefore at job_id lease (some (other, other_id)) h = ground arith

min_active-IsBeforeLeases :
    (at : ℕ) (jobs : List AcquiredJob) (leases : List ℕ) (active : List Bool)
    → IsBefore at (min_active jobs leases active)
    → IsBeforeLeases at jobs leases active
unfolding min_active
min_active-IsBeforeLeases at (job ∷ jobs) (lease ∷ leases) (true ∷ active) h =
    let both = sooner-IsBefore at job.item.job_id lease (min_active jobs leases active) h in
    (both.0, min_active-IsBeforeLeases at jobs leases active both.1)
min_active-IsBeforeLeases at (job ∷ jobs) (lease ∷ leases) (false ∷ active) h =
    min_active-IsBeforeLeases at jobs leases active h
min_active-IsBeforeLeases at [] leases active h = tt
min_active-IsBeforeLeases at (job ∷ jobs) [] active h = tt
min_active-IsBeforeLeases at (job ∷ jobs) (lease ∷ leases) [] h = tt

or_visibility-IsBefore :
    (at visibility : ℕ) (o : Option (ℕ × Text))
    → at < (or_visibility visibility o).0
    → (at < visibility) × IsBefore at o
or_visibility-IsBefore at visibility none h = (h, tt)
or_visibility-IsBefore at visibility (some (lease, job_id)) h = ground arith

before_earliest :
    (at : ℕ) (deadlines : OwnershipDeadlines) (acquired : List AcquiredJob) (active : List Bool)
    → at < (earliest deadlines acquired active).0
    → (at < deadlines.visibility) × IsBeforeLeases at acquired deadlines.leases active
unfolding earliest
before_earliest at deadlines acquired active h =
    let both =
      or_visibility-IsBefore at deadlines.visibility (min_active acquired deadlines.leases active)
        h in
    (both.0, min_active-IsBeforeLeases at acquired deadlines.leases active both.1)

some-injective : {A : Type 0} {a b : A} → some a ≡ some b → a ≡ b
some-injective h = cc

module _ {A : Type 0} (deadlines : OwnershipDeadlines) (acquired : List AcquiredJob) (a : A) where
  -- The turn ended with that value before the visibility's deadline and every active lease's.
  abbrev pub EndsInTime : Option (ℕ × (List Bool × Result HeartbeatLoss A)) → Type 0
  EndsInTime none = ⊥
  EndsInTime (some (at, (active, result))) =
      (result ≡ ok a)
      × ((at < deadlines.visibility) × IsBeforeLeases at acquired deadlines.leases active)

  -- Some turn did.
  abbrev pub IsAcceptedInTime : List (Turn A) → Type 0
  IsAcceptedInTime [] = ⊥
  IsAcceptedInTime (turn ∷ turns) = EndsInTime turn.completion ⊎ IsAcceptedInTime turns

  accept_in_time :
      (at : ℕ) (active : List Bool) (result : Result HeartbeatLoss A)
      → accept deadlines acquired at active result ≡ ok a
      → (result ≡ ok a) × (at < (earliest deadlines acquired active).0)
  accept_in_time at active result h =
      elim (Bool-cases (leb (earliest deadlines acquired active).0 at)) [
        | inl e ↦ ground arith
        | inr e ↦ ground arith
      ]

  select_in_time :
      (completion : Option (ℕ × (List Bool × Result HeartbeatLoss A))) (turns : List (Turn A))
      (rest : Option (Result HeartbeatLoss A))
      → (rest ≡ some (ok a) → IsAcceptedInTime turns)
      → after_select deadlines acquired completion rest ≡ some (ok a)
      → EndsInTime completion ⊎ IsAcceptedInTime turns
  select_in_time none turns rest ih h = inr (ih h)
  select_in_time (some (at, (active, result))) turns rest ih h =
      let accepted = accept_in_time at active result (some-injective h) in
      inl (accepted.0, before_earliest at deadlines acquired active accepted.1)

  -- If the watchdog accepts a result, the operation ended with it in one of the turns, before the
  -- visibility's deadline and before the deadline of every lease whose job was active then.
  pub before_deadline-IsAcceptedInTime :
      (turns : List (Turn A))
      → before_deadline deadlines acquired turns ≡ some (ok a)
      → IsAcceptedInTime turns
  unfolding before_deadline
  before_deadline-IsAcceptedInTime [] h = cc
  before_deadline-IsAcceptedInTime (turn ∷ turns) h =
      select_in_time turn.completion turns (before_deadline deadlines acquired turns)
        (before_deadline-IsAcceptedInTime turns) (ground arith)

HasLease-sooner :
    (job_id : Text) (lease : ℕ) (o : Option (ℕ × Text)) (result : ℕ × Text)
    → sooner job_id lease o ≡ some result
    → (result ≡ (lease, job_id)) ⊎ (o ≡ some result)
HasLease-sooner job_id lease none result h = inl (ground arith)
HasLease-sooner job_id lease (some other) result h = ground arith

min_active-HasLease :
    (at : ℕ) (id : Text) (jobs : List AcquiredJob) (leases : List ℕ) (active : List Bool)
    → min_active jobs leases active ≡ some (at, id)
    → HasLease id at jobs leases active
unfolding min_active
min_active-HasLease at id (job ∷ jobs) (lease ∷ leases) (true ∷ active) h =
    elim (HasLease-sooner job.item.job_id lease (min_active jobs leases active) (at, id) h) [
      | inl e ↦ inl (ap (λ (r : ℕ × Text). r.1) (sym e), ap (λ (r : ℕ × Text). r.0) (sym e))
      | inr e ↦ inr (min_active-HasLease at id jobs leases active e)
    ]
min_active-HasLease at id (job ∷ jobs) (lease ∷ leases) (false ∷ active) h =
    min_active-HasLease at id jobs leases active h
min_active-HasLease at id [] leases active h = cc
min_active-HasLease at id (job ∷ jobs) [] active h = cc
min_active-HasLease at id (job ∷ jobs) (lease ∷ leases) [] h = cc

-- What the earliest deadline is: an active job's lease that comes no later than the visibility's
-- deadline, or that deadline.
abbrev pub IsDeadline :
    OwnershipDeadlines → List AcquiredJob → List Bool → ℕ × HeartbeatLoss → Type 0
IsDeadline deadlines acquired active (at, lease_deadline_exceeded id) =
    HasLease id at acquired deadlines.leases active × (at ≤ deadlines.visibility)
IsDeadline deadlines acquired active (at, visibility_deadline_exceeded) = at ≡ deadlines.visibility
IsDeadline deadlines acquired active _ = ⊥

or_visibility-IsDeadline :
    (deadlines : OwnershipDeadlines) (acquired : List AcquiredJob) (active : List Bool)
    (o : Option (ℕ × Text))
    → ((at : ℕ) (id : Text) → o ≡ some (at, id) → HasLease id at acquired deadlines.leases active)
    → IsDeadline deadlines acquired active (or_visibility deadlines.visibility o)
or_visibility-IsDeadline deadlines acquired active none h = refl
or_visibility-IsDeadline deadlines acquired active (some (at, id)) h =
    elim (Bool-cases (leb at deadlines.visibility)) [
      | inl e ↦ rw e (h at id refl, ground arith)
      | inr e ↦ rw e refl
    ]

-- The earliest deadline is the visibility's or an active job's lease, and names which; and every
-- instant before it is before the visibility's deadline and the lease of every active job.
pub earliest-IsDeadline :
    (deadlines : OwnershipDeadlines) (acquired : List AcquiredJob) (active : List Bool)
    → IsDeadline deadlines acquired active (earliest deadlines acquired active)
      × ((at : ℕ)
          → at < (earliest deadlines acquired active).0
          → (at < deadlines.visibility) × IsBeforeLeases at acquired deadlines.leases active)
unfolding earliest
earliest-IsDeadline deadlines acquired active = (
  or_visibility-IsDeadline deadlines acquired active (min_active acquired deadlines.leases active)
      (λ at id e. min_active-HasLease at id acquired deadlines.leases active e),
  λ at h. before_earliest at deadlines acquired active h,
)
