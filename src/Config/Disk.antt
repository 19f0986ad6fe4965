-- ===== src/Config/Disk.antt =====
-- The shared disk budget under any sequence of reservations and releases.
use streaming_video_app.Prelude.{
  ℕ, zero, suc, ◌+◌, ◌≤◌, ◌<◌, ◌≡◌, none, some, List, [], ◌∷◌, arith, ◌↔◌,
}
use streaming_video_app.Config.Parse.{u64_max}
use streaming_video_app.Config.Limits.{
  Limits, DiskBudget, reserve_available, drop_reservation, release,
}

pub data Event : Type 0 where
  reserve : ℕ → Limits → Event
  drop : ℕ → Event

-- A refused reservation leaves the budget as it was.
unfoldable pub apply_event : Event → DiskBudget → DiskBudget
unfolding reserve_available drop_reservation
apply_event (reserve available limits) budget = elim (reserve_available available limits budget) [
  | none ↦ budget
  | some after ↦ after
]
apply_event (drop i) budget = drop_reservation i budget

unfoldable pub run_events : List Event → DiskBudget → DiskBudget
unfolding apply_event
run_events [] budget = budget
run_events (event ∷ events) budget = run_events events (apply_event event budget)

abbrev pub total : List ℕ → ℕ
total [] = 0
total (bytes ∷ rest) = bytes + total rest

release-total : (xs : List ℕ) (i : ℕ) → total (release xs i).0 + (release xs i).1 ≡ total xs
release-total [] i = omega arith
release-total (bytes ∷ rest) zero = omega arith
release-total (bytes ∷ rest) (suc i) = omega (arith, release-total rest i)

apply_event-total :
    (event : Event) (budget : DiskBudget)
    → budget.reserved ≡ total budget.reservations
    → (apply_event event budget).reserved ≡ total (apply_event event budget).reservations
unfolding apply_event reserve_available drop_reservation
apply_event-total (reserve available limits) budget h = ground arith
apply_event-total (drop i) budget h = omega (arith, h, release-total budget.reservations i)

-- If the reserved bytes are the sum of the reservations that are alive, they are so after any
-- sequence of reservations, granted or refused, and releases.
pub run_events-total :
    (events : List Event) (budget : DiskBudget)
    → budget.reserved ≡ total budget.reservations
    → (run_events events budget).reserved ≡ total (run_events events budget).reservations
unfolding run_events
run_events-total [] budget h = h
run_events-total (event ∷ events) budget h =
    run_events-total events (apply_event event budget) (apply_event-total event budget h)

-- If the available space is below the largest 64-bit number, a reservation is granted exactly if
-- the space still covers all reserved bytes, the job's own and the reserve.
pub reserve_available-fits :
    (available : ℕ) (limits : Limits) (budget : DiskBudget)
    → available < u64_max
    → ((after : DiskBudget) × (reserve_available available limits budget ≡ some after))
      ↔ (budget.reserved + limits.temporary_bytes + limits.disk_reserve_bytes ≤ available)
unfolding reserve_available
reserve_available-fits available limits budget h = (
  λ e. ground (arith, e.1),
  λ b. (
    record {
      reserved = budget.reserved + limits.temporary_bytes;
      reservations = limits.temporary_bytes ∷ budget.reservations;
    },
    ground arith,
  ),
)
