-- ===== src/Heartbeat/Task.antt =====
-- The task of a heartbeat (`start_with_context` of worker/src/heartbeat.rs).
use streaming_video_app.Prelude.{
  ℕ, zero, suc, ◌*◌, ◌≤◌, ◌≡◌, refl, Bool, true, false, Option, none, some, List, [], ◌∷◌,
  get_elem?, if◌then◌else◌, Result, ok, err, sym, subst,
}
use streaming_video_app.Persistence.Table.{Job}
use streaming_video_app.Acquisition.Types.{AcquiredJob}
use streaming_video_app.Heartbeat.Deadlines.{
  HeartbeatLoss, OwnershipDeadlines, Turn, before_deadline,
}
use streaming_video_app.Heartbeat.Renewal.{
  Renewal, Extension, Pending, renew_tick, Rows, rows_after, IsCovered, IsTimely,
}
use streaming_video_app.Heartbeat.Coverage.{renew_tick-IsCovered}

-- One cycle: the jobs that retired since the last tick, whether the cancellation comes before the
-- next tick is due or while it runs, the turns of the watchdog while the task waits for the tick,
-- and the requests of the tick.
pub record Cycle : Type 0 where
  pub retired : ℕ → Bool
  pub cancelled_waiting : Bool
  pub turns : List (Turn (Unit {0}))
  pub cancelled_in_tick : Bool
  pub renewals : ℕ → Renewal
  pub extension : Extension

pub data Progress : Type 0 where
  waiting : Progress
  ended : Result HeartbeatLoss (Unit {0}) → Progress
  running : OwnershipDeadlines → Progress

abbrev pub after_tick : Bool → Pending OwnershipDeadlines → Progress
after_tick true tick = ended (ok tt)
after_tick false none = waiting
after_tick false (some (err loss)) = ended (err loss)
after_tick false (some (ok deadlines)) = running deadlines

abbrev pub after_wait : Bool → Pending (Unit {0}) → Progress → Progress
after_wait true wait tick = ended (ok tt)
after_wait false none tick = waiting
after_wait false (some (err loss)) tick = ended (err loss)
after_wait false (some (ok _)) tick = tick

abbrev pub and_go_on : Progress → (OwnershipDeadlines → Progress) → Progress
and_go_on waiting go = waiting
and_go_on (ended result) go = ended result
and_go_on (running deadlines) go = go deadlines

abbrev pub initial_leases : ℕ → List AcquiredJob → List ℕ
initial_leases lease [] = []
initial_leases lease (job ∷ jobs) = lease ∷ initial_leases lease jobs

abbrev pub for_some : List AcquiredJob → Progress → Option Progress
for_some [] progress = none
for_some (job ∷ jobs) progress = some progress

started_running :
    (jobs : List AcquiredJob) (progress progress' : Progress)
    → for_some jobs progress ≡ some progress'
    → progress ≡ progress'
started_running [] p p' e = absurd cc
started_running (job ∷ jobs) p p' e = cc

after_tick-running :
    (cancelled : Bool) (tick : Pending OwnershipDeadlines) (deadlines : OwnershipDeadlines)
    → after_tick cancelled tick ≡ running deadlines
    → tick ≡ some (ok deadlines)
after_tick-running true tick d e = absurd cc
after_tick-running false none d e = absurd cc
after_tick-running false (some (err loss)) d e = absurd cc
after_tick-running false (some (ok d')) d e = cc

after_wait-running :
    (cancelled : Bool) (wait : Pending (Unit {0})) (tick : Progress)
    (deadlines : OwnershipDeadlines)
    → after_wait cancelled wait tick ≡ running deadlines
    → tick ≡ running deadlines
after_wait-running true wait tick d e = absurd cc
after_wait-running false none tick d e = absurd cc
after_wait-running false (some (err loss)) tick d e = absurd cc
after_wait-running false (some (ok _)) tick d e = e

and_go_on-running :
    (progress : Progress) (go : OwnershipDeadlines → Progress) (deadlines : OwnershipDeadlines)
    → and_go_on progress go ≡ running deadlines
    → (between : OwnershipDeadlines) × (progress ≡ running between)
      × (go between ≡ running deadlines)
and_go_on-running waiting go d e = absurd cc
and_go_on-running (ended result) go d e = absurd cc
and_go_on-running (running between) go d e = (between, refl, e)

get_elem?-initial_leases :
    (lease : ℕ) (jobs : List AcquiredJob) (i d : ℕ)
    → get_elem? (initial_leases lease jobs) i ≡ some d
    → d ≡ lease
get_elem?-initial_leases lease [] i d h = absurd cc
get_elem?-initial_leases lease (job ∷ jobs) zero d h = cc
get_elem?-initial_leases lease (job ∷ jobs) (suc i) d h = get_elem?-initial_leases lease jobs i d h

same_running : (d d' : OwnershipDeadlines) → running d ≡ running d' → d ≡ d'
same_running d d' e = cc

module _ (acquired : List AcquiredJob) (lease_duration visibility_extension : ℕ) where
  unfoldable pub run_cycle : Cycle → OwnershipDeadlines → Progress
  unfolding before_deadline renew_tick
  run_cycle cycle deadlines =
      after_wait cycle.cancelled_waiting (before_deadline deadlines acquired cycle.turns) (
        after_tick cycle.cancelled_in_tick (
          renew_tick acquired lease_duration visibility_extension cycle.renewals cycle.extension
            deadlines))

  unfoldable pub run_cycles : List Cycle → OwnershipDeadlines → Progress
  unfolding run_cycle
  run_cycles [] deadlines = running deadlines
  run_cycles (cycle ∷ cycles) deadlines = and_go_on (run_cycle cycle deadlines) (run_cycles cycles)

  -- The task from the deadlines of the acquisition on; none where there is no job.
  unfoldable pub start_with_context : ℕ → ℕ → List Cycle → Option Progress
  unfolding run_cycles
  start_with_context lease visibility cycles = for_some acquired (
      run_cycles cycles
        (record { leases = initial_leases lease acquired; visibility = visibility }))

  abbrev pub without_retired :
      (ℕ → Bool) → Rows acquired lease_duration → Rows acquired lease_duration
  without_retired retired rows = λ i. if retired i then none else rows i

  abbrev pub rows_through : List Cycle → Rows acquired lease_duration → Rows acquired lease_duration
  rows_through [] rows = rows
  rows_through (cycle ∷ cycles) rows = rows_through cycles (
      rows_after acquired lease_duration acquired 0 cycle.renewals
        (without_retired cycle.retired rows))

  abbrev pub AreTimely : List Cycle → Type 0
  AreTimely [] = Unit
  AreTimely (cycle ∷ cycles) = IsTimely acquired lease_duration cycle.renewals × AreTimely cycles

  retired_row :
      {A : Type 0} (b : Bool) (o : Option A) (a : A) → (if b then none else o) ≡ some a → o ≡ some a
  retired_row true o a e = absurd cc
  retired_row false o a e = e

  without_retired-IsCovered :
      (retired : ℕ → Bool) (rows : Rows acquired lease_duration) (deadlines : OwnershipDeadlines)
      → IsCovered acquired lease_duration rows deadlines
      → IsCovered acquired lease_duration (without_retired retired rows) deadlines
  without_retired-IsCovered retired rows deadlines h i d expiry row hd hr he =
      h i d expiry row hd (retired_row (retired i) (rows i) row hr) he

  run_cycles-IsCovered :
      (cycles : List Cycle) (rows : Rows acquired lease_duration)
      (deadlines deadlines' : OwnershipDeadlines)
      → AreTimely cycles
      → IsCovered acquired lease_duration rows deadlines
      → run_cycles cycles deadlines ≡ running deadlines'
      → IsCovered acquired lease_duration (rows_through cycles rows) deadlines'
  unfolding run_cycles run_cycle
  run_cycles-IsCovered [] rows deadlines deadlines' timely h e =
      subst (IsCovered acquired lease_duration rows) (same_running deadlines deadlines' e) h
  run_cycles-IsCovered (cycle ∷ cycles) rows deadlines deadlines' timely h e =
      let first = and_go_on-running (run_cycle cycle deadlines) (run_cycles cycles) deadlines' e in
      let renewed = after_tick-running cycle.cancelled_in_tick _ first.0 (
        after_wait-running cycle.cancelled_waiting (before_deadline deadlines acquired cycle.turns)
          _ first.0 first.1) in
      run_cycles-IsCovered cycles _ first.0 deadlines' timely.1
        ((renew_tick-IsCovered acquired lease_duration visibility_extension cycle.renewals
          cycle.extension (without_retired cycle.retired rows) deadlines first.0 timely.0
          (without_retired-IsCovered cycle.retired rows deadlines h) renewed).0)
        first.2

  -- Where a heartbeat starts with a deadline that is covered by the lease in the row of every job, and
  -- each request that the database applies is applied no earlier than the instant noted before it,
  -- then, as long as the heartbeat runs, each of its deadlines for a lease is covered by the expiry
  -- in the row that is left to its owner.
  pub start_with_context-IsCovered :
      (lease visibility : ℕ) (cycles : List Cycle) (rows : Rows acquired lease_duration)
      (deadlines : OwnershipDeadlines)
      → AreTimely cycles
      → ((i expiry : ℕ) (row : Job)
          → rows i ≡ some row
          → row.lease_expires_at ≡ some expiry
          → lease ≤ expiry * 1000)
      → start_with_context lease visibility cycles ≡ some (running deadlines)
      → IsCovered acquired lease_duration (rows_through cycles rows) deadlines
  unfolding start_with_context
  start_with_context-IsCovered lease visibility cycles rows deadlines timely held e =
      run_cycles-IsCovered cycles rows
        (record { leases = initial_leases lease acquired; visibility = visibility }) deadlines
        timely
        (λ i d expiry row hd hr he.
          subst (λ x. x ≤ expiry * 1000) (sym (get_elem?-initial_leases lease acquired i d hd))
            (held i expiry row hr he))
        (started_running acquired _ (running deadlines) e)
