-- ===== src/Examples/Deadlines.antt =====
-- Two leases and a visibility timeout (worker/src/heartbeat.rs).
use streaming_video_app.Prelude.{
  ℕ, ◌<◌, ◌≤◌, ◌+◌, ◌*◌, ◌≡◌, refl, true, false, none, some, List, [], ◌∷◌, ok, arith, zero, suc,
}
use streaming_video_app.Acquisition.Types.{AcquiredJob}
use streaming_video_app.Heartbeat.Deadlines.{
  OwnershipDeadlines, Turn, min_active, earliest, before_deadline,
}
use streaming_video_app.Heartbeat.Watchdog.{
  IsDeadline, IsBeforeLeases, earliest-IsDeadline, IsAcceptedInTime,
  before_deadline-IsAcceptedInTime,
}
use streaming_video_app.Heartbeat.Renewal.{
  Renewal, Extension, rows_after, renew_job, renew_jobs, extend_visibility, renew_tick, IsCovered,
  IsTimely,
}
use streaming_video_app.Heartbeat.Task.{
  Cycle, run_cycle, run_cycles, start_with_context, rows_through, start_with_context-IsCovered,
}
use streaming_video_app.Heartbeat.Coverage.{renew_tick-IsCovered}
use streaming_video_app.Persistence.Port.{applied}
use streaming_video_app.Persistence.Table.{Job}
use streaming_video_app.Examples.Table
use streaming_video_app.Examples.Attempts.{job}

abbrev deadlines : OwnershipDeadlines
deadlines = record { leases = 100 ∷ 50 ∷ []; visibility = 80 }

abbrev acquired : List AcquiredJob
acquired = job ∷ job ∷ []

-- The operation ends at 60, after the second job retired.
abbrev turns : List (Turn ℕ)
turns =
    record { now = 10; active = true ∷ true ∷ []; completion = none }
    ∷ record {
      now = 50;
      active = true ∷ false ∷ [];
      completion = some (60, (true ∷ false ∷ [], ok 7));
    }
    ∷ []

before_deadline-IsAcceptedInTime_example : IsAcceptedInTime deadlines acquired 7 turns
unfolding before_deadline earliest min_active
before_deadline-IsAcceptedInTime_example =
    before_deadline-IsAcceptedInTime deadlines acquired 7 turns refl

earliest-IsDeadline_example :
    IsDeadline deadlines acquired
      (true ∷ true ∷ [])
      (earliest deadlines acquired (true ∷ true ∷ []))
    × ((at : ℕ)
        → at < (earliest deadlines acquired (true ∷ true ∷ [])).0
        → (at < 80) × IsBeforeLeases at acquired (100 ∷ 50 ∷ []) (true ∷ true ∷ []))
earliest-IsDeadline_example = earliest-IsDeadline deadlines acquired (true ∷ true ∷ [])

-- A lease of 30 seconds until 31, renewed at 6.
abbrev row : Job
row = record Table.held { lease_expires_at = some 31 }

abbrev renewal : Renewal
renewal = record {
  active_before = true;
  started = 5000;
  turns =
      record { now = 5000; active = true ∷ []; completion = some (5200, (true ∷ [], ok applied)) }
      ∷ [];
  renewed_at = some 6;
}

abbrev extension : Extension
extension = record {
  started = 5300;
  turns =
      record { now = 5300; active = true ∷ []; completion = some (5400, (true ∷ [], ok tt)) } ∷ [];
}

abbrev held : OwnershipDeadlines
held = record { leases = 30000 ∷ []; visibility = 60000 }

held-IsCovered : IsCovered (job ∷ []) 30 (λ i. some row) held
held-IsCovered zero d expiry r hd hr he = ground arith
held-IsCovered (suc i) d expiry r hd hr he = absurd cc

renewal-IsTimely : IsTimely (job ∷ []) 30 (λ i. renewal)
renewal-IsTimely i now e = ground arith

renew_tick-IsCovered_example :
    IsCovered
      (job ∷ [])
      30
      (rows_after (job ∷ []) 30 (job ∷ []) 0 (λ i. renewal) (λ i. some row))
      (record { leases = 35000 ∷ []; visibility = 65300 })
    × (65300 ≡ 5300 + 60 * 1000)
unfolding renew_tick renew_jobs renew_job extend_visibility before_deadline
renew_tick-IsCovered_example =
    renew_tick-IsCovered (job ∷ []) 30 60 (λ i. renewal) extension (λ i. some row) held
      (record { leases = 35000 ∷ []; visibility = 65300 }) renewal-IsTimely held-IsCovered refl

abbrev cycle : Cycle
cycle = record {
  retired = λ i. false;
  cancelled_waiting = false;
  turns =
      record { now = 1000; active = true ∷ []; completion = some (4900, (true ∷ [], ok tt)) } ∷ [];
  cancelled_in_tick = false;
  renewals = λ i. renewal;
  extension = extension;
}

row-IsHeld :
    (i expiry : ℕ) (r : Job)
    → some row ≡ some r
    → r.lease_expires_at ≡ some expiry
    → 30000 ≤ expiry * 1000
row-IsHeld i expiry r hr he = ground arith

start_with_context-IsCovered_example :
    IsCovered
      (job ∷ [])
      30
      (rows_through (job ∷ []) 30 60 (cycle ∷ []) (λ i. some row))
      (record { leases = 35000 ∷ []; visibility = 65300 })
unfolding start_with_context run_cycles run_cycle renew_tick renew_jobs renew_job extend_visibility
    before_deadline
start_with_context-IsCovered_example =
    start_with_context-IsCovered (job ∷ []) 30 60 30000 60000 (cycle ∷ []) (λ i. some row)
      (record { leases = 35000 ∷ []; visibility = 65300 }) (renewal-IsTimely, tt) row-IsHeld refl
