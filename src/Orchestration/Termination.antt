-- ===== src/Orchestration/Termination.antt =====
-- Termination of a run (worker/src/orchestration.rs): its loops end because the deadline passes.
use streaming_video_app.Prelude.{
  ℕ, zero, suc, ◌+◌, ◌≤◌, ◌<◌, Text, ◌≡◌, refl, Bool, true, false, not, ◌&&◌, Option, none, some,
  Result, ok, err, arith, leb, length, if◌then◌else◌,
}
use streaming_video_app.Acquisition.Types.{AcquiredJob}
use streaming_video_app.Orchestration.Input.{
  OrchestrationError, ExecutionStatus, ExecutionInput, Formats, running, succeeded, has_failed,
  has_timed_out, child_bound_holds, validate,
}
use streaming_video_app.Orchestration.Effects.{
  World, State, M, double, lost, until_deadline, wait_or_signal, sleep, read_status, woken_up,
}
use streaming_video_app.Orchestration.Prior.{
  Outcome, observe_attempts, prior_attempts, wait_for_previous_bound, bound_answer, bound_turn,
  bound_loop, establish_previous_bound, continue_after, bound_wait_answer, fail_previous_bound,
}
use streaming_video_app.Orchestration.Run.{
  Again, poll, poll_turn, expire, finish, run_valid, run, start_or_attach, status_answer,
  waited_answer, then_poll, then_start, when_valid,
}
use streaming_video_app.Orchestration.Keeps.{IsKept, wait_or_signal-Keeps, observe_attempts-Keeps}

abbrev pub is_returned : Outcome → Bool
is_returned none = false
is_returned (some r) = true

-- One of three actions, the last of them before the deadline.
choose :
    (gone past : Bool) (x y z : M Outcome) (s : State)
    → is_returned (x s).0 ≡ true
    → is_returned (y s).0 ≡ true
    → (past ≡ false → is_returned (z s).0 ≡ true)
    → is_returned ((if gone then x else (if past then y else z)) s).0 ≡ true
choose true past x y z s hx hy hz = hx
choose false true x y z s hx hy hz = hy
choose false false x y z s hx hy hz = hz refl

module _ (world : World) (timed : (n : ℕ) → 1 ≤ world.took n) where
  -- The clock never goes back.
  clock_kept : (c : ℕ) → IsKept world (λ s. c ≤ s.clock)
  unfolding lost
  clock_kept c = record { keeps_lost = λ s h. h; keeps_call = λ call h s le. omega (arith, le) }

  after_woken :
      (c deadline : ℕ) (woken : Option Bool) (s : State)
      → c ≤ s.clock
      → c ≤ (woken_up world deadline woken s).1.clock
  unfolding lost
  after_woken c deadline woken s h = ground arith

  -- A wait that went through took time.
  wait_advances :
      (delay deadline : ℕ) (s : State)
      → (wait_or_signal world delay deadline s).0 ≡ ok tt
      → s.clock < (wait_or_signal world delay deadline s).1.clock
  unfolding wait_or_signal lost sleep
  wait_advances delay deadline s h = ground (arith, timed (suc s.asked))

  module _ (formats : Formats) (name : Text) (deadline : ℕ) where
    waited_returned :
        (c : ℕ) (e : Option OrchestrationError) (saw : Bool) (next : M Outcome)
        → ((s : State) → c < s.clock → is_returned (next s).0 ≡ true)
        → (r : Result OrchestrationError (Unit {0})) (s : State) → c < s.clock
        → is_returned (waited_answer formats world name e saw next r s).0 ≡ true
    waited_returned c e saw next h (ok u) s lt = h s lt
    waited_returned c e saw next h (err e') s lt = refl

    wait_later :
        (c delay : ℕ) (s : State)
        → c < s.clock
        → c < (wait_or_signal world delay deadline s).1.clock
    wait_later c delay s lt =
        (wait_or_signal-Keeps world (λ s. suc c ≤ s.clock) (clock_kept (suc c)) delay deadline).at s
          lt

    status_returned :
        (c delay : ℕ) (last : Option OrchestrationError) (saw : Bool) (again : Again)
        → ((d : ℕ) (e : Option OrchestrationError) (w : Bool) (s : State)
            → c < s.clock
            → is_returned (again d e w s).0 ≡ true)
        → (answer : Option (Result OrchestrationError ExecutionStatus)) (s : State) → c < s.clock
        → is_returned (status_answer formats world name deadline delay last saw again answer s).0
          ≡ true
    unfolding expire finish lost until_deadline
    status_returned c delay last saw again h none s lt = refl
    status_returned c delay last saw again h (some (ok running)) s lt =
        waited_returned c none true (again (double delay) none true) (h _ _ _)
          (wait_or_signal world delay deadline s).0 (wait_or_signal world delay deadline s).1
          (wait_later c delay s lt)
    status_returned c delay last saw again h (some (ok succeeded)) s lt = ground arith
    status_returned c delay last saw again h (some (ok has_failed)) s lt = refl
    status_returned c delay last saw again h (some (ok has_timed_out)) s lt = refl
    status_returned c delay last saw again h (some (err (OrchestrationError.describe reason))) s
          lt =
        let e = some (OrchestrationError.describe reason) in
        waited_returned c e saw (again (double delay) e saw) (h _ _ _)
          (wait_or_signal world delay deadline s).0 (wait_or_signal world delay deadline s).1
          (wait_later c delay s lt)
    status_returned c delay last saw again h (some (err OrchestrationError.permission)) s lt = refl
    status_returned c delay last saw again h (some (err OrchestrationError.failed)) s lt = refl
    status_returned c delay last saw again h (some (err OrchestrationError.timed_out)) s lt = refl
    status_returned c delay last saw again h (some (err OrchestrationError.ownership_lost)) s lt =
        refl
    status_returned c delay last saw again h (some (err (OrchestrationError.start reason))) s lt =
        refl
    status_returned c delay last saw again h (some (err (OrchestrationError.finalizer reason))) s
          lt =
        refl

    poll_turn_returned :
        (delay : ℕ) (last : Option OrchestrationError) (saw : Bool) (again : Again) (s : State)
        → ((d : ℕ) (e : Option OrchestrationError) (w : Bool) (s' : State)
            → s.clock < deadline
            → s.clock < s'.clock
            → is_returned (again d e w s').0 ≡ true)
        → is_returned (poll_turn formats world name deadline delay last saw again s).0 ≡ true
    unfolding poll_turn lost until_deadline expire
    poll_turn_returned delay last saw again s h =
        let s1 = (lost world s).1 in
        let r = until_deadline world world.status (read_status name) s1 in
        choose (world.gone s.asked) (leb deadline s.clock) _ _ _ s1 refl refl λ p.
          status_returned s.clock delay last saw again (λ d e w s' lt. h d e w s' (ground arith) lt)
            r.0 r.1 (omega (arith, timed (suc s.asked)))

    pub poll_returned :
        (fuel delay : ℕ) (last : Option OrchestrationError) (saw : Bool) (s : State)
        → deadline < s.clock + fuel
        → 0 < fuel
        → is_returned (poll formats world fuel name deadline delay last saw s).0 ≡ true
    unfolding poll
    poll_returned zero delay last saw s h p = ground arith
    poll_returned (suc fuel) delay last saw s h p =
        poll_turn_returned delay last saw (poll formats world fuel name deadline) s
          λ d e w s' before lt. poll_returned fuel d e w s' (omega arith) (omega arith)

  module _ (job : AcquiredJob) (planned deadline : ℕ) where
    bound_wait_advances :
        (c : ℕ) (r : Result OrchestrationError (Unit {0})) (s : State)
        → (r ≡ ok tt → c < s.clock)
        → (bound_wait_answer world job r s).0 ≡ ok tt
        → c < (bound_wait_answer world job r s).1.clock
    unfolding fail_previous_bound
    bound_wait_advances c (ok u) s h e = h refl
    bound_wait_advances c (err OrchestrationError.permission) s h e = cc
    bound_wait_advances c (err OrchestrationError.failed) s h e = cc
    bound_wait_advances c (err OrchestrationError.timed_out) s h e = cc
    bound_wait_advances c (err OrchestrationError.ownership_lost) s h e = cc
    bound_wait_advances c (err (OrchestrationError.start reason)) s h e = cc
    bound_wait_advances c (err (OrchestrationError.describe reason)) s h e = cc
    bound_wait_advances c (err (OrchestrationError.finalizer reason)) s h e = cc

    continue_returned :
        (next : M Outcome) (r : Result OrchestrationError (Unit {0})) (s : State)
        → (r ≡ ok tt → is_returned (next s).0 ≡ true)
        → is_returned (continue_after world next r s).0 ≡ true
    continue_returned next (ok u) s h = h refl
    continue_returned next (err e) s h = refl

    if_returned :
        (b : Bool) (x y : M Outcome) (s : State)
        → is_returned (x s).0 ≡ true
        → is_returned (y s).0 ≡ true
        → is_returned ((if b then x else y) s).0 ≡ true
    if_returned true x y s hx hy = hx
    if_returned false x y s hx hy = hy

    bound_answer_returned :
        (delay : ℕ) (next : M Outcome) (r : Result OrchestrationError (ℕ × Bool)) (s : State)
        → ((s' : State) → s.clock < s'.clock → is_returned (next s').0 ≡ true)
        → is_returned (bound_answer world job planned deadline delay next r s).0 ≡ true
    unfolding wait_for_previous_bound
    bound_answer_returned delay next (err e) s h = refl
    bound_answer_returned delay next (ok (count, is_pending)) s h =
        let w = wait_or_signal world delay deadline s in
        let b = bound_wait_answer world job w.0 w.1 in
        if_returned (not is_pending && child_bound_holds count planned) _ _ s refl (
          continue_returned next b.0 b.1
            λ e. h b.1 (bound_wait_advances s.clock w.0 w.1 (wait_advances delay deadline s) e))

    bound_turn_returned :
        (poll_interval delay : ℕ) (next : M Outcome) (s : State)
        → ((s' : State) → s.clock < deadline → s.clock < s'.clock → is_returned (next s').0 ≡ true)
        → is_returned (bound_turn world job poll_interval planned deadline delay next s).0 ≡ true
    unfolding bound_turn lost
    bound_turn_returned poll_interval delay next s h =
        let s1 = (lost world s).1 in
        let r = observe_attempts world job poll_interval deadline (prior_attempts job) 0 false s1 in
        let le =
          (observe_attempts-Keeps world (λ s'. s.clock ≤ s'.clock) (clock_kept s.clock) job
              poll_interval deadline (prior_attempts job) 0 false).at
            s1 (omega arith) in
        choose (world.gone s.asked) (leb deadline s.clock) _ _ _ s1 refl refl λ p.
          bound_answer_returned delay next r.0 r.1
            λ s' lt. h s' (ground arith) (omega (arith, le, lt))

    bound_loop_returned :
        (fuel poll_interval delay : ℕ) (s : State)
        → deadline < s.clock + fuel
        → 0 < fuel
        → is_returned (bound_loop world fuel job poll_interval planned deadline delay s).0 ≡ true
    unfolding bound_loop
    bound_loop_returned zero poll_interval delay s h p = ground arith
    bound_loop_returned (suc fuel) poll_interval delay s h p =
        bound_turn_returned poll_interval delay
          (bound_loop world fuel job poll_interval planned deadline (double delay)) s
          λ s' before lt.
            bound_loop_returned fuel poll_interval (double delay) s' (omega arith) (omega arith)

  module _ (formats : Formats) (job : AcquiredJob) (input : ExecutionInput)
      (poll_interval deadline : ℕ) where
    then_poll_returned :
        (name : Text) (r : Result OrchestrationError (Unit {0})) (s : State)
        → is_returned (then_poll formats world (suc deadline) name poll_interval deadline r s).0
          ≡ true
    then_poll_returned name (ok u) s =
        poll_returned formats name deadline (suc deadline) _ none false s (omega arith)
          (omega arith)
    then_poll_returned name (err e) s = refl

    then_start_returned :
        (name : Text) (o : Outcome) (s : State)
        → is_returned o ≡ true
        → is_returned
            (then_start formats world (suc deadline) name input poll_interval deadline o s).0
          ≡ true
    then_start_returned name none s h = cc
    then_start_returned name (some (err e)) s h = refl
    then_start_returned name (some (ok u)) s h =
        let r = start_or_attach formats world name input deadline s in
        then_poll_returned name r.0 r.1

    establish_returned :
        (planned : ℕ) (s : State)
        → is_returned
            (establish_previous_bound world (suc deadline) job poll_interval planned deadline s).0
          ≡ true
    unfolding establish_previous_bound
    establish_returned planned s = if_returned job planned deadline (leb job.attempt 1) _ _ s refl (
        bound_loop_returned job planned deadline (suc deadline) poll_interval _ s (omega arith)
          (omega arith))

    run_valid_returned :
        (s : State)
        → is_returned (run_valid formats world (suc deadline) job input poll_interval deadline s).0
          ≡ true
    unfolding run_valid lost
    run_valid_returned s =
        let s1 = (lost world s).1 in
        let planned = length input.renditions in
        let r =
          establish_previous_bound world (suc deadline) job poll_interval planned deadline s1 in
        choose (world.gone s.asked) (leb deadline s.clock) _ _ _ s1 refl refl
          λ p. then_start_returned _ r.0 r.1 (establish_returned planned s1)

    when_valid_returned :
        (r : Result OrchestrationError (Unit {0})) (s : State)
        → is_returned
            (when_valid formats world
              (run_valid formats world (suc deadline) job input poll_interval deadline)
              r
              s).0
          ≡ true
    when_valid_returned (ok u) s = run_valid_returned s
    when_valid_returned (err e) s = refl

    -- If every await takes at least a millisecond, a run returns, whatever the services answer and
    -- for any input: fuel for one more turn than the deadline has milliseconds is enough for the
    -- loops over earlier attempts and over status reads.
    pub run-IsTotal :
        (s : State)
        → is_returned (run formats world (suc deadline) job input poll_interval deadline s).0 ≡ true
    unfolding run
    run-IsTotal s = when_valid_returned (validate formats input) s
