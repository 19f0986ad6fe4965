-- ===== src/Orchestration/Bounding.antt =====
-- When a run (worker/src/orchestration.rs) may go on to start its execution.
use streaming_video_app.Prelude.{
  ℕ, zero, suc, ◌+◌, ◌-◌, ◌≤◌, List, [], ◌∷◌, length, ap, ◌<◌, ◌≡◌, refl, Bool, true, false, not,
  ◌&&◌, some, Result, ok, err, leb, max, if◌then◌else◌, arith, Bool-cases, inl, inr,
}
use streaming_video_app.Naming.{execution_name}
use streaming_video_app.Acquisition.Types.{AcquiredJob}
use streaming_video_app.Orchestration.Input.{
  OrchestrationError, describe, saturating_add, child_bound_holds,
}
use streaming_video_app.Orchestration.Effects.{World, State, M, pure, ◌>>=◌, double, lost}
use streaming_video_app.Orchestration.Prior.{
  Outcome, PriorObservation, residual, pending, attempts_from, give_up, attempt_answer,
  observe_prior_execution, observe_attempts, prior_attempts, wait_for_previous_bound,
  continue_after, bound_answer, bound_turn, bound_loop, establish_previous_bound,
  fail_previous_bound, cancel_prior_attempts,
}

abbrev sum : List ℕ → ℕ
sum [] = 0
sum (n ∷ ns) = n + sum ns

abbrev counted_from : ℕ → List ℕ → ℕ
counted_from count [] = count
counted_from count (n ∷ ns) = counted_from (saturating_add count n) ns

-- A count that is within the bound was never cut off.
counted_from-le :
    (count : ℕ) (ns : List ℕ) → counted_from count ns ≤ 2 → count + sum ns ≤ counted_from count ns
counted_from-le count [] h = omega arith
counted_from-le count (n ∷ ns) h =
    let ih = counted_from-le (saturating_add count n) ns h in omega (arith, h, ih)

child_bound-le : (count planned : ℕ) → child_bound_holds count planned ≡ true → count + planned ≤ 2
unfolding child_bound_holds
child_bound-le count planned h = ground (arith, h)

within_bound :
    (counts : List ℕ) (count planned : ℕ)
    → count ≡ counted_from 0 counts
    → count + planned ≤ 2
    → sum counts + planned ≤ 2
within_bound counts count planned e h =
    let l = counted_from-le 0 counts (omega (arith, e, h)) in omega (arith, e, h, l)

ended :
    (count total : ℕ) (start end : State)
    → ◌≡◌ {A = Result OrchestrationError (ℕ × Bool) × State}
        (ok (count, false), start)
        (ok (total, false), end)
    → (start ≡ end) × (total ≡ count)
ended count total start end h = (ap (λ r. r.1) h, first_of (ap (λ r. r.0) h))
  where
    first_of :
        ◌≡◌ {A = Result OrchestrationError (ℕ × Bool)} (ok (count, false)) (ok (total, false))
        → total ≡ count
    first_of e = cc

module _ (world : World) (job : AcquiredJob) (poll_interval planned deadline : ℕ) where
  -- One observation after the other, of the attempts from `first` on: each found that many running
  -- children of the attempt's execution, and none was pending.
  abbrev pub ArePasses : ℕ → List ℕ → State → State → Type 0
  ArePasses first [] start end = start ≡ end
  ArePasses first (count ∷ counts) start end =
      (next : State) × ((observe_prior_execution world poll_interval
            (execution_name job.item.job_id first) deadline start
          ≡ (ok (residual count), next))
        × ArePasses (suc first) counts next end)

  -- A pass over all earlier attempts has just ended in this state, with none of them pending and
  -- at most two children running or planned.
  abbrev pub IsBoundedAt : State → Type 0
  IsBoundedAt end =
      (start : State) × ((counts : List ℕ) × ((length counts ≡ job.attempt - 1)
          × (ArePasses 1 counts start end × (sum counts + planned ≤ 2))))

  abbrev observed : List ℕ → ℕ → Bool → M (Result OrchestrationError (ℕ × Bool))
  observed = observe_attempts world job poll_interval deadline

  give_up_err :
      (e : OrchestrationError) (s end : State) (a : ℕ × Bool)
      → give_up world job e s ≡ (ok a, end)
      → ⊥
  give_up_err OrchestrationError.timed_out s end a h = cc
  give_up_err OrchestrationError.ownership_lost s end a h = cc
  give_up_err OrchestrationError.permission s end a h = cc
  give_up_err OrchestrationError.failed s end a h = cc
  give_up_err (OrchestrationError.start reason) s end a h = cc
  give_up_err (describe reason) s end a h = cc
  give_up_err (OrchestrationError.finalizer reason) s end a h = cc

  -- What one observation answers, where the whole pass answers a count and that none is pending.
  answered :
      (with_residual : ℕ → M (Result OrchestrationError (ℕ × Bool)))
      (while_pending : M (Result OrchestrationError (ℕ × Bool)))
      (r : Result OrchestrationError PriorObservation) (s end : State) (total : ℕ)
      → (while_pending s ≡ (ok (total, false), end) → ⊥)
      → attempt_answer world job with_residual while_pending r s ≡ (ok (total, false), end)
      → (count : ℕ) × ((r ≡ ok (residual count))
          × (with_residual count s ≡ (ok (total, false), end)))
  answered with_residual while_pending (ok (residual n)) s end total never h = (n, (refl, h))
  answered with_residual while_pending (ok pending) s end total never h = absurd (never h)
  answered with_residual while_pending (err e) s end total never h =
      absurd (give_up_err e s end (total, false) h)

  never_pending :
      (attempts : List ℕ) (count : ℕ) (s end : State) (total : ℕ)
      → observed attempts count true s ≡ (ok (total, false), end)
      → ⊥
  unfolding observe_attempts
  never_pending [] count s end total h = cc
  never_pending (attempt ∷ attempts) count s end total h =
      let r =
        observe_prior_execution world poll_interval (execution_name job.item.job_id attempt)
          deadline s in
      let a =
        answered (λ n. observed attempts (saturating_add count n) true)
          (observed attempts count true) r.0 r.1 end total
          (never_pending attempts count r.1 end total) h in
      never_pending attempts (saturating_add count a.0) r.1 end total a.1.1

  observe_attempts-ArePasses :
      (first n count : ℕ) (start end : State) (total : ℕ)
      → observed (attempts_from first n) count false start ≡ (ok (total, false), end)
      → (counts : List ℕ) × ((length counts ≡ n)
          × (ArePasses first counts start end × (total ≡ counted_from count counts)))
  unfolding observe_attempts
  observe_attempts-ArePasses first zero count start end total h =
      ([], (refl, ended count total start end h))
  observe_attempts-ArePasses first (suc n) count start end total h =
      let r =
        observe_prior_execution world poll_interval (execution_name job.item.job_id first) deadline
          start in
      let a =
        answered (λ k. observed (attempts_from (suc first) n) (saturating_add count k) false)
          (observed (attempts_from (suc first) n) count true) r.0 r.1 end total
          (never_pending (attempts_from (suc first) n) count r.1 end total) h in
      let later =
        observe_attempts-ArePasses (suc first) n (saturating_add count a.0) r.1 end total a.1.1 in
      (
        a.0 ∷ later.0,
        (ap suc later.1.0, ((r.1, (ap (λ x. (x, r.1)) a.1.0, later.1.1.0)), later.1.1.1)),
      )

  bounded :
      (start s : State) (count : ℕ)
      → observed (prior_attempts job) 0 false start ≡ (ok (count, false), s)
      → child_bound_holds count planned ≡ true
      → IsBoundedAt s
  bounded start s count o b =
      let passes = observe_attempts-ArePasses 1 (job.attempt - 1) 0 start s count o in
      (
        start,
        (
          passes.0,
          (
            passes.1.0,
            (
              passes.1.1.0,
              (within_bound passes.0 count planned passes.1.1.1 (child_bound-le count planned b)),
            ),
          ),
        ),
      )

  abbrev Reaches : M Outcome → State → Type 0
  Reaches m s = (m s).0 ≡ some (ok tt) → IsBoundedAt (m s).1

  continue_bounded :
      (next : M Outcome) (r : Result OrchestrationError (Unit {0})) (s : State)
      → ((s' : State) → Reaches next s')
      → Reaches (continue_after world next r) s
  continue_bounded next (ok u) s h e = h s e
  continue_bounded next (err x) s h e = cc

  decide_bounded :
      (delay count : ℕ) (is_pending : Bool) (next : M Outcome) (start s : State)
      → ((s' : State) → Reaches next s')
      → observe_attempts world job poll_interval deadline (prior_attempts job) 0 false start
        ≡ (ok (count, is_pending), s)
      → (holds : Bool) → child_bound_holds count planned ≡ holds
      → ((if not is_pending && holds
            then pure (some (ok tt))
            else (wait_for_previous_bound world job delay deadline >>= continue_after world next))
          s).0
        ≡ some (ok tt)
      → IsBoundedAt
          ((if not is_pending && holds
              then pure (some (ok tt))
              else (wait_for_previous_bound world job delay deadline >>= continue_after world next))
            s).1
  decide_bounded delay count false next start s h o true b e = bounded start s count o b
  decide_bounded delay count false next start s h o false b e =
      continue_bounded next (wait_for_previous_bound world job delay deadline s).0
        (wait_for_previous_bound world job delay deadline s).1 h e
  decide_bounded delay count true next start s h o holds b e =
      continue_bounded next (wait_for_previous_bound world job delay deadline s).0
        (wait_for_previous_bound world job delay deadline s).1 h e

  bound_answer_bounded :
      (delay : ℕ) (next : M Outcome) (start s : State) (r : Result OrchestrationError (ℕ × Bool))
      → ((s' : State) → Reaches next s')
      → observe_attempts world job poll_interval deadline (prior_attempts job) 0 false start
        ≡ (r, s)
      → Reaches (bound_answer world job planned deadline delay next r) s
  bound_answer_bounded delay next start s (err x) h o e = cc
  bound_answer_bounded delay next start s (ok (count, is_pending)) h o e =
      decide_bounded delay count is_pending next start s h o (child_bound_holds count planned) refl
        e

  choose_bounded :
      (gone past : Bool) (x : OrchestrationError) (p : M (Unit {0})) (q : M OrchestrationError)
      (z : M Outcome) (s : State)
      → Reaches z s
      → Reaches
          (if gone
            then ((p >>= λ u. pure {A = Result OrchestrationError (Unit {0})} (err x)) >>= λ r.
                pure (some r))
            else (if past then (q >>= λ e. pure (some (err e))) else z))
          s
  choose_bounded true past x p q z s h e = cc
  choose_bounded false true x p q z s h e = cc
  choose_bounded false false x p q z s h e = h e

  bound_loop_bounded :
      (fuel delay : ℕ) (s : State)
      → Reaches (bound_loop world fuel job poll_interval planned deadline delay) s
  unfolding bound_loop bound_turn lost
  bound_loop_bounded zero delay s e = cc
  bound_loop_bounded (suc fuel) delay s e =
      let s1 = (lost world s).1 in
      let r = observe_attempts world job poll_interval deadline (prior_attempts job) 0 false s1 in
      choose_bounded (world.gone s.asked) (leb deadline s.clock) OrchestrationError.ownership_lost
        (cancel_prior_attempts world job) (fail_previous_bound world job) _ s1
        (bound_answer_bounded delay
          (bound_loop world fuel job poll_interval planned deadline (double delay)) s1 r.1 r.0
          (λ s'. bound_loop_bounded fuel (double delay) s') refl)
        e

  -- If the bound on earlier attempts is established for a second or later attempt, the last thing
  -- that happened was one observation of the execution of each earlier attempt, from the first on and
  -- in order, none of which was pending, and the running children that they counted and the planned
  -- ones are at most two together.
  pub establish_previous_bound-IsBoundedAt :
      (fuel : ℕ) (s : State)
      → 1 < job.attempt
      → (establish_previous_bound world fuel job poll_interval planned deadline s).0 ≡ some (ok tt)
      → IsBoundedAt (establish_previous_bound world fuel job poll_interval planned deadline s).1
  unfolding establish_previous_bound
  establish_previous_bound-IsBoundedAt fuel s later e = elim (Bool-cases (leb job.attempt 1)) [
    | inl b ↦ ground (arith, later)
    | inr b ↦ established (leb job.attempt 1) b e
  ]
    where
      established :
          (first : Bool)
          → first ≡ false
          → ((if first
                then pure (some (ok tt))
                else bound_loop world fuel job poll_interval planned deadline (max poll_interval 1))
              s).0
            ≡ some (ok tt)
          → IsBoundedAt
              ((if first
                  then pure (some (ok tt))
                  else bound_loop world fuel job poll_interval planned deadline
                      (max poll_interval 1))
                s).1
      established true b e = cc
      established false b e = bound_loop_bounded fuel (max poll_interval 1) s e
