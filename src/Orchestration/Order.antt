-- ===== src/Orchestration/Order.antt =====
-- The order of the calls before the finalizer (worker/src/orchestration.rs): the polling keeps it.
use streaming_video_app.Prelude.{
  ℕ, zero, suc, Text, text_eq, text_eq_refl, ◌≡◌, refl, Bool, true, false, not, ◌||◌, Option, none,
  some, List, [], ◌∷◌, Result, ok, err, leb, if◌then◌else◌,
}
use streaming_video_app.Orchestration.Input.{
  OrchestrationError, ExecutionStatus, Formats, running, succeeded, has_failed, has_timed_out,
}
use streaming_video_app.Orchestration.Effects.{
  Call, checked, read_status, finalized, World, State, M, double, lost, cancel, until_deadline,
  wait_or_signal, after,
}
use streaming_video_app.Orchestration.Prior.{Outcome}
use streaming_video_app.Orchestration.Run.{
  Again, poll, poll_turn, expire, finish, expiry_error, status_answer, waited_answer,
  finalizer_answer, return_error, cancel_with,
}
use streaming_video_app.Orchestration.Keeps.{
  Keeps, IsKept, is_finalized, Keeps-pure, Keeps-bind, cancel-Keeps, checks-Keeps,
  wait_or_signal-Keeps,
}

-- The newest calls: a check that found the job owned, after a read that found the execution of that
-- name succeeded.
abbrev pub after_success : Text → List Call → Bool
after_success name (checked false ∷ read_status other (some (ok succeeded)) ∷ log) =
    text_eq other name
after_success name _ = false

-- The finalizer is called only after these. The newest call is first.
abbrev pub IsFinalizedAfterSuccess : Text → List Call → Type 0
IsFinalizedAfterSuccess name [] = Unit
IsFinalizedAfterSuccess name (call ∷ log) =
    ((not (is_finalized call) || after_success name log) ≡ true) × IsFinalizedAfterSuccess name log

abbrev pub Ordered : Text → State → Type 0
Ordered name s = IsFinalizedAfterSuccess name s.log

module _ (formats : Formats) (world : World) (name : Text) where
  pub finalizing_kept : IsKept world (Ordered name)
  unfolding lost
  finalizing_kept = record {
    keeps_lost = λ s h. (refl, h);
    keeps_call = λ call e s h. (rw e refl, h);
  }

  pub return_error-Keeps :
      (other : Text) (e : OrchestrationError)
      → Keeps (Ordered name) (return_error formats world other e)
  return_error-Keeps other e =
      Keeps-bind (Ordered name) (cancel world other) _ (cancel-Keeps world _ finalizing_kept other)
        λ u. Keeps-pure (Ordered name) (some (err e))

  pub cancel_with-Keeps :
      (other : Text) (e : OrchestrationError)
      → Keeps (Ordered name) (cancel_with formats world other e)
  cancel_with-Keeps other e =
      Keeps-bind (Ordered name) (cancel world other) _ (cancel-Keeps world _ finalizing_kept other)
        λ u. Keeps-pure (Ordered name) (err e)

  -- The three actions after the checks, the last of them only where the job was found owned.
  choose_at :
      (gone past : Bool) (x y z : M Outcome) (s : State)
      → Keeps (Ordered name) x
      → Keeps (Ordered name) y
      → (gone ≡ false → Ordered name (z s).1)
      → Ordered name s
      → Ordered name ((if gone then x else (if past then y else z)) s).1
  choose_at true past x y z s hx hy hz h = hx.at s h
  choose_at false true x y z s hx hy hz h = hy.at s h
  choose_at false false x y z s hx hy hz h = hz refl

  finalizer_answer-Keeps :
      (o : Option (Result OrchestrationError (Unit {0})))
      → Keeps (Ordered name) (finalizer_answer formats world o)
  finalizer_answer-Keeps none = Keeps-pure (Ordered name) _
  finalizer_answer-Keeps (some r) = Keeps-pure (Ordered name) _

  finish_at :
      (deadline : ℕ) (s : State)
      → Ordered name s
      → Ordered name
          (finish formats world name deadline
            (after world (read_status name (some (ok succeeded))) s)).1
  unfolding finish lost until_deadline
  finish_at deadline s h =
      let s1 = after world (read_status name (some (ok succeeded))) s in
      let s2 = (lost world s1).1 in
      let r = until_deadline world world.finalize (λ a. finalized) s2 in
      choose_at (world.gone s1.asked) (leb deadline s1.clock) _ _ _ s2 (return_error-Keeps name _)
        (Keeps-pure (Ordered name) _)
        (λ g.
          (finalizer_answer-Keeps r.0).at r.1 (rw (g, text_eq_refl name) refl, (refl, (refl, h))))
        (refl, (refl, h))

  waited_answer-Keeps :
      (e : Option OrchestrationError) (saw : Bool) (next : M Outcome)
      → Keeps (Ordered name) next
      → (r : Result OrchestrationError (Unit {0}))
      → Keeps (Ordered name) (waited_answer formats world name e saw next r)
  waited_answer-Keeps e saw next h (ok u) = h
  waited_answer-Keeps e saw next h (err e') = return_error-Keeps name _

  return_at :
      (answer : Option (Result OrchestrationError ExecutionStatus)) (e : OrchestrationError)
      (s : State)
      → Ordered name s
      → Ordered name (return_error formats world name e (after world (read_status name answer) s)).1
  return_at answer e s h =
      (return_error-Keeps name e).at (after world (read_status name answer) s) (refl, h)

  status_at :
      (deadline delay : ℕ) (last : Option OrchestrationError) (saw : Bool) (again : Again)
      → ((d : ℕ) (e : Option OrchestrationError) (w : Bool) → Keeps (Ordered name) (again d e w))
      → (answer : Option (Result OrchestrationError ExecutionStatus)) (s : State) → Ordered name s
      → Ordered name
          (status_answer formats world name deadline delay last saw again answer
            (after world (read_status name answer) s)).1
  unfolding expire
  status_at deadline delay last saw again ha none s h = return_at none (expiry_error last saw) s h
  status_at deadline delay last saw again ha (some (ok running)) s h =
      (Keeps-bind (Ordered name) (wait_or_signal world delay deadline) _
          (wait_or_signal-Keeps world _ finalizing_kept delay deadline)
          (waited_answer-Keeps none true _ (ha (double delay) none true))).at
        (after world (read_status name (some (ok running))) s) (refl, h)
  status_at deadline delay last saw again ha (some (ok succeeded)) s h = finish_at deadline s h
  status_at deadline delay last saw again ha (some (ok has_failed)) s h = (refl, h)
  status_at deadline delay last saw again ha (some (ok has_timed_out)) s h = (refl, h)
  status_at deadline delay last saw again ha (some (err (OrchestrationError.describe reason))) s h =
      let e = some (OrchestrationError.describe reason) in
      (Keeps-bind (Ordered name) (wait_or_signal world delay deadline) _
          (wait_or_signal-Keeps world _ finalizing_kept delay deadline)
          (waited_answer-Keeps e saw _ (ha (double delay) e saw))).at
        (after world (read_status name (some (err (OrchestrationError.describe reason)))) s)
        (refl, h)
  status_at deadline delay last saw again ha (some (err OrchestrationError.permission)) s h =
      return_at (some (err OrchestrationError.permission)) OrchestrationError.permission s h
  status_at deadline delay last saw again ha (some (err OrchestrationError.failed)) s h =
      return_at (some (err OrchestrationError.failed)) OrchestrationError.failed s h
  status_at deadline delay last saw again ha (some (err OrchestrationError.timed_out)) s h =
      return_at (some (err OrchestrationError.timed_out)) OrchestrationError.timed_out s h
  status_at deadline delay last saw again ha (some (err OrchestrationError.ownership_lost)) s h =
      return_at (some (err OrchestrationError.ownership_lost)) OrchestrationError.ownership_lost s h
  status_at deadline delay last saw again ha (some (err (OrchestrationError.start reason))) s h =
      return_at (some (err (OrchestrationError.start reason))) (OrchestrationError.start reason) s h
  status_at deadline delay last saw again ha (some (err (OrchestrationError.finalizer reason))) s
        h =
      return_at (some (err (OrchestrationError.finalizer reason)))
        (OrchestrationError.finalizer reason) s h

  pub poll-Keeps :
      (fuel deadline delay : ℕ) (last : Option OrchestrationError) (saw : Bool)
      → Keeps (Ordered name) (poll formats world fuel name deadline delay last saw)
  unfolding poll poll_turn expire until_deadline
  poll-Keeps zero deadline delay last saw = Keeps-pure (Ordered name) _
  poll-Keeps (suc fuel) deadline delay last saw =
      checks-Keeps world _ finalizing_kept deadline _ _ _ (return_error-Keeps name _)
        (return_error-Keeps name _)
        (record {
          at = λ s h.
              status_at deadline delay last saw (poll formats world fuel name deadline)
                (λ d e w. poll-Keeps fuel deadline d e w)
                (until_deadline world world.status (read_status name) s).0 s h;
        })
