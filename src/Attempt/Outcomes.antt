-- ===== src/Attempt/Outcomes.antt =====
-- What each outcome of an attempt (worker/src/retry.rs) says about the durable updates it asked for.
use streaming_video_app.Prelude.{
  ℕ, suc, Text, ◌≡◌, refl, ◌⊎◌, inl, Bool, true, false, ltb, List, ◌∷◌, Result, ok, err, arith,
}
use streaming_video_app.Persistence.Port.{applied}
use streaming_video_app.Acquisition.Types.{AcquiredJob}
use streaming_video_app.Attempt.Effects.{
  Failure, create_work_directory, Call, completed_job, released_job, failed_job, Crash, World,
  Trace, Stop, ◌>>=◌, timed_out, crashed, observe, await, check_lost, removed_directory,
}
use streaming_video_app.Attempt.Durable.{durable, run_reserved-Quiet}
use streaming_video_app.Attempt.Process.{
  Processor, ProcessingOutcome, retire, persist_failure, resolve_owned_failure, resolve_failure,
  complete_owned, settle, run_reserved, in_directory, unless_lost, process_with_cleanup,
  catch_panic, process,
}

abbrev AtMostOne : List Call → List Call → Type 0
AtMostOne D D' = (D' ≡ D) ⊎ ((call : Call) × (D' ≡ call ∷ D))

module _ (p : Processor) (job : AcquiredJob) where
  abbrev pub completion : Call
  completion = completed_job job.item.job_id job.item.video_id job.worker_id

  abbrev release : Call
  release = released_job job.item.job_id job.item.video_id job.worker_id p.settings.maximum_attempts

  abbrev final_failure : Failure → Call
  final_failure failure =
      failed_job job.item.job_id job.item.video_id job.worker_id failure p.settings.maximum_attempts

module _ (world : World) (p : Processor) (job : AcquiredJob) where
  -- What is known of the answer of the database to its update, the call with the number `n`.
  abbrev pub HasApplied : ℕ → Type 0
  HasApplied n = world.persist n ≡ ok applied

  -- The durable updates `D'` after an attempt that began with `D`, by how it ends.
  abbrev pub Accounts : ℕ → List Call → Result Stop ProcessingOutcome → List Call → Type 0
  Accounts n D (ok ProcessingOutcome.completed) D' = (D' ≡ completion p job ∷ D) × HasApplied n
  Accounts n D (ok (ProcessingOutcome.retry_released delay)) D' =
      (ltb job.attempt p.settings.maximum_attempts ≡ true)
      × (delay ≡ p.settings.retry_delay)
      × ((D' ≡ release p job ∷ D) × HasApplied n)
  Accounts n D (ok ProcessingOutcome.final_failed) D' =
      (ltb job.attempt p.settings.maximum_attempts ≡ false)
      × ((failure : Failure) × ((D' ≡ final_failure p job failure ∷ D) × HasApplied n))
  Accounts n D (ok ProcessingOutcome.ownership_lost) D' = AtMostOne D D'
  Accounts n D (ok ProcessingOutcome.infrastructure_failure) D' = (call : Call) × (D' ≡ call ∷ D)
  Accounts n D (ok ProcessingOutcome.panicked) D' = AtMostOne D D'
  Accounts n D (err timed_out) D' = ⊥
  Accounts n D (err (crashed Crash.panicked)) D' = ⊥
  Accounts n D (err (crashed Crash.dropped)) D' = AtMostOne D D'

  -- As above, before a panic is caught.
  abbrev Ends : ℕ → List Call → Result Stop ProcessingOutcome → List Call → Type 0
  Ends n D (err (crashed Crash.panicked)) D' = AtMostOne D D'
  Ends n D (err (crashed Crash.dropped)) D' = Accounts n D (err (crashed Crash.dropped)) D'
  Ends n D (err timed_out) D' = Accounts n D (err timed_out) D'
  Ends n D (ok outcome) D' = Accounts n D (ok outcome) D'

  abbrev EndsAt : List Call → Result Stop ProcessingOutcome × Trace → Type 0
  EndsAt D r = (n : ℕ) × Ends n D r.0 (durable r.1.log)

module _ (world : World) (p : Processor) (job : AcquiredJob) where
  complete_owned-Ends :
      (t : Trace) → EndsAt world p job (durable t.log) (complete_owned world p job t)
  unfolding complete_owned retire await observe check_lost
  complete_owned-Ends t = (suc (suc t.tick), ground arith)

  resolve_failure-Ends :
      (failure : Failure) (t : Trace)
      → EndsAt world p job (durable t.log) (resolve_failure world p job failure t)
  unfolding resolve_failure resolve_owned_failure persist_failure retire await observe check_lost
  resolve_failure-Ends failure t = (suc (suc (suc t.tick)), ground arith)

  settle-Ends :
      (result : Result Failure (Unit {0})) (t : Trace)
      → EndsAt world p job (durable t.log) (settle world p job result t)
  settle-Ends (ok u) t = complete_owned-Ends t
  settle-Ends (err failure) t = resolve_failure-Ends failure t

  -- What follows the pipeline in the directory's scope.
  abbrev after_run :
      Result Stop (Result Failure (Unit {0})) × Trace → Result Stop ProcessingOutcome × Trace
  after_run r =
      ◌>>=◌ (λ t. r)
        (λ result.
          observe world.remove_directory removed_directory >>= λ cleanup. settle world p job result)
        r.1

  -- After the pipeline: the directory is removed and the result settled.
  after_pipeline :
      (D : List Call) (r : Result Stop (Result Failure (Unit {0})) × Trace)
      → durable r.1.log ≡ D
      → (r.0 ≡ err timed_out → ⊥)
      → EndsAt world p job D (after_run r)
  unfolding observe
  after_pipeline D (ok result, t) e never = rw (← e) (settle-Ends result _)
  after_pipeline D (err timed_out, t) e never = absurd (never refl)
  after_pipeline D (err (crashed Crash.panicked), t) e never = (0, inl e)
  after_pipeline D (err (crashed Crash.dropped), t) e never = (0, inl e)

  run_reserved-in_time :
      (directory : Text) (t : Trace) → (run_reserved world p job directory t).0 ≡ err timed_out → ⊥
  unfolding run_reserved observe
  run_reserved-in_time directory t e = ground arith

  in_directory-Ends :
      (created : Result Text Text) (t : Trace)
      → EndsAt world p job (durable t.log) (in_directory world p job created t)
  unfolding in_directory
  in_directory-Ends (err e) t = resolve_failure-Ends (create_work_directory e) t
  in_directory-Ends (ok directory) t =
      after_pipeline (durable t.log) (run_reserved world p job directory t)
        ((run_reserved-Quiet world (durable t.log) p job directory).at t refl)
        (run_reserved-in_time directory t)

  process_with_cleanup-Ends :
      (t : Trace) → EndsAt world p job (durable t.log) (process_with_cleanup world p job t)
  unfolding process_with_cleanup check_lost
  process_with_cleanup-Ends t = begun (world.lost t.tick) _
    where
      begun :
          (gone : Bool) (t : Trace)
          → EndsAt world p job (durable t.log) (unless_lost world p job gone t)
      begun true t = (0, inl refl)
      begun false t = unfold observe in in_directory-Ends (world.create_directory t.tick) _

  catch_panic-Accounts :
      (D : List Call) (r : Result Stop ProcessingOutcome × Trace)
      → EndsAt world p job D r
      → (n : ℕ) × Accounts world p job n D
          (catch_panic world p r).0
          (durable (catch_panic world p r).1.log)
  unfolding retire observe
  catch_panic-Accounts D (ok outcome, t) h = h
  catch_panic-Accounts D (err timed_out, t) h = h
  catch_panic-Accounts D (err (crashed Crash.dropped), t) h = h
  catch_panic-Accounts D (err (crashed Crash.panicked), t) (n, h) = (n, ground arith)

  -- Whatever the world answers, an attempt asks for at most one durable update, and its outcome says
  -- which: a completed one asked to complete the job; a released one had attempts left, asked to
  -- release the job and returns the configured delay; a finally failed one had none left and asked
  -- to fail it; and in these three cases one answer of the database was that the update was applied. One with
  -- an infrastructure failure asked for exactly one update. One that lost ownership, panicked or was
  -- dropped asked for at most one. Neither the wall-time limit nor a panic ever escapes.
  pub process-Accounts :
      (t : Trace)
      → (n : ℕ) × Accounts world p job n
          (durable t.log)
          (process world p job t).0
          (durable (process world p job t).1.log)
  unfolding process
  process-Accounts t =
      catch_panic-Accounts (durable t.log) (process_with_cleanup world p job t)
        (process_with_cleanup-Ends t)
