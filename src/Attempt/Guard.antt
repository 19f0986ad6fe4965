-- ===== src/Attempt/Guard.antt =====
-- Ownership checks of an attempt (worker/src/retry.rs, worker/src/publish.rs): no object write and no
-- durable update without a check directly before it.
use streaming_video_app.Prelude.{
  ℕ, Text, Option-cases, inl, inr, ◌≡◌, refl, Bool, true, false, not, ◌||◌, List, [], ◌∷◌, Result,
  ok, err, arith,
}
use streaming_video_app.Acquisition.Types.{AcquiredJob}
use streaming_video_app.Attempt.Effects.{
  HlsOutput, Failure, create_work_directory, Call, checked, wrote_object, completed_job,
  released_job, failed_job, World, Trace, ◌>>!◌, Stop, observe, await, timed_await, check_lost,
  Crash, timed_out, crashed, read_file, filesystem, reserved_disk, removed_directory,
  created_directory, locked, encoded,
}
use streaming_video_app.Attempt.Keeps.{Keeps, Keeps-bind, Keeps-try, Keeps-pure}
use streaming_video_app.Attempt.Publish.{
  guarded_write, publish_segment, publish_segments, publish_playlist, publish_hls_with_checkpoint,
  hls_prefix, hls_segment_content_type, hls_playlist_content_type, file_name, read_contents,
  fails_with,
}
use streaming_video_app.Attempt.Process.{
  Processor, ProcessingOutcome, retire, persist_failure, resolve_owned_failure, resolve_failure,
  checkpoint, lock, download, encode_and_publish, run_pipeline, complete_owned, run_reserved,
  process_with_cleanup, process, settle, within_wall_time, after_reservation, in_directory,
  unless_lost, catch_panic,
}

-- The calls that change an object or the job's durable state.
abbrev pub needs_ownership : Call → Bool
needs_ownership (wrote_object bucket key content_type contents) = true
needs_ownership (completed_job j v w) = true
needs_ownership (released_job j v w max) = true
needs_ownership (failed_job j v w reason max) = true
needs_ownership _ = false

abbrev pub after_check : List Call → Bool
after_check (checked false ∷ log) = true
after_check _ = false

-- Every such call comes directly after a check that found the job owned. The newest call is first.
abbrev pub IsGuarded : List Call → Type 0
IsGuarded [] = Unit
IsGuarded (call ∷ log) = ((not (needs_ownership call) || after_check log) ≡ true) × IsGuarded log

abbrev Guarded : Trace → Type 0
Guarded t = IsGuarded t.log

-- Calls that need no check keep the log guarded.
observe-Keeps :
    {A : Type 0} (answer : ℕ → A) (call : Call)
    → needs_ownership call ≡ false
    → Keeps Guarded (observe answer call)
unfolding observe
observe-Keeps answer call h = record { at = λ t g. (rw h refl, g) }

module _ (world : World) where
  await-Keeps :
      {A : Type 0} (answer : ℕ → A) (call : Call)
      → needs_ownership call ≡ false
      → Keeps Guarded (await world answer call)
  unfolding await
  await-Keeps answer call h = record { at = λ t g. (rw h refl, g) }

  timed_await-Keeps :
      {A : Type 0} (answer : ℕ → A) (call : Call)
      → needs_ownership call ≡ false
      → Keeps Guarded (timed_await world answer call)
  unfolding timed_await
  timed_await-Keeps answer call h = record { at = λ t g. (rw h refl, g) }

  check_lost-Keeps : Keeps Guarded (check_lost world)
  unfolding check_lost
  check_lost-Keeps = record { at = λ t g. (refl, g) }

  module _ (bucket prefix : Text) where
    guarded_write-Keeps :
        (key content_type contents : Text)
        → Keeps Guarded (guarded_write world bucket prefix key content_type contents)
    unfolding guarded_write check_lost timed_await
    guarded_write-Keeps key content_type contents = record { at = λ t g. ground arith }

    upload-Keeps :
        (path key content_type : Text)
        → Keeps Guarded (
            read_contents world bucket prefix path
            >>! guarded_write world bucket prefix key content_type)
    upload-Keeps path key content_type =
        Keeps-try Guarded (read_contents world bucket prefix path)
          (guarded_write world bucket prefix key content_type)
          (timed_await-Keeps (λ n. fails_with filesystem (world.read n)) (read_file path) refl)
          (λ contents. guarded_write-Keeps key content_type contents)

    publish_segment-Keeps :
        (segment : Text) → Keeps Guarded (publish_segment world bucket prefix segment)
    unfolding publish_segment
    publish_segment-Keeps segment = elim (Option-cases (file_name segment)) [
      | inl e ↦ rw (e, publish_segment) (Keeps-pure Guarded _)
      | inr (name, e) ↦ rw (e, publish_segment) (upload-Keeps segment _ hls_segment_content_type)
    ]

    publish_segments-Keeps :
        (segments : List Text) → Keeps Guarded (publish_segments world bucket prefix segments)
    unfolding publish_segments
    publish_segments-Keeps [] = Keeps-pure Guarded (ok tt)
    publish_segments-Keeps (segment ∷ segments) =
        Keeps-try Guarded (publish_segment world bucket prefix segment)
          (λ _. publish_segments world bucket prefix segments) (publish_segment-Keeps segment)
          (λ _. publish_segments-Keeps segments)

  publish-Keeps :
      (bucket v j : Text) (output : HlsOutput)
      → Keeps Guarded (publish_hls_with_checkpoint world bucket v j output)
  unfolding publish_hls_with_checkpoint publish_playlist
  publish-Keeps bucket v j output =
      Keeps-try Guarded (publish_segments world bucket (hls_prefix v j) output.segments) _
        (publish_segments-Keeps bucket (hls_prefix v j) output.segments)
        (λ _. upload-Keeps bucket (hls_prefix v j) output.playlist _ hls_playlist_content_type)

  module _ (p : Processor) where
    checkpoint-Keeps : Keeps Guarded (checkpoint world p)
    unfolding checkpoint
    checkpoint-Keeps =
        Keeps-bind Guarded (check_lost world) _ check_lost-Keeps (λ gone. Keeps-pure Guarded _)

    lock-Keeps : Keeps Guarded (lock world p)
    lock-Keeps = timed_await-Keeps (λ _. ok tt) locked refl

    encode_and_publish-Keeps :
        (job : AcquiredJob) (directory : Text)
        → Keeps Guarded (encode_and_publish world p job directory)
    unfolding encode_and_publish
    encode_and_publish-Keeps job directory = Keeps-try Guarded (lock world p) _ lock-Keeps λ _.
        Keeps-try Guarded (checkpoint world p) _ checkpoint-Keeps λ _.
          Keeps-try Guarded (timed_await world _ (encoded directory)) _
            (timed_await-Keeps _ (encoded directory) refl)
            λ output. Keeps-try Guarded (checkpoint world p) _ checkpoint-Keeps λ _.
              Keeps-try Guarded (lock world p) _ lock-Keeps λ _.
                Keeps-bind Guarded
                  (publish_hls_with_checkpoint world p.output_bucket job.item.video_id
                    job.item.job_id output)
                  _ (publish-Keeps p.output_bucket job.item.video_id job.item.job_id output)
                  λ result. Keeps-pure Guarded _

    run_pipeline-Keeps :
        (job : AcquiredJob) (directory : Text) → Keeps Guarded (run_pipeline world p job directory)
    unfolding run_pipeline download
    run_pipeline-Keeps job directory =
        Keeps-try Guarded (checkpoint world p) _ checkpoint-Keeps λ _.
          Keeps-try Guarded (lock world p) _ lock-Keeps λ _.
            Keeps-try Guarded (checkpoint world p) _ checkpoint-Keeps λ _.
              Keeps-try Guarded (download world p job) _ (timed_await-Keeps _ _ refl) λ source.
                Keeps-try Guarded (checkpoint world p) _ checkpoint-Keeps λ _.
                  Keeps-try Guarded (timed_await world _ _) _ (timed_await-Keeps _ _ refl)
                    λ _. encode_and_publish-Keeps job directory

    resolve_failure-Keeps :
        (job : AcquiredJob) (failure : Failure)
        → Keeps Guarded (resolve_failure world p job failure)
    unfolding resolve_failure resolve_owned_failure persist_failure retire await observe check_lost
    resolve_failure-Keeps job failure = record { at = λ t g. ground arith }

    complete_owned-Keeps : (job : AcquiredJob) → Keeps Guarded (complete_owned world p job)
    unfolding complete_owned retire await observe check_lost
    complete_owned-Keeps job = record { at = λ t g. ground arith }

    within-Keeps :
        (r : Result Stop (Result Failure (Unit {0})) × Trace)
        → Guarded r.1
        → Guarded (within_wall_time world p r).1
    within-Keeps (ok result, t) h = h
    within-Keeps (err timed_out, t) h = h
    within-Keeps (err (crashed c), t) h = h

    run_reserved-Keeps :
        (job : AcquiredJob) (directory : Text) → Keeps Guarded (run_reserved world p job directory)
    unfolding run_reserved
    run_reserved-Keeps job directory =
        Keeps-bind Guarded (observe world.reserve reserved_disk) _ (observe-Keeps _ _ refl) reserved
      where
        reserved :
            (reservation : Result Text (Unit {0}))
            → Keeps Guarded (after_reservation world p job directory reservation)
        reserved (ok u) = record {
          at = λ t g.
              within-Keeps (run_pipeline world p job directory t)
                ((run_pipeline-Keeps job directory).at t g);
        }
        reserved (err e) = record { at = λ t g. g }

    settle-Keeps :
        (job : AcquiredJob) (result : Result Failure (Unit {0}))
        → Keeps Guarded (settle world p job result)
    settle-Keeps job (ok u) = complete_owned-Keeps job
    settle-Keeps job (err failure) = resolve_failure-Keeps job failure

    in_directory-Keeps :
        (job : AcquiredJob) (created : Result Text Text)
        → Keeps Guarded (in_directory world p job created)
    unfolding in_directory
    in_directory-Keeps job (err e) = resolve_failure-Keeps job (create_work_directory e)
    in_directory-Keeps job (ok directory) =
        Keeps-bind Guarded (run_reserved world p job directory) _ (run_reserved-Keeps job directory)
          λ result.
            Keeps-bind Guarded (observe world.remove_directory removed_directory) _
              (observe-Keeps _ _ refl) λ _. settle-Keeps job result

    process_with_cleanup-Keeps :
        (job : AcquiredJob) → Keeps Guarded (process_with_cleanup world p job)
    unfolding process_with_cleanup
    process_with_cleanup-Keeps job = Keeps-bind Guarded (check_lost world) _ check_lost-Keeps begun
      where
        begun : (gone : Bool) → Keeps Guarded (unless_lost world p job gone)
        begun true = Keeps-pure Guarded _
        begun false =
            Keeps-bind Guarded (observe world.create_directory (created_directory job.item.job_id))
              _ (observe-Keeps _ _ refl) (in_directory-Keeps job)

    catch_panic-Keeps :
        (r : Result Stop ProcessingOutcome × Trace)
        → Guarded r.1
        → Guarded (catch_panic world p r).1
    unfolding retire observe
    catch_panic-Keeps (ok outcome, t) g = g
    catch_panic-Keeps (err timed_out, t) g = g
    catch_panic-Keeps (err (crashed Crash.dropped), t) g = g
    catch_panic-Keeps (err (crashed Crash.panicked), t) g = ground arith

    -- If the log before is so guarded, then however the world answers, and wherever an attempt
    -- fails, times out, panics or is dropped, every object write, completion, release and failure
    -- in the log comes directly after an ownership check that found the lease still owned.
    pub process-IsGuarded :
        (job : AcquiredJob) (t : Trace) → IsGuarded t.log → IsGuarded (process world p job t).1.log
    unfolding process
    process-IsGuarded job t g =
        catch_panic-Keeps (process_with_cleanup world p job t)
          ((process_with_cleanup-Keeps job).at t g)
