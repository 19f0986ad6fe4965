-- ===== src/Attempt/Process.antt =====
-- Processing of one acquired job (worker/src/retry.rs).
use streaming_video_app.Prelude.{
  ℕ, Text, codes, Bool, true, false, ltb, ◌++◌, Result, ok, err, if◌then◌else◌,
}
use streaming_video_app.Persistence.Port.{PersistenceError, JobOperationOutcome, applied, not_owner}
use streaming_video_app.Acquisition.Types.{AcquiredJob}
use streaming_video_app.Attempt.Effects.{
  PublishError, Failure, create_work_directory, disk_reservation, wall_time_exceeded,
  download_source, write_source, encode_hls, publish_hls, locked, created_directory,
  removed_directory, reserved_disk, read_object, wrote_file, encoded, completed_job, released_job,
  failed_job, retired, Crash, dropped, World, Trace, Stop, timed_out, crashed, M, pure, ◌>>=◌, ◌>>◌,
  ◌>>!◌, observe, await, timed_await, check_lost,
}
use streaming_video_app.Attempt.Publish.{publish_hls_with_checkpoint}
use streaming_video_app.Attempt.Settings.{RetrySettings}

pub data ProcessingOutcome : Type 0 where
  completed : ProcessingOutcome
  retry_released : ℕ → ProcessingOutcome
  final_failed ownership_lost infrastructure_failure panicked : ProcessingOutcome

-- `OwnedAttemptProcessor`, without the ports: they are the `World`.
pub record Processor : Type 0 where
  pub output_bucket : Text
  pub temporary_directory : Text
  pub settings : RetrySettings
  pub has_activity : Bool
  pub source_bytes : ℕ

module _ (world : World) (p : Processor) where
  -- `retire`: the heartbeat stops renewing this job.
  unfoldable pub retire : M (Unit {0})
  retire = if p.has_activity then observe (λ _. tt) retired else pure tt

  abbrev pub may_retry : AcquiredJob → Bool
  may_retry job = ltb job.attempt p.settings.maximum_attempts

  -- The two branches of the durable update after a failure.
  unfoldable pub persist_failure :
      AcquiredJob → Failure → M (Result PersistenceError JobOperationOutcome)
  persist_failure job failure = await world world.persist (
      if may_retry job
      then released_job job.item.job_id job.item.video_id job.worker_id p.settings.maximum_attempts
      else failed_job job.item.job_id job.item.video_id job.worker_id failure
          p.settings.maximum_attempts)

  abbrev pub failure_outcome :
      AcquiredJob → Result PersistenceError JobOperationOutcome → ProcessingOutcome
  failure_outcome job (err e) = infrastructure_failure
  failure_outcome job (ok not_owner) = ownership_lost
  failure_outcome job (ok applied) =
      if may_retry job then retry_released p.settings.retry_delay else final_failed

  abbrev pub is_ownership_lost : Failure → Bool
  is_ownership_lost Failure.ownership_lost = true
  is_ownership_lost _ = false

  -- From the lock of the job port on.
  unfoldable pub resolve_owned_failure : AcquiredJob → Failure → M ProcessingOutcome
  unfolding persist_failure retire
  resolve_owned_failure job failure = do
    await world (λ _. tt) locked
    gone ← check_lost world
    if gone
        then pure ownership_lost
        else persist_failure job failure >>= λ operation.
            retire >> pure (failure_outcome job operation)

  unfoldable pub resolve_failure : AcquiredJob → Failure → M ProcessingOutcome
  unfolding resolve_owned_failure
  resolve_failure job failure =
      if is_ownership_lost failure
      then pure ownership_lost
      else check_lost world >>= λ gone.
          if gone then pure ownership_lost else resolve_owned_failure job failure

  -- `if !Self::owned(cancelled) { return Err("ownership lost") }`
  unfoldable pub checkpoint : M (Result Failure (Unit {0}))
  checkpoint =
      check_lost world >>= λ gone. pure (if gone then err Failure.ownership_lost else ok tt)

  abbrev pub fails_as : {A : Type 0} → (Text → Failure) → Result Text A → Result Failure A
  fails_as f (ok a) = ok a
  fails_as f (err e) = err (f e)

  abbrev pub publish_failure : Result PublishError (Unit {0}) → Result Failure (Unit {0})
  publish_failure (ok u) = ok u
  publish_failure (err PublishError.ownership_lost) = err Failure.ownership_lost
  publish_failure (err other) = err (publish_hls other)

  unfoldable pub download : AcquiredJob → M (Result Failure Text)
  download job =
      timed_await world (λ n. fails_as download_source (world.read_bounded n))
        (read_object job.item.bucket job.item.key p.source_bytes)

  abbrev pub lock : M (Result Failure (Unit {0}))
  lock = timed_await world (λ _. ok tt) locked

  -- The second half of the pipeline: encode and publish.
  unfoldable pub encode_and_publish : AcquiredJob → Text → M (Result Failure (Unit {0}))
  unfolding checkpoint
  encode_and_publish job directory = lock >>! λ _. checkpoint >>! λ _.
      timed_await world (λ n. fails_as encode_hls (world.encode n)) (encoded directory)
      >>! λ output. checkpoint >>! λ _. lock >>! λ _.
          publish_hls_with_checkpoint world p.output_bucket job.item.video_id job.item.job_id output
          >>= λ result. pure (publish_failure result)

  unfoldable pub run_pipeline : AcquiredJob → Text → M (Result Failure (Unit {0}))
  unfolding checkpoint download encode_and_publish
  run_pipeline job directory = checkpoint >>! λ _. lock >>! λ _. checkpoint >>! λ _.
      download job >>! λ source. checkpoint >>! λ _.
      timed_await world (λ n. fails_as write_source (world.write_file n))
        (wrote_file (directory ++ codes "/source.mp4"))
      >>! λ _. encode_and_publish job directory

  -- `tokio::time::timeout(…)`: a pipeline that is out of time is dropped where it waits.
  abbrev pub within_wall_time :
      Result Stop (Result Failure (Unit {0})) × Trace
      → Result Stop (Result Failure (Unit {0})) × Trace
  within_wall_time (ok result, t) = (ok result, t)
  within_wall_time (err timed_out, t) = (ok (err wall_time_exceeded), t)
  within_wall_time (err (crashed c), t) = (err (crashed c), t)

  abbrev pub completion_outcome : Result PersistenceError JobOperationOutcome → ProcessingOutcome
  completion_outcome (ok applied) = completed
  completion_outcome (ok not_owner) = ownership_lost
  completion_outcome (err e) = infrastructure_failure

  -- The durable completion of published work.
  unfoldable pub complete_owned : AcquiredJob → M ProcessingOutcome
  unfolding retire
  complete_owned job = do
    await world (λ _. tt) locked
    gone ← check_lost world
    if gone
        then pure ownership_lost
        else await world world.persist
            (completed_job job.item.job_id job.item.video_id job.worker_id)
          >>= λ outcome. retire >> pure (completion_outcome outcome)

  abbrev pub settle : AcquiredJob → Result Failure (Unit {0}) → M ProcessingOutcome
  settle job (ok u) = complete_owned job
  settle job (err failure) = resolve_failure job failure

  abbrev pub after_reservation :
      AcquiredJob → Text → Result Text (Unit {0}) → M (Result Failure (Unit {0}))
  after_reservation job directory (err e) t = (ok (err (disk_reservation e)), t)
  after_reservation job directory (ok u) t = within_wall_time (run_pipeline job directory t)

  unfoldable pub run_reserved : AcquiredJob → Text → M (Result Failure (Unit {0}))
  run_reserved job directory =
      observe world.reserve reserved_disk >>= after_reservation job directory

  unfoldable pub in_directory : AcquiredJob → Result Text Text → M ProcessingOutcome
  unfolding run_reserved
  in_directory job (err e) = resolve_failure job (create_work_directory e)
  in_directory job (ok directory) = do
    result ← run_reserved job directory
    cleanup ← observe world.remove_directory removed_directory
    settle job result

  abbrev pub unless_lost : AcquiredJob → Bool → M ProcessingOutcome
  unless_lost job true = pure ownership_lost
  unless_lost job false =
      observe world.create_directory (created_directory job.item.job_id) >>= in_directory job

  unfoldable pub process_with_cleanup : AcquiredJob → M ProcessingOutcome
  process_with_cleanup job = check_lost world >>= unless_lost job

  -- `catch_unwind`: a panic retires the attempt and is never turned into a durable state.
  abbrev pub catch_panic :
      Result Stop ProcessingOutcome × Trace → Result Stop ProcessingOutcome × Trace
  catch_panic (err (crashed Crash.panicked), t) = (retire >> pure ProcessingOutcome.panicked) t
  catch_panic (ok outcome, t) = (ok outcome, t)
  catch_panic (err (crashed dropped), t) = (err (crashed dropped), t)
  catch_panic (err timed_out, t) = (err timed_out, t)

  unfoldable pub process : AcquiredJob → M ProcessingOutcome
  unfolding process_with_cleanup
  process job t = catch_panic (process_with_cleanup job t)

  -- A failure found outside the pipeline takes the same way.
  unfoldable pub fail_owned : AcquiredJob → Failure → M ProcessingOutcome
  unfolding resolve_failure
  fail_owned job failure = resolve_failure job failure
