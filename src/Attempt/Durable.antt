-- ===== src/Attempt/Durable.antt =====
-- The durable updates of an attempt (worker/src/retry.rs): none is made by the pipeline.
use streaming_video_app.Prelude.{
  ℕ, Text, ◌≡◌, refl, Bool, true, false, Option-cases, inl, inr, List, [], ◌∷◌, Result, ok, err,
  arith, if◌then◌else◌,
}
use streaming_video_app.Acquisition.Types.{AcquiredJob}
use streaming_video_app.Attempt.Effects.{
  HlsOutput, Failure, Call, completed_job, released_job, failed_job, World, Trace, Stop, ◌>>!◌,
  observe, timed_await, check_lost, encoded, reserved_disk,
}
use streaming_video_app.Attempt.Keeps.{Keeps, Keeps-bind, Keeps-try, Keeps-pure}
use streaming_video_app.Attempt.Publish.{
  guarded_write, publish_segment, publish_segments, publish_playlist, publish_hls_with_checkpoint,
  hls_prefix, hls_segment_content_type, hls_playlist_content_type, file_name, read_contents,
}
use streaming_video_app.Attempt.Process.{
  Processor, checkpoint, lock, download, encode_and_publish, run_pipeline, run_reserved,
  after_reservation, within_wall_time,
}

abbrev pub is_durable : Call → Bool
is_durable (completed_job j v w) = true
is_durable (released_job j v w max) = true
is_durable (failed_job j v w reason max) = true
is_durable _ = false

-- The durable updates that a trace asks for, the newest first.
abbrev pub durable : List Call → List Call
durable [] = []
durable (call ∷ log) = if is_durable call then call ∷ durable log else durable log

module _ (world : World) (D : List Call) where
  abbrev Quiet : Trace → Type 0
  Quiet t = durable t.log ≡ D

  observe-Quiet :
      {A : Type 0} (answer : ℕ → A) (call : Call)
      → is_durable call ≡ false
      → Keeps Quiet (observe answer call)
  unfolding observe
  observe-Quiet answer call h = record { at = λ t g. rw h g }

  timed_await-Quiet :
      {A : Type 0} (answer : ℕ → A) (call : Call)
      → is_durable call ≡ false
      → Keeps Quiet (timed_await world answer call)
  unfolding timed_await
  timed_await-Quiet answer call h = record { at = λ t g. rw h g }

  check_lost-Quiet : Keeps Quiet (check_lost world)
  unfolding check_lost
  check_lost-Quiet = record { at = λ t g. g }

  upload-Quiet :
      (bucket prefix path key content_type : Text)
      → Keeps Quiet (
          read_contents world bucket prefix path
          >>! guarded_write world bucket prefix key content_type)
  unfolding guarded_write
  upload-Quiet bucket prefix path key content_type =
      Keeps-try Quiet (read_contents world bucket prefix path) _ (timed_await-Quiet _ _ refl)
        λ contents.
          Keeps-bind Quiet (check_lost world) _ check_lost-Quiet
            (elim [ true ↦ Keeps-pure Quiet _ | false ↦ timed_await-Quiet _ _ refl ])

  publish_segments-Quiet :
      (bucket prefix : Text) (segments : List Text)
      → Keeps Quiet (publish_segments world bucket prefix segments)
  unfolding publish_segments publish_segment
  publish_segments-Quiet bucket prefix [] = Keeps-pure Quiet (ok tt)
  publish_segments-Quiet bucket prefix (segment ∷ segments) =
      Keeps-try Quiet (publish_segment world bucket prefix segment) _
        (elim (Option-cases (file_name segment)) [
          | inl e ↦ rw (e, publish_segment) (Keeps-pure Quiet _)
          | inr (name, e) ↦
              rw (e, publish_segment)
                (upload-Quiet bucket prefix segment _ hls_segment_content_type)
        ])
        (λ _. publish_segments-Quiet bucket prefix segments)

  publish-Quiet :
      (bucket v j : Text) (output : HlsOutput)
      → Keeps Quiet (publish_hls_with_checkpoint world bucket v j output)
  unfolding publish_hls_with_checkpoint publish_playlist
  publish-Quiet bucket v j output =
      Keeps-try Quiet (publish_segments world bucket (hls_prefix v j) output.segments) _
        (publish_segments-Quiet bucket (hls_prefix v j) output.segments)
        (λ _. upload-Quiet bucket (hls_prefix v j) output.playlist _ hls_playlist_content_type)

  module _ (p : Processor) (job : AcquiredJob) (directory : Text) where
    checkpoint-Quiet : Keeps Quiet (checkpoint world p)
    unfolding checkpoint
    checkpoint-Quiet =
        Keeps-bind Quiet (check_lost world) _ check_lost-Quiet (λ gone. Keeps-pure Quiet _)

    lock-Quiet : Keeps Quiet (lock world p)
    lock-Quiet = timed_await-Quiet _ _ refl

    encode_and_publish-Quiet : Keeps Quiet (encode_and_publish world p job directory)
    unfolding encode_and_publish
    encode_and_publish-Quiet = Keeps-try Quiet (lock world p) _ lock-Quiet λ _.
        Keeps-try Quiet (checkpoint world p) _ checkpoint-Quiet λ _.
          Keeps-try Quiet (timed_await world _ (encoded directory)) _ (timed_await-Quiet _ _ refl)
            λ output. Keeps-try Quiet (checkpoint world p) _ checkpoint-Quiet λ _.
              Keeps-try Quiet (lock world p) _ lock-Quiet λ _.
                Keeps-bind Quiet
                  (publish_hls_with_checkpoint world p.output_bucket job.item.video_id
                    job.item.job_id output)
                  _ (publish-Quiet p.output_bucket job.item.video_id job.item.job_id output)
                  λ result. Keeps-pure Quiet _

    run_pipeline-Quiet : Keeps Quiet (run_pipeline world p job directory)
    unfolding run_pipeline download
    run_pipeline-Quiet = Keeps-try Quiet (checkpoint world p) _ checkpoint-Quiet λ _.
        Keeps-try Quiet (lock world p) _ lock-Quiet λ _.
          Keeps-try Quiet (checkpoint world p) _ checkpoint-Quiet λ _.
            Keeps-try Quiet (download world p job) _ (timed_await-Quiet _ _ refl) λ source.
              Keeps-try Quiet (checkpoint world p) _ checkpoint-Quiet λ _.
                Keeps-try Quiet (timed_await world _ _) _ (timed_await-Quiet _ _ refl)
                  λ _. encode_and_publish-Quiet

    within-Quiet :
        (r : Result Stop (Result Failure (Unit {0})) × Trace)
        → Quiet r.1
        → Quiet (within_wall_time world p r).1
    within-Quiet r h = ground arith

    -- Reserving disk and running the pipeline asks for no durable update, however it ends.
    pub run_reserved-Quiet : Keeps Quiet (run_reserved world p job directory)
    unfolding run_reserved
    run_reserved-Quiet =
        Keeps-bind Quiet (observe world.reserve reserved_disk) _ (observe-Quiet _ _ refl) reserved
      where
        reserved :
            (reservation : Result Text (Unit {0}))
            → Keeps Quiet (after_reservation world p job directory reservation)
        reserved (err e) = record { at = λ t g. g }
        reserved (ok u) = record {
          at = λ t g.
              within-Quiet (run_pipeline world p job directory t) (run_pipeline-Quiet.at t g);
        }
