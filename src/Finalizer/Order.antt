-- ===== src/Finalizer/Order.antt =====
-- The order of the master playlist's write and the attempt's completion (worker/src/finalizer.rs).
use streaming_video_app.Prelude.{
  ℕ, ◌≡◌, Text, true, false, ◌⊎◌, List, ◌∷◌, length, Result, ok, err, is_ok,
}
use streaming_video_app.Acquisition.Types.{AcquiredJob}
use streaming_video_app.Persistence.Port.{applied}
use streaming_video_app.Orchestration.Input.{OrchestrationError, ExecutionInput, ownership_lost}
use streaming_video_app.Finalizer.Types.{Decoders, playlist_type, immutable_cache}
use streaming_video_app.Finalizer.Checks.{Variants}
use streaming_video_app.Finalizer.Effects.{Call, checked, published, completed, World}
use streaming_video_app.Finalizer.Run.{master_key}
use streaming_video_app.Finalizer.Readings.{AreReadings}
use streaming_video_app.Finalizer.Bounds.{IsPrepared}

module _ (decoders : Decoders) (world : World) (output_bucket : Text) (job : AcquiredJob)
    (input : ExecutionInput) where
  abbrev write : Text → Call
  write master =
      published output_bucket (master_key decoders world output_bucket job input) playlist_type
        immutable_cache master

  abbrev completion : Call
  completion =
      completed job.item.job_id job.item.video_id job.worker_id input.attempt
        (master_key decoders world output_bucket job input)

  -- How a run ends that wrote the master playlist after the calls `before`: with which answer and
  -- which calls.
  pub data IsEnding (before : List Call) (master : Text)
      : Result OrchestrationError (Unit {0}) × List Call → Type 0 where
    write_failed : (e : OrchestrationError) → IsEnding before master (err e, write master ∷ before)
    lost : IsEnding before master (err ownership_lost, checked true ∷ write master ∷ before)
    not_completed :
        (e : OrchestrationError)
        → IsEnding before master (err e, completion ∷ checked false ∷ write master ∷ before)
    done :
        world.complete (length (checked false ∷ write master ∷ before)) ≡ ok applied
        → IsEnding before master (ok tt, completion ∷ checked false ∷ write master ∷ before)

  -- A run either ends with an error before any write, or it writes a master playlist of variants
  -- that are within their bounds.
  abbrev pub IsOrdered : Result OrchestrationError (Unit {0}) × List Call → Type 0
  IsOrdered r =
      ((is_ok r.0 ≡ false) × AreReadings r.1)
      ⊎ ((before : List Call) × (source : ℕ × ℕ) × (variants : Variants) × (master : Text)
          × AreReadings before
          × IsPrepared decoders world input.renditions (source, (variants, master))
          × IsEnding before master r)
