-- ===== src/Finalizer/Run.antt =====
-- The finalizer (worker/src/finalizer.rs).
use streaming_video_app.Prelude.{
  ℕ, Text, codes, Option, none, some, List, [], ◌∷◌, length, ◌==◌, Result, ok, err,
}
use streaming_video_app.Acquisition.Types.{AcquiredJob}
use streaming_video_app.Persistence.Port.{JobOperationOutcome, applied}
use streaming_video_app.Orchestration.Input.{OrchestrationError, ExecutionInput, ownership_lost}
use streaming_video_app.Finalizer.Types.{
  playlist_type, immutable_cache, ChildResult, MediaVariant, Decoders, finalizer_error,
}
use streaming_video_app.Finalizer.Checks.{
  demand, slash, validate_result, Variants, insert, build_master,
}
use streaming_video_app.Finalizer.Effects.{
  created_directory, read_key, published, completed, World, M, ◌>>=◌, pure, lift, ask, guard,
}
use streaming_video_app.Finalizer.Objects.{validate_objects, inspect_actual_media, inspect_source}

abbrev pub parsed : Option ChildResult → Result OrchestrationError ChildResult
parsed none = err (finalizer_error (codes "invalid child result"))
parsed (some result) = ok result

module _ (decoders : Decoders) (world : World) (output_bucket : Text) (job : AcquiredJob)
    (input : ExecutionInput) where
  open decoders use {child_result}

  -- One turn of the loop over the renditions.
  unfoldable pub inspect_rendition : ℕ × ℕ → Text → M MediaVariant
  unfolding validate_result validate_objects inspect_actual_media
  inspect_rendition source rendition = do
    _ ← guard world
    bytes ←
        ask
          (read_key output_bucket
            (slash (slash input.output_prefix rendition) (codes "result.json")))
          world.read
    result ← lift (parsed (child_result bytes))
    _ ← lift (
        validate_result result input rendition
          (slash (slash input.output_prefix rendition) (codes "result.json")))
    objects ← validate_objects decoders world output_bucket result
    inspect_actual_media decoders world rendition objects source

  unfoldable pub inspect_renditions : ℕ × ℕ → List Text → Variants → M Variants
  unfolding inspect_rendition
  inspect_renditions source [] variants = pure variants
  inspect_renditions source (rendition ∷ later) variants = do
    variant ← inspect_rendition source rendition
    inspect_renditions source later (insert rendition variant variants)

  -- Up to the master playlist, with the source's size.
  unfoldable pub prepare : M ((ℕ × ℕ) × (Variants × Text))
  unfolding inspect_source inspect_renditions build_master
  prepare = do
    _ ← guard world
    _ ← ask created_directory world.tempdir
    source ← inspect_source decoders world job.item.bucket input.source_key
    variants ← inspect_renditions source input.renditions []
    _ ← lift (demand (length variants == length input.renditions) (codes "missing rendition"))
    _ ← guard world
    master ← lift (build_master input.renditions variants)
    pure (source, (variants, master))

  abbrev pub master_key : Text
  master_key = slash input.output_prefix (codes "index.m3u8")

  abbrev pub must_apply : JobOperationOutcome → Result OrchestrationError (Unit {0})
  must_apply applied = ok tt
  must_apply _ = err ownership_lost

  abbrev pub complete_run : M (Unit {0})
  complete_run = do
    outcome ←
        ask (completed job.item.job_id job.item.video_id job.worker_id input.attempt master_key)
          world.complete
    lift (must_apply outcome)

  abbrev pub after_write : M (Unit {0})
  after_write = do _ ← guard world; complete_run

  -- From the write of the master playlist on.
  unfoldable pub publish : Text → M (Unit {0})
  publish master = do
    _ ← ask (published output_bucket master_key playlist_type immutable_cache master) world.put
    after_write

  unfoldable pub finalize : M (Unit {0})
  unfolding prepare publish
  finalize = do prepared ← prepare; publish prepared.1.1
