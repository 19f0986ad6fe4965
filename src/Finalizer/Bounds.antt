-- ===== src/Finalizer/Bounds.antt =====
-- What the finalizer has checked before it writes (worker/src/finalizer.rs).
use streaming_video_app.Prelude.{
  ℕ, ◌≡◌, refl, ◌≤◌, ◌<◌, Text, text_eq, Bool, true, false, not, ◌==◌, ==_iff, List, [], ◌∷◌,
  length, All, ok, OnOk, OnOk-bind, OnOk-test, OnOk-of, OnOk-trivial, arith, if◌then◌else◌, codes,
}
use streaming_video_app.Config.Parse.{is_empty}
use streaming_video_app.Acquisition.Types.{AcquiredJob}
use streaming_video_app.Orchestration.Input.{ExecutionInput}
use streaming_video_app.Hls.Lines.{lines}
use streaming_video_app.Finalizer.Types.{MediaVariant, ValidatedObjects, Decoders, finalizer_error}
use streaming_video_app.Finalizer.Checks.{
  validate_result, Variants, insert, build_master, rendition_ceiling, durations_of, peak_of,
  peak_bandwidth,
}
use streaming_video_app.Finalizer.Effects.{
  created_directory, read_key, wrote_file, probed, World, lift, ask, guard,
}
use streaming_video_app.Finalizer.Objects.{
  first_segment, exceeds, validate_objects, inspect_actual_media, inspect_source,
}
use streaming_video_app.Finalizer.Run.{parsed, inspect_rendition, inspect_renditions, prepare}
use streaming_video_app.Finalizer.Readings.{
  Ensures-bind, Ensures-lift, Ensures-ask, Ensures-guard, Ensures-test, Ensures-step, Ensures-any,
  validate_objects-Ensures, inspect_source-IsProbed, IsProbed, Ensures,
}

-- Within the rendition's ceiling and the source's size, with a rate and with codecs.
abbrev pub IsWithin : ℕ × ℕ → Text → MediaVariant → Type 0
IsWithin source rendition variant =
    (variant.width ≤ (rendition_ceiling rendition).0)
    × (variant.height ≤ (rendition_ceiling rendition).1)
    × (variant.width ≤ source.0)
    × (variant.height ≤ source.1)
    × (0 < variant.bandwidth)
    × (is_empty variant.codecs ≡ false)

module _ (decoders : Decoders) (world : World) where
  fits :
      (w h : ℕ) (most : ℕ × ℕ)
      → not (exceeds decoders world (w, h) most) ≡ true
      → (w ≤ most.0) × (h ≤ most.1)
  fits w h (most_w, most_h) e = ground arith

  has_rate : (n : ℕ) → not (n == 0) ≡ true → 0 < n
  has_rate n e = ground arith

  has_codecs : (b : Bool) → not b ≡ true → b ≡ false
  has_codecs true e = absurd cc
  has_codecs false e = refl

  peak_bandwidth-lt :
      (playlist : Text) (sizes : List ℕ)
      → OnOk (λ n. 0 < n) (peak_bandwidth decoders playlist sizes)
  unfolding peak_bandwidth
  peak_bandwidth-lt playlist sizes =
      OnOk-bind (λ _. Unit {0}) (λ n. 0 < n)
        (durations_of decoders (lines (decoders.from_utf8_lossy playlist))) _ (OnOk-trivial _)
        (λ durations _.
          OnOk-test (λ n. 0 < n) (length durations == length sizes)
            (finalizer_error (codes "media playlist EXTINF count mismatch")) _
            (λ _.
              OnOk-test (λ n. 0 < n) (not (peak_of decoders durations sizes 0 == 0))
                (finalizer_error (codes "actual media claims are invalid")) _
                (has_rate (peak_of decoders durations sizes 0))))

  inspect_actual_media-IsWithin :
      (rendition : Text) (objects : ValidatedObjects) (source : ℕ × ℕ)
      → Ensures
          (IsWithin source rendition)
          (inspect_actual_media decoders world rendition objects source)
  unfolding inspect_actual_media
  inspect_actual_media-IsWithin rendition objects source =
      Ensures-step (IsWithin source rendition)
        (lift (first_segment decoders world objects.segments)) _ (Ensures-any _)
        (λ _.
          Ensures-step (IsWithin source rendition) (ask (wrote_file _) world.write_file) _
            (Ensures-ask _ world.write_file refl)
            (λ _.
              Ensures-step (IsWithin source rendition) (ask (probed _) world.probe_encoded) _
                (Ensures-ask _ world.probe_encoded refl)
                (λ measured.
                  Ensures-test (IsWithin source rendition)
                    (not (
                      exceeds decoders world (measured.0, measured.1)
                        (rendition_ceiling rendition)))
                    _ _
                    (λ below.
                      Ensures-test (IsWithin source rendition)
                        (not (exceeds decoders world (measured.0, measured.1) source)) _ _
                        (λ within.
                          Ensures-bind (λ n. 0 < n) (IsWithin source rendition)
                            (lift (peak_bandwidth decoders objects.playlist _)) _
                            (Ensures-lift (λ n. 0 < n) _ (peak_bandwidth-lt objects.playlist _))
                            (λ bandwidth positive.
                              Ensures-test (IsWithin source rendition) (not (is_empty measured.2)) _
                                _
                                (λ named. Ensures-lift (IsWithin source rendition) (ok _) (
                                  let b =
                                    fits measured.0 measured.1 (rendition_ceiling rendition)
                                      below in
                                  let w = fits measured.0 measured.1 source within in
                                  (
                                    b.0,
                                    b.1,
                                    w.0,
                                    w.1,
                                    positive,
                                    has_codecs (is_empty measured.2) named,
                                  )))))))))

-- Every variant is within its rendition's bounds.
abbrev pub AreWithin : ℕ × ℕ → Variants → Type 0
AreWithin source variants = All (λ entry. IsWithin source entry.0 entry.1) variants

insert-AreWithin :
    (source : ℕ × ℕ) (rendition : Text) (variant : MediaVariant) (variants : Variants)
    → IsWithin source rendition variant
    → AreWithin source variants
    → AreWithin source (insert rendition variant variants)
insert-AreWithin source rendition variant [] h hs = (h, tt)
insert-AreWithin source rendition variant ((name, old) ∷ rest) h hs =
    placed (text_eq name rendition) (insert-AreWithin source rendition variant rest h hs.1)
  where
    placed :
        (b : Bool)
        → AreWithin source (insert rendition variant rest)
        → AreWithin source
            (if b then (rendition, variant) ∷ rest else (name, old) ∷ insert rendition variant rest)
    placed true below = (h, hs.1)
    placed false below = (hs.0, below)

-- What `prepare` yields: the size that the source was probed to have, variants within their bounds,
-- one for each rendition, and their master.
abbrev pub IsPrepared : Decoders → World → List Text → (ℕ × ℕ) × (Variants × Text) → Type 0
IsPrepared decoders world renditions (source, (variants, master)) =
    IsProbed decoders world source
    × AreWithin source variants
    × (length variants ≡ length renditions)
    × (build_master renditions variants ≡ ok master)

module _ (decoders : Decoders) (world : World) (output_bucket : Text) (job : AcquiredJob)
    (input : ExecutionInput) where
  inspect_rendition-IsWithin :
      (source : ℕ × ℕ) (rendition : Text)
      → Ensures
          (IsWithin source rendition)
          (inspect_rendition decoders world output_bucket job input source rendition)
  unfolding inspect_rendition
  inspect_rendition-IsWithin source rendition =
      Ensures-step (IsWithin source rendition) (guard world) _ (Ensures-guard world) (λ _.
        Ensures-step (IsWithin source rendition) (ask (read_key output_bucket _) world.read) _
          (Ensures-ask _ world.read refl)
          (λ bytes.
            Ensures-step (IsWithin source rendition) (lift (parsed (decoders.child_result bytes))) _
              (Ensures-any _)
              (λ result.
                Ensures-step (IsWithin source rendition)
                  (lift (validate_result result input rendition _)) _ (Ensures-any _)
                  (λ _.
                    Ensures-step (IsWithin source rendition)
                      (validate_objects decoders world output_bucket result) _
                      (validate_objects-Ensures decoders world output_bucket result)
                      (λ objects.
                        inspect_actual_media-IsWithin decoders world rendition objects source)))))

  inspect_renditions-AreWithin :
      (source : ℕ × ℕ) (renditions : List Text) (variants : Variants)
      → AreWithin source variants
      → Ensures
          (AreWithin source)
          (inspect_renditions decoders world output_bucket job input source renditions variants)
  unfolding inspect_renditions
  inspect_renditions-AreWithin source [] variants h =
      Ensures-lift (AreWithin source) (ok variants) h
  inspect_renditions-AreWithin source (rendition ∷ later) variants h =
      Ensures-bind (IsWithin source rendition) (AreWithin source)
        (inspect_rendition decoders world output_bucket job input source rendition) _
        (inspect_rendition-IsWithin source rendition)
        (λ variant w.
          inspect_renditions-AreWithin source later (insert rendition variant variants)
            (insert-AreWithin source rendition variant variants w h))

  pub prepare-IsPrepared :
      Ensures
        (IsPrepared decoders world input.renditions)
        (prepare decoders world output_bucket job input)
  unfolding prepare
  prepare-IsPrepared =
      Ensures-step (IsPrepared decoders world input.renditions) (guard world) _
        (Ensures-guard world)
        (λ _.
          Ensures-step (IsPrepared decoders world input.renditions)
            (ask created_directory world.tempdir) _ (Ensures-ask _ world.tempdir refl)
            (λ _.
              Ensures-bind (IsProbed decoders world) (IsPrepared decoders world input.renditions)
                (inspect_source decoders world job.item.bucket input.source_key) _
                (inspect_source-IsProbed decoders world job.item.bucket input.source_key)
                (λ source probed_source.
                  Ensures-bind (AreWithin source) (IsPrepared decoders world input.renditions)
                    (inspect_renditions decoders world output_bucket job input source
                      input.renditions [])
                    _ (inspect_renditions-AreWithin source input.renditions [] tt)
                    (λ variants within.
                      Ensures-test (IsPrepared decoders world input.renditions)
                        (length variants == length input.renditions) _ _
                        (λ same.
                          Ensures-step (IsPrepared decoders world input.renditions) (guard world) _
                            (Ensures-guard world)
                            (λ _.
                              Ensures-bind
                                (λ master. build_master input.renditions variants ≡ ok master)
                                (IsPrepared decoders world input.renditions)
                                (lift (build_master input.renditions variants)) _
                                (Ensures-lift
                                  (λ master. build_master input.renditions variants ≡ ok master) _
                                  (OnOk-of (build_master input.renditions variants)))
                                (λ master built.
                                  Ensures-lift (IsPrepared decoders world input.renditions)
                                    (ok (source, (variants, master)))
                                    (
                                      probed_source,
                                      within,
                                      (==_iff (length variants) (length input.renditions)).0 same,
                                      built,
                                    ))))))))
