-- ===== src/Finalizer/Readings.antt =====
-- The calls of the finalizer before it writes (worker/src/finalizer.rs).
use streaming_video_app.Prelude.{
  ℕ, ◌≡◌, refl, Text, Bool, true, false, ◌==◌, List, [], ◌∷◌, length, All, Result, ok, err, OnOk,
  OnOk-ensure, OnOk-trivial, codes,
}
use streaming_video_app.Prelude.Logged.{Triple, Triple-bind, Outcome}
use streaming_video_app.Orchestration.Input.{OrchestrationError}
use streaming_video_app.Finalizer.Types.{ObjectDescriptor, ChildResult, Decoders, finalizer_error}
use streaming_video_app.Finalizer.Checks.{demand}
use streaming_video_app.Finalizer.Effects.{
  Call, checked, read_key, wrote_file, published, completed, World, M, ◌>>=◌, lift, ask, guard,
  unless_gone, or_finalizer,
}
use streaming_video_app.Finalizer.Objects.{
  read_descriptor, check_object, read_segments, references_in, validate_objects, inspect_source,
}

-- Neither the write of the master playlist nor the completion of the attempt.
abbrev pub is_reading : Call → Bool
is_reading (published bucket key content_type cache contents) = false
is_reading (completed job_id video_id worker attempt key) = false
is_reading _ = true

abbrev pub AreReadings : List Call → Type 0
AreReadings log = All (λ call. is_reading call ≡ true) log

-- From readings, only readings follow; and what holds of the value.
abbrev pub Ensures : {A : Type 0} → (A → Type 0) → M A → Type 0
Ensures Q m = Triple AreReadings (λ a log. AreReadings log × Q a) AreReadings m

pub Ensures-bind :
    {A B : Type 0} (P : A → Type 0) (Q : B → Type 0) (m : M A) (f : A → M B)
    → Ensures P m
    → ((a : A) → P a → Ensures Q (f a))
    → Ensures Q (m >>= f)
Ensures-bind P Q m f h k =
    Triple-bind AreReadings (λ a log. AreReadings log × P a) (λ b log. AreReadings log × Q b)
      AreReadings m f h (λ a. record { at = λ log p. (k a p.1).at log p.0 })

-- A step that answers `r` and makes one call, or none.
pub answered :
    {A : Type 0} (Q : A → Type 0) (r : Result OrchestrationError A) (log : List Call)
    → AreReadings log
    → OnOk Q r
    → Outcome (λ a log'. AreReadings log' × Q a) AreReadings (r, log)
answered Q (ok a) log hs h = (hs, h)
answered Q (err e) log hs h = hs

pub Ensures-lift :
    {A : Type 0} (Q : A → Type 0) (r : Result OrchestrationError A) → OnOk Q r → Ensures Q (lift r)
Ensures-lift Q r h = record { at = λ log hs. answered Q r log hs h }

-- A call that reads.
pub Ensures-ask :
    {A : Type 0} (call : Call) (answer : ℕ → Result Text A)
    → is_reading call ≡ true
    → Ensures (λ _. Unit {0}) (ask call answer)
Ensures-ask call answer e = record {
  at = λ log hs.
      answered (λ _. Unit {0}) (or_finalizer (answer (length log))) (call ∷ log) (e, hs)
        (OnOk-trivial (or_finalizer (answer (length log))));
}

-- A call that reads, and the answer that it yields.
pub Ensures-answer :
    {A : Type 0} (call : Call) (answer : ℕ → Result Text A)
    → is_reading call ≡ true
    → Ensures (λ a. (n : ℕ) × (answer n ≡ ok a)) (ask call answer)
Ensures-answer {A = A} call answer e = record {
  at = λ log hs.
      answered (λ a. (n : ℕ) × (answer n ≡ ok a)) (or_finalizer (answer (length log))) (call ∷ log)
        (e, hs) (given (length log) (answer (length log)) refl);
}
  where
    given :
        (n : ℕ) (r : Result Text A)
        → answer n ≡ r
        → OnOk (λ a. (n : ℕ) × (answer n ≡ ok a)) (or_finalizer r)
    given n (ok a) h = (n, h)
    given n (err message) h = tt

pub Ensures-guard : (world : World) → Ensures (λ _. Unit {0}) (guard world)
Ensures-guard world = record {
  at = λ log hs.
      answered (λ _. Unit {0}) (unless_gone (world.gone (length log)))
        (checked (world.gone (length log)) ∷ log) (refl, hs)
        (OnOk-trivial (unless_gone (world.gone (length log))));
}

pub Ensures-test :
    {A : Type 0} (Q : A → Type 0) (b : Bool) (message : Text) (f : Unit {0} → M A)
    → (b ≡ true → Ensures Q (f tt))
    → Ensures Q (lift (demand b message) >>= f)
Ensures-test Q b message f h =
    Ensures-bind (λ _. b ≡ true) Q (lift (demand b message)) f
      (Ensures-lift (λ _. b ≡ true) (demand b message) (OnOk-ensure b (finalizer_error message)))
      (λ u e. h e)

-- A step whose value does not matter.
pub Ensures-step :
    {A B : Type 0} (Q : B → Type 0) (m : M A) (f : A → M B)
    → Ensures (λ _. Unit {0}) m
    → ((a : A) → Ensures Q (f a))
    → Ensures Q (m >>= f)
Ensures-step Q m f h k = Ensures-bind (λ _. Unit {0}) Q m f h (λ a _. k a)

pub Ensures-any : {A : Type 0} (r : Result OrchestrationError A) → Ensures (λ _. Unit {0}) (lift r)
Ensures-any r = Ensures-lift (λ _. Unit {0}) r (OnOk-trivial r)

module _ (decoders : Decoders) (world : World) where
  read_descriptor-Ensures :
      (bucket : Text) (descriptor : ObjectDescriptor) (content_type : Text)
      → Ensures (λ _. Unit {0}) (read_descriptor decoders world bucket descriptor content_type)
  unfolding read_descriptor
  read_descriptor-Ensures bucket descriptor content_type =
      Ensures-step (λ _. Unit {0}) (lift (demand _ _)) _ (Ensures-any _)
        (λ _.
          Ensures-step (λ _. Unit {0}) (ask (read_key bucket descriptor.key) world.read_object) _
            (Ensures-ask _ world.read_object refl)
            (λ object.
              Ensures-step (λ _. Unit {0}) (lift (check_object object descriptor content_type)) _
                (Ensures-any _) (λ _. Ensures-any (ok object.contents))))

  read_segments-Ensures :
      (bucket prefix : Text) (descriptors : List ObjectDescriptor) (index : ℕ)
      → Ensures (λ _. Unit {0}) (read_segments decoders world bucket prefix descriptors index)
  unfolding read_segments
  read_segments-Ensures bucket prefix [] index = Ensures-any (ok [])
  read_segments-Ensures bucket prefix (descriptor ∷ later) index =
      Ensures-step (λ _. Unit {0}) (lift (demand _ _)) _ (Ensures-any _)
        (λ _.
          Ensures-step (λ _. Unit {0}) (read_descriptor decoders world bucket descriptor _) _
            (read_descriptor-Ensures bucket descriptor _)
            (λ contents.
              Ensures-step (λ _. Unit {0}) (read_segments decoders world bucket prefix later _) _
                (read_segments-Ensures bucket prefix later _)
                (λ rest. Ensures-any (ok (contents ∷ rest)))))

  pub validate_objects-Ensures :
      (bucket : Text) (result : ChildResult)
      → Ensures (λ _. Unit {0}) (validate_objects decoders world bucket result)
  unfolding validate_objects
  validate_objects-Ensures bucket result =
      Ensures-step (λ _. Unit {0}) (read_descriptor decoders world bucket result.media_playlist _) _
        (read_descriptor-Ensures bucket result.media_playlist _)
        (λ playlist.
          Ensures-step (λ _. Unit {0}) (lift (demand _ _)) _ (Ensures-any _)
            (λ _.
              Ensures-step (λ _. Unit {0}) (lift (references_in decoders world playlist)) _
                (Ensures-any _)
                (λ count.
                  Ensures-step (λ _. Unit {0})
                    (lift (
                      demand (count == length result.segments)
                        (codes "segment descriptor count mismatch")))
                    _ (Ensures-any _)
                    (λ _.
                      Ensures-step (λ _. Unit {0})
                        (read_segments decoders world bucket result.output_prefix result.segments 0)
                        _ (read_segments-Ensures bucket result.output_prefix result.segments 0)
                        (λ segments.
                          Ensures-any
                            (ok (record { playlist = playlist; segments = segments })))))))

  -- The size of a source is an answer of its probe.
  abbrev pub IsProbed : ℕ × ℕ → Type 0
  IsProbed source = (n : ℕ) × (world.probe_source n ≡ ok source)

  pub inspect_source-IsProbed :
      (bucket key : Text) → Ensures IsProbed (inspect_source decoders world bucket key)
  unfolding inspect_source
  inspect_source-IsProbed bucket key =
      Ensures-step IsProbed (ask (read_key bucket key) world.read) _ (Ensures-ask _ world.read refl)
        (λ bytes. Ensures-step IsProbed (lift (demand _ _)) _ (Ensures-any _) (λ _.
          Ensures-step IsProbed (ask (wrote_file _) world.write_file) _
            (Ensures-ask _ world.write_file refl) (λ _. Ensures-answer _ world.probe_source refl)))
