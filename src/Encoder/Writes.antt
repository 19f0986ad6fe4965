-- ===== src/Encoder/Writes.antt =====
-- The objects that a child encoder has written so far (worker/src/encoder.rs).
use streaming_video_app.Prelude.{
  ℕ, zero, suc, ◌+◌, ◌≡◌, refl, sym, ap, subst, Text, codes, not, List, [], ◌∷◌, ◌++◌, length,
  Result, OnOk, ok, err, arith, ensure, ◌∙◌,
}
use streaming_video_app.Prelude.Logged.{Triple, Triple-bind, Outcome}
use streaming_video_app.Config.Parse.{is_empty}
use streaming_video_app.Hls.Lines.{segment_name}
use streaming_video_app.Finalizer.Checks.{slash}
use streaming_video_app.Encoder.Payload.{EncoderError, media, storage}
use streaming_video_app.Encoder.Media.{Documents, Probe}
use streaming_video_app.Encoder.Rates.{Floats}
use streaming_video_app.Encoder.Effects.{
  Call, probed, read_file, put, World, M, ◌>>=◌, lift, ask, ask_probe, as_error,
}
use streaming_video_app.Encoder.Run.{write_segment, write_segments}

abbrev pub key_of : Call → List Text
key_of (put bucket key content_type cache contents) = key ∷ []
key_of _ = []

-- The keys that were written to, the newest first.
abbrev pub put_keys : List Call → List Text
put_keys [] = []
put_keys (call ∷ log) = key_of call ++ put_keys log

-- The keys of the first so many segments, the newest first.
abbrev pub segment_keys : Text → ℕ → List Text
segment_keys prefix zero = []
segment_keys prefix (suc n) = slash prefix (segment_name n) ∷ segment_keys prefix n

-- How far the writes can have come.
pub data IsPartial (prefix : Text) : List Text → Type 0 where
  some_segments : (n : ℕ) → IsPartial prefix (segment_keys prefix n)
  with_playlist :
      (n : ℕ) → IsPartial prefix (slash prefix (codes "index.m3u8") ∷ segment_keys prefix n)
  with_result :
      (n : ℕ)
      → IsPartial prefix (
          slash prefix (codes "result.json")
          ∷ slash prefix (codes "index.m3u8")
          ∷ segment_keys prefix n)

abbrev pub Keys : Type 1
Keys = List Text → Type 0

module _ (prefix : Text) where
  -- From keys `K`; a value comes with keys `Q`, an error with a part of the writes.
  abbrev pub Writes : {A : Type 0} → Keys → (A → Keys) → M A → Type 0
  Writes K Q m =
      Triple (λ log. K (put_keys log)) (λ a log. Q a (put_keys log))
        (λ log. IsPartial prefix (put_keys log)) m

  pub Writes-bind :
      {A B : Type 0} (K : Keys) (P : A → Keys) (Q : B → Keys) (m : M A) (f : A → M B)
      → Writes K P m
      → ((a : A) → Writes (P a) Q (f a))
      → Writes K Q (m >>= f)
  Writes-bind K P Q m f h k =
      Triple-bind (λ log. K (put_keys log)) (λ a log. P a (put_keys log))
        (λ b log. Q b (put_keys log)) (λ log. IsPartial prefix (put_keys log)) m f h k

  -- What `K` says of the keys is a part of the writes.
  abbrev pub IsSafe : Keys → Type 0
  IsSafe K = (keys : List Text) → K keys → IsPartial prefix keys

  pub answered :
      {A : Type 0} (K : Keys) (r : Result EncoderError A) (log : List Call)
      → IsSafe K
      → K (put_keys log)
      → Outcome (λ _ log'. K (put_keys log')) (λ log'. IsPartial prefix (put_keys log')) (r, log)
  answered K (ok a) log safe h = h
  answered K (err e) log safe h = safe (put_keys log) h

  pub lift-Writes :
      {A : Type 0} (K : Keys) (r : Result EncoderError A) → IsSafe K → Writes K (λ _. K) (lift r)
  lift-Writes K r safe = record { at = λ log h. answered K r log safe h }

  -- A call that writes no object.
  pub ask-Writes :
      {A : Type 0} (K : Keys) (f : Text → EncoderError) (call : Call) (answer : ℕ → Result Text A)
      → key_of call ≡ []
      → IsSafe K
      → Writes K (λ _. K) (ask f call answer)
  ask-Writes K f call answer e safe = record {
    at = λ log h.
        answered K (as_error f (answer (length log))) (call ∷ log) safe
          (subst (λ keys. K (keys ++ put_keys log)) (sym e) h);
  }

  pub probe-Writes :
      {A : Type 0} (K : Keys) (answer : ℕ → Probe) (command : List Text)
      (read : Probe → Result EncoderError A)
      → IsSafe K
      → Writes K (λ _. K) (ask_probe answer command read)
  probe-Writes K answer command read safe = record {
    at = λ log h. answered K (read (answer (length log))) (probed command ∷ log) safe h;
  }

  -- A write of an object.
  pub put-Writes :
      {A : Type 0} (K K' : Keys) (f : Text → EncoderError)
      (bucket key content_type cache contents : Text) (answer : ℕ → Result Text A)
      → ((keys : List Text) → K keys → K' (key ∷ keys))
      → IsSafe K'
      → Writes K (λ _. K') (ask f (put bucket key content_type cache contents) answer)
  put-Writes K K' f bucket key content_type cache contents answer more safe = record {
    at = λ log h.
        answered K' (as_error f (answer (length log)))
          (put bucket key content_type cache contents ∷ log) safe (more (put_keys log) h);
  }

  -- A check, and what it ensures.
  pub lift-OnOk :
      {A : Type 0} (K : Keys) (F : A → Type 0) (r : Result EncoderError A)
      → IsSafe K
      → OnOk F r
      → Writes K (λ a keys. K keys × F a) (lift r)
  lift-OnOk K F (ok a) safe h = record { at = λ log k. (k, h) }
  lift-OnOk K F (err e) safe h = record { at = λ log k. safe (put_keys log) k }

  -- A call that writes no object, and the answer that it yields.
  pub ask-answer :
      {A : Type 0} (K : Keys) (f : Text → EncoderError) (call : Call) (answer : ℕ → Result Text A)
      → key_of call ≡ []
      → IsSafe K
      → Writes K (λ a keys. K keys × ((n : ℕ) × (answer n ≡ ok a))) (ask f call answer)
  ask-answer {A = A} K f call answer e safe = record {
    at = λ log h.
        given (length log) (call ∷ log) (subst (λ keys. K (keys ++ put_keys log)) (sym e) h)
          (answer (length log)) refl;
  }
    where
      given :
          (n : ℕ) (log : List Call)
          → K (put_keys log)
          → (r : Result Text A) → answer n ≡ r
          → Outcome
              (λ a log'. K (put_keys log') × ((n : ℕ) × (answer n ≡ ok a)))
              (λ log'. IsPartial prefix (put_keys log'))
              (as_error f r, log)
      given n log h (ok a) e = (h, (n, e))
      given n log h (err reason) e = safe (put_keys log) h

  -- What is known before a step.
  pub with_fact :
      {A : Type 0} (K : Keys) (F : Type 0) (Q : A → Keys) (m : M A)
      → (F → Writes K Q m)
      → Writes (λ keys. K keys × F) Q m
  with_fact K F Q m h = record { at = λ log k. (h k.1).at log k.0 }

  -- The first so many segments have been written, and nothing else.
  abbrev pub Segments : ℕ → Keys
  Segments n keys = keys ≡ segment_keys prefix n

  pub Segments-IsSafe : (n : ℕ) → IsSafe (Segments n)
  Segments-IsSafe n keys h = subst (IsPartial prefix) (sym h) (some_segments n)

  abbrev pub Listed : ℕ → Keys
  Listed n keys = keys ≡ slash prefix (codes "index.m3u8") ∷ segment_keys prefix n

  pub Listed-IsSafe : (n : ℕ) → IsSafe (Listed n)
  Listed-IsSafe n keys h = subst (IsPartial prefix) (sym h) (with_playlist n)

  abbrev pub Finished : ℕ → Keys
  Finished n keys =
      keys
      ≡ slash prefix (codes "result.json")
        ∷ slash prefix (codes "index.m3u8")
        ∷ segment_keys prefix n

  pub Finished-IsSafe : (n : ℕ) → IsSafe (Finished n)
  Finished-IsSafe n keys h = subst (IsPartial prefix) (sym h) (with_result n)

  module _ (documents : Documents) (floats : Floats) (world : World) (bucket : Text) where
    pub write_segment-Writes :
        (index : ℕ) (segment : Text)
        → Writes
            (Segments index)
            (λ _. Segments (suc index))
            (write_segment documents floats world bucket prefix index segment)
    unfolding write_segment
    write_segment-Writes index segment =
        Writes-bind (Segments index) (λ _. Segments index) (λ _. Segments (suc index))
          (ask media (read_file segment) world.contents) _
          (ask-Writes (Segments index) media (read_file segment) world.contents refl
            (Segments-IsSafe index))
          (λ contents.
            Writes-bind (Segments index) (λ _. Segments index) (λ _. Segments (suc index))
              (lift (ensure (not (is_empty contents)) (media (codes "empty segment")))) _
              (lift-Writes (Segments index) _ (Segments-IsSafe index))
              (λ _.
                Writes-bind (Segments index) (λ _. Segments (suc index)) (λ _. Segments (suc index))
                  (ask storage (put bucket (slash prefix (segment_name index)) _ _ contents)
                    world.upload)
                  _
                  (put-Writes (Segments index) (Segments (suc index)) storage bucket
                    (slash prefix (segment_name index)) _ _ contents world.upload
                    (λ keys h. ap (λ ks. slash prefix (segment_name index) ∷ ks) h)
                    (Segments-IsSafe (suc index)))
                  (λ _. lift-Writes (Segments (suc index)) (ok _) (Segments-IsSafe (suc index)))))

    pub write_segments-Writes :
        (index : ℕ) (segments : List Text)
        → Writes
            (Segments index)
            (λ _. Segments (index + length segments))
            (write_segments documents floats world bucket prefix index segments)
    unfolding write_segments
    write_segments-Writes index [] = record {
      at = λ log h. h ∙ ap (segment_keys prefix) (omega arith);
    }
    write_segments-Writes index (segment ∷ later) =
        Writes-bind (Segments index) (λ _. Segments (suc index))
          (λ _. Segments (index + suc (length later)))
          (write_segment documents floats world bucket prefix index segment) _
          (write_segment-Writes index segment)
          (λ descriptor.
            Writes-bind (Segments (suc index)) (λ _. Segments (suc index + length later))
              (λ _. Segments (index + suc (length later)))
              (write_segments documents floats world bucket prefix (suc index) later) _
              (write_segments-Writes (suc index) later)
              (λ descriptors. record { at = λ log h. h ∙ ap (segment_keys prefix) (omega arith) }))
