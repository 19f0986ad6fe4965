-- ===== src/Encoder/Agreement.antt =====
-- The finalizer accepts what a child encoder writes (worker/src/encoder.rs, worker/src/finalizer.rs).
use streaming_video_app.Prelude.{
  ℕ, ◌≤◌, ◌<◌, max, ◌≡◌, refl, sym, subst, ap, ◌∙◌, Text, codes, decimal, text_eq, text_eq_refl,
  text_eq_sound, Bool, true, false, not, ◌||◌, ◌&&◌, List, ltb, ◌==◌, ok, err, ensure, ◌>>=◌,
  Option, some, none, leb, map, if◌then◌else◌, arith, OnOk, OnOk-test, OnOk-at, OnOk-ensure,
  OnOk-imp, inl, inr, Bool-cases,
}
use mathlib.Core.List.{append_assoc}
use streaming_video_app.Naming.{canonical_output_prefix}
use streaming_video_app.Config.Parse.{is_empty}
use streaming_video_app.Orchestration.Input.{ExecutionInput}
use streaming_video_app.Finalizer.Run.{parsed}
use streaming_video_app.Finalizer.Types.{finalizer_error, ObjectDescriptor, ChildResult}
use streaming_video_app.Finalizer.Checks.{slash, is_of_another_run, has_bad_claims, validate_result}
use streaming_video_app.Encoder.Payload.{
  ChildPayload, invalid_payload, canonical_uuid, expected_execution, expected_source,
  expected_prefix, is_rendition, validate_payload, ceiling,
}
use streaming_video_app.Encoder.Media.{Documents}
use streaming_video_app.Encoder.Rates.{Floats, peak_bandwidth}
use streaming_video_app.Encoder.Effects.{EncodedResult, World}
use streaming_video_app.Encoder.Run.{Encoded, result_of}

-- The result's members as the finalizer reads them: the payload's are the result's own.
unfoldable pub members : EncodedResult → ChildResult
members result = record {
  video_id = result.payload.video_id;
  job_id = result.payload.job_id;
  attempt = result.payload.attempt;
  execution_id = result.payload.execution_id;
  rendition = result.payload.rendition;
  source_key = result.payload.source_key;
  output_prefix = result.payload.output_prefix;
  schema_version = result.schema_version;
  media_playlist = result.media_playlist;
  segments = result.segments;
  width = result.width;
  height = result.height;
  bandwidth = result.bandwidth;
  codecs = result.codecs;
}

abbrev pub u32_max : ℕ
u32_max = 4294967295

-- What the finalizer decodes of a result: the bandwidth is written as a `u64` and read as a `u32`; the
-- other numbers have the same types on both sides.
unfoldable pub as_child_result : EncodedResult → Option ChildResult
unfolding members
as_child_result result = if leb result.bandwidth u32_max then some (members result) else none

-- A payload of the execution that has this input.
pub record IsChildOf (payload : ChildPayload) (input : ExecutionInput) : Type 0 where
  pub same_video : payload.video_id ≡ input.video_id
  pub same_job : payload.job_id ≡ input.job_id
  pub same_attempt : payload.attempt ≡ input.attempt
  pub same_execution : payload.execution_id ≡ input.execution_id
  pub same_source : payload.source_key ≡ input.source_key
  pub is_canonical :
      input.output_prefix
      ≡ canonical_output_prefix input.video_id input.job_id input.attempt input.execution_id

-- Media within the ceiling of its rendition, with codecs.
pub record IsWithinCeiling (rendition : Text) (encoded : Encoded) : Type 0 where
  pub has_width : 0 < encoded.size.0
  pub has_height : 0 < encoded.size.1
  pub width_fits : encoded.size.0 ≤ (ceiling rendition).0
  pub height_fits : encoded.size.1 ≤ (ceiling rendition).1
  pub has_codecs : is_empty encoded.codecs ≡ false

or_false : (a b : Bool) → a ≡ false → b ≡ false → (a || b) ≡ false
or_false true b e f = absurd cc
or_false false b e f = f

same_text : (s t : Text) → s ≡ t → not (text_eq s t) ≡ false
same_text s t e = rw (e, text_eq_refl t) refl

same_number : (m n : ℕ) → m ≡ n → not (m == n) ≡ false
same_number m n e = ground arith

-- An accepted payload writes below its rendition of the execution's prefix.
prefix-slash :
    (payload : ChildPayload)
    → OnOk
        (λ _.
          payload.output_prefix
          ≡ slash
              (canonical_output_prefix payload.video_id payload.job_id payload.attempt
                payload.execution_id)
              payload.rendition)
        (validate_payload payload)
unfolding validate_payload canonical_output_prefix decimal expected_prefix
prefix-slash payload =
    OnOk-test Q (not (not (canonical_uuid payload.video_id) || not (canonical_uuid payload.job_id)))
      (invalid_payload (codes "ids must be lowercase UUIDs")) _
      (λ _.
        OnOk-test Q
          (not (
            payload.attempt == 0
            || not (text_eq payload.execution_id (expected_execution payload))))
          (invalid_payload (codes "execution identity mismatch")) _
          (λ _.
            OnOk-test Q (is_rendition payload.rendition)
              (invalid_payload (codes "unsupported rendition")) _
              (λ _.
                OnOk-test Q (text_eq payload.source_key (expected_source payload))
                  (invalid_payload (codes "source key mismatch")) _
                  (λ _.
                    OnOk-imp (λ _. text_eq payload.output_prefix (expected_prefix payload) ≡ true) Q
                      (ensure (text_eq payload.output_prefix (expected_prefix payload))
                        (invalid_payload (codes "output prefix mismatch")))
                      (λ _ e.
                        text_eq_sound payload.output_prefix (expected_prefix payload) e
                        ∙ sym (simp append_assoc))
                      (OnOk-ensure (text_eq payload.output_prefix (expected_prefix payload))
                        (invalid_payload (codes "output prefix mismatch")))))))
  where
    Q : Unit {0} → Type 0
    Q _ =
        payload.output_prefix
        ≡ slash
            (canonical_output_prefix payload.video_id payload.job_id payload.attempt
              payload.execution_id)
            payload.rendition

not_zero : (n : ℕ) → 0 < n → (n == 0) ≡ false
not_zero n h = ground arith

max_positive : (a : ℕ) → (max a 1 == 0) ≡ false
max_positive a = ground arith

ceiling-le : (rendition : Text) → ((ceiling rendition).0 ≤ 1280) × ((ceiling rendition).1 ≤ 720)
unfolding ceiling
ceiling-le rendition = elim (Bool-cases (text_eq rendition (codes "360p"))) [
  | inl e ↦ rw e (omega arith, omega arith)
  | inr e ↦ rw e (omega arith, omega arith)
]

not_above :
    (b : Bool) (w h most_w most_h : ℕ)
    → (b ≡ true → (w ≤ most_w) × (h ≤ most_h))
    → (b && (ltb most_w w || ltb most_h h)) ≡ false
not_above false w h most_w most_h f = refl
not_above true w h most_w most_h f = (let r = f refl in ground (arith, r.0, r.1))

below_360 :
    (rendition : Text) → text_eq rendition (codes "360p") ≡ true → (ceiling rendition ≡ (640, 360))
unfolding ceiling
below_360 rendition e = rw e refl

module _ (documents : Documents) (floats : Floats) (world : World) (payload : ChildPayload)
    (input : ExecutionInput) (encoded : Encoded) (descriptors : List ObjectDescriptor) where
  abbrev written : ChildResult
  unfolding members result_of
  written = members (result_of documents floats world payload encoded descriptors)

  members-validate_result :
      validate_payload payload ≡ ok tt
      → IsChildOf payload input
      → IsWithinCeiling payload.rendition encoded
      → validate_result written input payload.rendition
          (slash payload.output_prefix (codes "result.json"))
        ≡ ok tt
  unfolding validate_result members result_of peak_bandwidth text_eq
  members-validate_result accepted child within = rw (another, claims, playlist) refl
    where
      own_prefix : payload.output_prefix ≡ slash input.output_prefix payload.rendition
      own_prefix =
          (let e =
              OnOk-at
                (λ _.
                  payload.output_prefix
                  ≡ slash
                      (canonical_output_prefix payload.video_id payload.job_id payload.attempt
                        payload.execution_id)
                      payload.rendition)
                (validate_payload payload) tt accepted (prefix-slash payload) in
            cc)

      another :
          is_of_another_run written input payload.rendition
            (slash payload.output_prefix (codes "result.json"))
          ≡ false
      another = or_false _ _ refl (
          or_false _ _ (same_text _ _ child.same_video) (
            or_false _ _ (same_text _ _ child.same_job) (
              or_false _ _ (same_number _ _ child.same_attempt) (
                or_false _ _ (same_text _ _ child.same_execution) (
                  or_false _ _ (same_text _ _ child.same_source) (
                    or_false _ _ (same_text payload.rendition _ refl) (
                      or_false _ _ (same_text _ _ own_prefix)
                        (same_text _ _ (ap (λ p. slash p (codes "result.json")) own_prefix)))))))))

      claims : has_bad_claims written payload.rendition ≡ false
      claims = or_false _ _ (not_zero encoded.size.0 within.has_width) (
          or_false _ _ (not_zero encoded.size.1 within.has_height) (
            or_false _ _ (max_positive _) (
              or_false _ _ within.has_codecs (
                or_false _ _
                  (not_above _ encoded.size.0 encoded.size.1 640 360 (λ e.
                    subst (λ most. (encoded.size.0 ≤ most.0) × (encoded.size.1 ≤ most.1))
                      (below_360 payload.rendition e) (within.width_fits, within.height_fits)))
                  (not_above _ encoded.size.0 encoded.size.1 1280 720 (λ e.
                    let c = ceiling-le payload.rendition in
                    (
                      omega (arith, c.0, within.width_fits),
                      omega (arith, c.1, within.height_fits),
                    )))))))

      playlist :
          not (
            text_eq written.media_playlist.key
              (slash (slash input.output_prefix payload.rendition) (codes "index.m3u8")))
          ≡ false
      playlist = same_text _ _ (ap (λ p. slash p (codes "index.m3u8")) own_prefix)

  -- An execution's child, with a payload that its encoder accepts, whose media are within the ceiling
  -- of its rendition and have codecs, writes a result that the finalizer accepts for the execution
  -- under the key at which it reads it, exactly if the peak bandwidth is at most the largest 32-bit
  -- number; beyond it, the finalizer rejects the result as invalid.
  pub result_of-validate_result :
      validate_payload payload ≡ ok tt
      → IsChildOf payload input
      → IsWithinCeiling payload.rendition encoded
      → (parsed (as_child_result (result_of documents floats world payload encoded descriptors))
          >>= λ result.
              validate_result result input payload.rendition
                (slash payload.output_prefix (codes "result.json")))
        ≡ (if leb
              (peak_bandwidth floats encoded.playlist (map world.size_of encoded.output.segments))
              u32_max
            then ok tt
            else err (finalizer_error (codes "invalid child result")))
  unfolding as_child_result result_of
  result_of-validate_result accepted child within = decoded (
      leb (peak_bandwidth floats encoded.playlist (map world.size_of encoded.output.segments))
        u32_max)
    where
      decoded :
          (fits : Bool)
          → (parsed (if fits then some written else none) >>= λ result.
              validate_result result input payload.rendition
                (slash payload.output_prefix (codes "result.json")))
            ≡ (if fits then ok tt else err (finalizer_error (codes "invalid child result")))
      decoded true = members-validate_result accepted child within
      decoded false = refl
