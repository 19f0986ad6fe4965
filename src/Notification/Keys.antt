-- ===== src/Notification/Keys.antt =====
-- Which keys `parse_record` accepts: those of `canonical_source_key`
-- (worker/src/orchestration.rs), and no others.
use streaming_video_app.Prelude.{
  ℕ, suc, ◌<◌, Text, codes, text_eq, text_eq_sound, ◌≡◌, ◌≢◌, refl, ap, sym, ◌∙◌, Bool, true, false,
  Option, none, some, List, [], ◌∷◌, ◌++◌, ◌==◌, arith, if◌then◌else◌, Bool-cases, inl, inr, All,
  All-append, All-map, ok,
}
use streaming_video_app.Prelude.Utf8.{is_utf8}
use streaming_video_app.Naming.{canonical_source_key}
use streaming_video_app.Notification.Decode.{
  canonical_uuid, uuid_bytes, split, form_decode, decode_bytes,
}
use streaming_video_app.Notification.{
  is_object_created, item_for_event, item_from, item_in, s3_text, ◌>>?◌, only_if, ok_value,
  WorkItem, item_of_parts, item_of_key, parse_record, Json,
}

-- The inverse of `split`.
join : ℕ → List Text → Text
join c [] = []
join c (part ∷ []) = part
join c (part ∷ q ∷ parts) = part ++ (c ∷ join c (q ∷ parts))

split-ne-nil : (c : ℕ) (s : Text) → (p : Text) × (ps : List Text) × (split c s ≡ p ∷ ps)
unfolding split
split-ne-nil c [] = ([], [], refl)
split-ne-nil c (b ∷ s) =
    let (p, ps, e) = split-ne-nil c s in
    elim (Bool-cases (b == c)) [
      | inl h ↦ ([], split c s, rw h refl)
      | inr h ↦ (b ∷ p, ps, rw (h, e) refl)
    ]

join_step :
    (c b : ℕ) (p : Text) (ps : List Text)
    → join c (if b == c then [] ∷ p ∷ ps else (b ∷ p) ∷ ps) ≡ b ∷ join c (p ∷ ps)
unfolding join
join_step c b p [] = ground arith
join_step c b p (q ∷ ps) = ground arith

join-split : (c : ℕ) (s : Text) → join c (split c s) ≡ s
unfolding split
join-split c [] = unfold join in refl
join-split c (b ∷ s) =
    let (p, ps, e) = split-ne-nil c s in
    let ih = join-split c s in
    rw e (join_step c b p ps ∙ ap (λ (t : Text). b ∷ t) (ap (join c) (sym e) ∙ ih))

item_of_parts_shape :
    (bucket key : Text) (parts : List Text) (item : WorkItem)
    → item_of_parts bucket key parts ≡ some item
    → (parts
        ≡ codes "videos" ∷ item.video_id ∷ codes "jobs" ∷ item.job_id ∷ codes "source.mp4" ∷ [])
      × (item.bucket ≡ bucket)
      × (item.key ≡ key)
      × (canonical_uuid item.video_id ≡ true)
      × (canonical_uuid item.job_id ≡ true)
unfolding item_of_parts
item_of_parts_shape bucket key (p0 ∷ p1 ∷ p2 ∷ p3 ∷ p4 ∷ []) item e = ground (
  arith,
  text_eq_sound p0 (codes "videos"),
  text_eq_sound p2 (codes "jobs"),
  text_eq_sound p4 (codes "source.mp4"),
)
item_of_parts_shape bucket key (p0 ∷ p1 ∷ p2 ∷ p3 ∷ p4 ∷ p5 ∷ ps) item e = cc
item_of_parts_shape bucket key [] item e = cc
item_of_parts_shape bucket key (p0 ∷ []) item e = cc
item_of_parts_shape bucket key (p0 ∷ p1 ∷ []) item e = cc
item_of_parts_shape bucket key (p0 ∷ p1 ∷ p2 ∷ []) item e = cc
item_of_parts_shape bucket key (p0 ∷ p1 ∷ p2 ∷ p3 ∷ []) item e = cc

-- What is true of every item that the parser hands out for an input bucket.
pub record IsCanonical (input_bucket : Text) (item : WorkItem) : Type 0 where
  pub bucket : item.bucket ≡ input_bucket
  pub key : item.key ≡ canonical_source_key item.video_id item.job_id
  pub video_id : canonical_uuid item.video_id ≡ true
  pub job_id : canonical_uuid item.job_id ≡ true

>>?-eq-some {ℓ κ} :
    {A : Type ℓ} {B : Type κ} (o : Option A) (f : A → Option B) {b : B}
    → (o >>? f) ≡ some b
    → (a : A) × (o ≡ some a) × (f a ≡ some b)
>>?-eq-some none f e = cc
>>?-eq-some (some a) f e = (a, refl, e)

only_if-eq-some {ℓ} :
    {A : Type ℓ} (test : Bool) (o : Option A) {a : A}
    → only_if test o ≡ some a
    → (test ≡ true) × (o ≡ some a)
only_if-eq-some true o e = (refl, e)
only_if-eq-some false o e = cc

parts_key :
    (key v j : Text)
    → split 47 key ≡ codes "videos" ∷ v ∷ codes "jobs" ∷ j ∷ codes "source.mp4" ∷ []
    → key ≡ canonical_source_key v j
unfolding join canonical_source_key
parts_key key v j e = sym (join-split 47 key) ∙ ap (join 47) e

item_of_key-IsCanonical :
    (bucket encoded_key : Text) (item : WorkItem)
    → item_of_key bucket encoded_key ≡ some item
    → IsCanonical bucket item
unfolding item_of_key
item_of_key-IsCanonical bucket encoded_key item e =
    let (key, decoded, parsed) = >>?-eq-some (ok_value (form_decode encoded_key)) _ e in
    let (shape, same_bucket, same_key, v, j) =
      item_of_parts_shape bucket key (split 47 key) item parsed in
    record {
      bucket = same_bucket;
      key = same_key ∙ parts_key key item.video_id item.job_id shape;
      video_id = v;
      job_id = j;
    }

-- Whatever the JSON reader returns, a record that is parsed into work comes from the configured
-- input bucket, its identifiers are canonical UUIDs, and its key is the canonical source key of
-- these identifiers.
pub parse_record-IsCanonical :
    (json : Json) (entry : json.Value) (input_bucket : Text) (item : WorkItem)
    → parse_record json entry input_bucket ≡ some item
    → IsCanonical input_bucket item
unfolding parse_record
parse_record-IsCanonical json entry input_bucket item e =
    let (event_name, named, e₁) =
      >>?-eq-some (json.get entry (codes "eventName") >>? json.as_str)
        (item_for_event json entry input_bucket) e in
    let (created, e₂) =
      only_if-eq-some (is_object_created event_name)
        (s3_text json entry (codes "bucket") (codes "name") >>? item_from json entry input_bucket)
        e₁ in
    let (bucket, bucketed, e₃) =
      >>?-eq-some (s3_text json entry (codes "bucket") (codes "name"))
        (item_from json entry input_bucket) e₂ in
    let (same, e₄) = only_if-eq-some (text_eq bucket input_bucket) (item_in json entry bucket) e₃ in
    let (key, keyed, e₅) =
      >>?-eq-some (s3_text json entry (codes "object") (codes "key")) (item_of_key bucket) e₄ in
    rw (text_eq_sound bucket input_bucket same) at (item_of_key-IsCanonical bucket key item e₅)

-- A byte that `form_decode` leaves as it is.
abbrev IsPlain : ℕ → Type 0
IsPlain b = (b < 128) × (b ≢ 43) × (b ≢ 37)

decode_bytes_plain : (s : Text) → All IsPlain s → decode_bytes s ≡ ok s
unfolding decode_bytes
decode_bytes_plain [] h = refl
decode_bytes_plain (b ∷ []) h = ground arith
decode_bytes_plain (b ∷ c ∷ []) h = ground (arith, decode_bytes_plain (c ∷ []) h.1)
decode_bytes_plain (b ∷ c ∷ d ∷ s) h = ground (arith, decode_bytes_plain (c ∷ d ∷ s) h.1)

is_utf8_ascii : (s : Text) → All IsPlain s → is_utf8 s ≡ true
unfolding is_utf8
is_utf8_ascii [] h = refl
is_utf8_ascii (b ∷ s) h = ground (arith, is_utf8_ascii s h.1)

-- A plain byte that does not end a part of a key.
abbrev IsPartByte : ℕ → Type 0
IsPartByte b = (b < 128) × (b ≢ 43) × (b ≢ 37) × (b ≢ 47)

uuid_bytes-IsPartByte : (index : ℕ) (s : Text) → uuid_bytes index s ≡ true → All IsPartByte s
unfolding uuid_bytes
uuid_bytes-IsPartByte index [] h = tt
uuid_bytes-IsPartByte index (b ∷ s) h =
    (ground arith, uuid_bytes-IsPartByte (suc index) s (ground arith))

canonical_uuid-IsPartByte : (s : Text) → canonical_uuid s ≡ true → All IsPartByte s
unfolding canonical_uuid
canonical_uuid-IsPartByte s h = uuid_bytes-IsPartByte 0 s (ground arith)

split_part : (s t : Text) → All IsPartByte s → split 47 (s ++ (47 ∷ t)) ≡ s ∷ split 47 t
unfolding split
split_part [] t h = refl
split_part (b ∷ s) t h = ground (arith, split_part s t h.1)

module _ (v j : Text) (hv : canonical_uuid v ≡ true) (hj : canonical_uuid j ≡ true) where
  source_key-IsPlain : All IsPlain (canonical_source_key v j)
  unfolding canonical_source_key
  source_key-IsPlain = All-append IsPlain (codes "videos/") _ (omega arith) (
      All-append IsPlain v _ (plain v hv) (
        All-append IsPlain (codes "/jobs/") _ (omega arith)
          (All-append IsPlain j (codes "/source.mp4") (plain j hj) (omega arith))))
    where
      plain : (s : Text) → canonical_uuid s ≡ true → All IsPlain s
      plain s h = All-map (λ b p. (p.0, p.1, p.2)) s (canonical_uuid-IsPartByte s h)

  split-canonical_source_key :
      split 47 (canonical_source_key v j)
      ≡ codes "videos" ∷ v ∷ codes "jobs" ∷ j ∷ codes "source.mp4" ∷ []
  unfolding canonical_source_key split
  split-canonical_source_key =
      rw
        (split_part v (codes "jobs/" ++ (j ++ codes "/source.mp4"))
          (canonical_uuid-IsPartByte v hv))
        (rw (split_part j (codes "source.mp4") (canonical_uuid-IsPartByte j hj)) refl)

-- For canonical UUIDs, the canonical source key, delivered as it is, is parsed into the item with
-- just these identifiers.
pub item_of_key-canonical_source_key :
    (bucket v j : Text)
    → canonical_uuid v ≡ true
    → canonical_uuid j ≡ true
    → item_of_key bucket (canonical_source_key v j)
      ≡ some (record { bucket = bucket; key = canonical_source_key v j; video_id = v; job_id = j })
unfolding item_of_key form_decode
item_of_key-canonical_source_key bucket v j hv hj =
    let plain = source_key-IsPlain v j hv hj in
    rw (decode_bytes_plain _ plain) (
      rw (is_utf8_ascii _ plain)
        (rw (split-canonical_source_key v j hv hj) (unfold item_of_parts text_eq in ground arith)))
