-- ===== src/Config/Allowed.antt =====
-- What accepted limits (encoding/src/limits.rs) and accepted names (worker/src/lib.rs) satisfy.
use streaming_video_app.Prelude.{
  ℕ, ◌≤◌, ◌<◌, Text, ◌≡◌, refl, Bool, true, Option, none, some, [], ◌∷◌, All, every, length, leb,
  Result, OnOk, OnOk-bind, arith, inl, inr, Option-cases, Bool-cases, codes, false, ◌&&◌, ◌⊎◌,
  ◌>>=◌,
}
use streaming_video_app.Config.Limits.{
  Limits, default, within, given, number, above_source, limits_from_lookup,
}
use streaming_video_app.Config.Parse.{trim, parse_unsigned, u64_max}
use streaming_video_app.Config.Validate.{is_bucket, is_bucket_byte}

abbrev pub IsWithinBound : ℕ → ℕ → Type 0
IsWithinBound most n = (0 < n) × (n ≤ most)

-- Each limit is positive and within its bound, and the temporary files may be larger than a source.
abbrev pub AreWithinBounds : Limits → Type 0
AreWithinBounds limits =
    IsWithinBound 1073741824 limits.source_bytes
    × (IsWithinBound 17179869184 limits.temporary_bytes
        × (IsWithinBound 17179869184 limits.disk_reserve_bytes
            × (IsWithinBound 16 limits.threads
                × (IsWithinBound 14400 limits.duration_seconds
                    × (IsWithinBound 43200 limits.wall_seconds
                        × (limits.source_bytes < limits.temporary_bytes))))))

within-lem : (most value : ℕ) → OnOk (IsWithinBound most) (within most value)
within-lem most value = ground arith

given-lem : (most : ℕ) (o : Option ℕ) → OnOk (IsWithinBound most) (given most o)
given-lem most none = tt
given-lem most (some value) = within-lem most value

number-lem :
    (lookup : Text → Option Text) (key : Text) (default_value most : ℕ)
    → OnOk (IsWithinBound most) (number lookup key default_value most)
unfolding number
number-lem lookup key default_value most = elim (Option-cases (lookup key)) [
  | inl e ↦ rw (e, number) (within-lem most default_value)
  | inr (s, e) ↦ rw (e, number) (given-lem most (parse_unsigned u64_max (trim s)))
]

step :
    {B : Type 0} (Q : B → Type 0) (lookup : Text → Option Text) (key : Text)
    (default_value most : ℕ) (f : ℕ → Result (Unit {0}) B)
    → ((n : ℕ) → IsWithinBound most n → OnOk Q (f n))
    → OnOk Q (number lookup key default_value most >>= f)
step Q lookup key default_value most f h =
    OnOk-bind (IsWithinBound most) Q (number lookup key default_value most) f
      (number-lem lookup key default_value most) h

abbrev ArePositive : Limits → Type 0
ArePositive limits =
    IsWithinBound 1073741824 limits.source_bytes
    × (IsWithinBound 17179869184 limits.temporary_bytes
        × (IsWithinBound 17179869184 limits.disk_reserve_bytes
            × (IsWithinBound 16 limits.threads
                × (IsWithinBound 14400 limits.duration_seconds
                    × IsWithinBound 43200 limits.wall_seconds))))

above_source-lem :
    (limits : Limits) → ArePositive limits → OnOk AreWithinBounds (above_source limits)
above_source-lem limits h = elim (Bool-cases (leb limits.temporary_bytes limits.source_bytes)) [
  | inl e ↦ rw e tt
  | inr e ↦
      rw e (h.0, (h.1.0, (h.1.1.0, (h.1.1.1.0, (h.1.1.1.1.0, (h.1.1.1.1.1, ground (arith, e)))))))
]

pub limits_from_lookup-AreWithinBounds :
    (lookup : Text → Option Text) → OnOk AreWithinBounds (limits_from_lookup lookup)
unfolding limits_from_lookup
limits_from_lookup-AreWithinBounds lookup =
    step AreWithinBounds lookup (codes "WORKER_MAX_SOURCE_BYTES") default.source_bytes 1073741824 _
      (λ source a.
        step AreWithinBounds lookup (codes "WORKER_MAX_TEMP_BYTES") default.temporary_bytes
          17179869184 _
          (λ temporary b.
            step AreWithinBounds lookup (codes "WORKER_DISK_RESERVE_BYTES")
              default.disk_reserve_bytes 17179869184 _
              (λ reserve c.
                step AreWithinBounds lookup (codes "WORKER_FFMPEG_THREADS") default.threads 16 _
                  (λ thread_count d.
                    step AreWithinBounds lookup (codes "WORKER_MAX_DURATION_SECONDS")
                      default.duration_seconds 14400 _
                      (λ duration e.
                        step AreWithinBounds lookup (codes "WORKER_MAX_WALL_SECONDS")
                          default.wall_seconds 43200 _
                          (λ wall f.
                            above_source-lem
                              (record {
                                source_bytes = source;
                                temporary_bytes = temporary;
                                disk_reserve_bytes = reserve;
                                threads = thread_count;
                                duration_seconds = duration;
                                wall_seconds = wall;
                              })
                              (a, (b, (c, (d, (e, f)))))))))))

-- A lowercase letter, a digit, a dot or a dash.
abbrev pub IsBucketByte : ℕ → Type 0
IsBucketByte b = ((97 ≤ b) × (b ≤ 122)) ⊎ (((48 ≤ b) × (b ≤ 57)) ⊎ ((b ≡ 46) ⊎ (b ≡ 45)))

-- Of 3 to 63 such bytes.
abbrev pub IsBucketName : Text → Type 0
IsBucketName name = (3 ≤ length name) × ((length name ≤ 63) × All IsBucketByte name)

and_split : (a b : Bool) → (a && b) ≡ true → (a ≡ true) × (b ≡ true)
and_split true b h = (refl, h)
and_split false b h = absurd cc

is_bucket_byte-IsBucketByte : (b : ℕ) → is_bucket_byte b ≡ true → IsBucketByte b
is_bucket_byte-IsBucketByte b h = ground (arith, h)

every-All : (name : Text) → every is_bucket_byte name ≡ true → All IsBucketByte name
every-All [] h = tt
every-All (b ∷ name) h =
    let parts = and_split (is_bucket_byte b) (every is_bucket_byte name) h in
    (is_bucket_byte-IsBucketByte b parts.0, every-All name parts.1)

pub is_bucket-IsBucketName : (name : Text) → is_bucket name ≡ true → IsBucketName name
unfolding is_bucket
is_bucket-IsBucketName name h =
    let parts = and_split _ _ h in
    let size = and_split (leb 3 (length name)) (leb (length name) 63) parts.0 in
    (ground (arith, size.0), (ground (arith, size.1), every-All name (and_split _ _ parts.1).0))
