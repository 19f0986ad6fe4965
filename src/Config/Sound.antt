-- ===== src/Config/Sound.antt =====
-- What an accepted configuration guarantees.
use streaming_video_app.Prelude.{
  ℕ, ◌*◌, ◌≤◌, ◌<◌, Text, text_eq, ◌≡◌, refl, Bool, true, false, Option, none, some, Result, ok,
  err, ◌>>=◌, arith, inl, inr, Option-cases, not, ensure, subst, OnOk,
}
use streaming_video_app.Config.Limits.{Limits, limits_from_lookup}
use streaming_video_app.Config.Allowed.{
  AreWithinBounds, limits_from_lookup-AreWithinBounds, IsBucketName, is_bucket-IsBucketName,
}
use streaming_video_app.Config.Heartbeat.{from_seconds}
use streaming_video_app.Config.Validate.{
  ConfigError, Urls, is_bucket, is_aws_region, validate_bucket, validate_region,
  validate_postgres_url, validate_http_url,
}
use streaming_video_app.Config.Loader.{
  Variables, Config, from_lookup, limits_error, required, positive, positive_seconds, positive_u32,
  optional_bounded_usize, read_variables, check_numbers, check_names, check_connections,
  runtime_mode_of, within_maximum, trimmed,
}
use streaming_video_app.Config.Parse.{parse_unsigned}
use streaming_video_app.Attempt.Settings.{new}

-- A bind after which what holds of the first value is known.
pub OnOk-known {ℓ κ μ ν λ₁} :
    {E : Type ℓ} {A : Type κ} {B : Type μ} {P : A → Type ν} (Q : B → Type λ₁) (m : Result E A)
    (f : A → Result E B)
    → OnOk P m
    → ((a : A) → P a → OnOk Q (f a))
    → OnOk Q (m >>= f)
OnOk-known Q (ok a) f h next = next a h
OnOk-known Q (err e) f h next = tt

-- A bind whose first value does not matter.
pub OnOk-then {ℓ κ μ λ₁} :
    {E : Type ℓ} {A : Type κ} {B : Type μ} (Q : B → Type λ₁) (m : Result E A) (f : A → Result E B)
    → ((a : A) → OnOk Q (f a))
    → OnOk Q (m >>= f)
OnOk-then Q (ok a) f next = next a
OnOk-then Q (err e) f next = tt

pub OnOk-const {ℓ κ ν λ₁} :
    {E : Type ℓ} {A : Type κ} {P : Type ν} (Q : Type λ₁) (m : Result E A)
    → (P → Q)
    → OnOk (λ _. P) m
    → OnOk (λ _. Q) m
OnOk-const Q (ok a) f h = f h
OnOk-const Q (err e) f h = tt

both {ℓ κ} : {A : Type ℓ} {B : Type κ} → A → B → A × B
both a b = (a, b)

-- The numbers that are read are positive.
abbrev pub IsPositive : Variables → Type 0
IsPositive v =
    (0 < v.heartbeat_interval_seconds)
    × ((0 < v.visibility_extension_seconds)
        × ((0 < v.lease_duration_seconds)
            × ((0 < v.retry_delay_seconds)
                × ((0 < v.maximum_attempts)
                    × ((0 < v.max_concurrency) × (v.max_concurrency ≤ 32))))))

positive-lem :
    (bound : ℕ) (variable value : Text) → OnOk (λ n. 0 < n) (positive bound variable value)
unfolding positive
positive-lem bound variable value = ground arith

positive_seconds_lem :
    (lookup : Text → Option Text) (variable : Text)
    → OnOk (λ n. 0 < n) (positive_seconds lookup variable)
unfolding positive_seconds
positive_seconds_lem lookup variable =
    OnOk-then _ (required lookup variable) (positive _ variable) (positive-lem _ variable)

positive_u32_lem :
    (lookup : Text → Option Text) (variable : Text)
    → OnOk (λ n. 0 < n) (positive_u32 lookup variable)
unfolding positive_u32
positive_u32_lem lookup variable =
    OnOk-then _ (required lookup variable) (positive _ variable) (positive-lem _ variable)

within_maximum-lem :
    (variable : Text) (o : Option ℕ) → OnOk (λ n. (0 < n) × (n ≤ 32)) (within_maximum 32 variable o)
within_maximum-lem variable none = tt
within_maximum-lem variable (some n) = ground arith

optional_bounded_usize_lem :
    (lookup : Text → Option Text) (variable : Text)
    → OnOk (λ n. (0 < n) × (n ≤ 32)) (optional_bounded_usize lookup variable 2 32)
unfolding optional_bounded_usize
optional_bounded_usize_lem lookup variable = elim (Option-cases (trimmed (lookup variable))) [
  | inl e ↦ rw (e, optional_bounded_usize) (omega arith, omega arith)
  | inr (value, e) ↦
      rw (e, optional_bounded_usize) (within_maximum-lem variable (parse_unsigned _ value))
]

read_variables-IsPositive : (lookup : Text → Option Text) → OnOk IsPositive (read_variables lookup)
unfolding read_variables
read_variables-IsPositive lookup = OnOk-then IsPositive (required lookup _) _ λ _.
    OnOk-then IsPositive (required lookup _) _ λ _. OnOk-then IsPositive (required lookup _) _ λ _.
      OnOk-then IsPositive (required lookup _) _ λ _.
        OnOk-then IsPositive (required lookup _) _ λ _.
          OnOk-then IsPositive (required lookup _) _ λ _.
            OnOk-then IsPositive (required lookup _) _ λ _.
              OnOk-known IsPositive (positive_seconds lookup _) _ (positive_seconds_lem lookup _)
                λ _ h1.
                  OnOk-known IsPositive (positive_seconds lookup _) _
                    (positive_seconds_lem lookup _)
                    λ _ h2.
                      OnOk-known IsPositive (positive_seconds lookup _) _
                        (positive_seconds_lem lookup _)
                        λ _ h3.
                          OnOk-known IsPositive (positive_seconds lookup _) _
                            (positive_seconds_lem lookup _)
                            λ _ h4.
                              OnOk-known IsPositive (positive_u32 lookup _) _
                                (positive_u32_lem lookup _)
                                λ _ h5.
                                  OnOk-known IsPositive (optional_bounded_usize lookup _ 2 32) _
                                    (optional_bounded_usize_lem lookup _)
                                    λ _ h6.
                                      OnOk-then IsPositive (runtime_mode_of lookup) _
                                        λ _. both h1 (both h2 (both h3 (both h4 (both h5 h6))))

-- The bounds of the numbers.
abbrev pub IsBounded : Variables → Type 0
IsBounded v =
    (v.maximum_attempts ≤ 10)
    × ((v.visibility_extension_seconds ≤ 43200)
        × ((v.lease_duration_seconds ≤ 43200)
            × ((v.heartbeat_interval_seconds * 2 ≤ v.lease_duration_seconds)
                × ((v.heartbeat_interval_seconds * 2 ≤ v.visibility_extension_seconds)
                    × (v.retry_delay_seconds ≤ 43200)))))

check_numbers-IsBounded : (v : Variables) → OnOk (λ _. IsBounded v) (check_numbers v)
unfolding check_numbers
check_numbers-IsBounded v = ground arith

-- The names that reach S3 and AWS.
abbrev pub HasValidNames : Variables → Type 0
HasValidNames v =
    (is_aws_region v.aws_region ≡ true)
    × ((is_bucket v.input_bucket ≡ true)
        × ((is_bucket v.output_bucket ≡ true) × (text_eq v.input_bucket v.output_bucket ≡ false)))

ensured : (b : Bool) (e : ConfigError) → OnOk (λ _. b ≡ true) (ensure b e)
ensured true e = refl
ensured false e = tt

rejected : (b : Bool) (e : ConfigError) → OnOk (λ _. b ≡ false) (ensure (not b) e)
rejected true e = tt
rejected false e = refl

module _ (urls : Urls) (lookup : Text → Option Text) where
  check_names-HasValidNames :
      (v : Variables) → OnOk (λ _. HasValidNames v) (check_names urls lookup v)
  unfolding check_names validate_region validate_bucket
  check_names-HasValidNames v =
      let Q = λ (u : Unit {0}). HasValidNames v in
      OnOk-then Q (validate_postgres_url urls v.database_url) _ λ _.
        OnOk-known Q (validate_region v.aws_region) _ (ensured (is_aws_region v.aws_region) _)
          λ _ r. OnOk-then Q (validate_http_url urls _ v.queue_url) _ λ _.
            OnOk-known Q (validate_bucket _ v.input_bucket) _ (ensured (is_bucket v.input_bucket) _)
              λ _ i.
                OnOk-known Q (validate_bucket _ v.output_bucket) _
                  (ensured (is_bucket v.output_bucket) _)
                  λ _ o.
                    OnOk-const (HasValidNames v)
                      (ensure (not (text_eq v.input_bucket v.output_bucket)) _)
                      (λ e. both r (both i (both o e)))
                      (rejected (text_eq v.input_bucket v.output_bucket) _)

  abbrev pub IsAccepted : Config → Type 0
  IsAccepted c =
      IsPositive c.variables
      × (IsBounded c.variables
          × (HasValidNames c.variables
              × (AreWithinBounds c.limits
                  × (IsBucketName c.variables.input_bucket
                      × IsBucketName c.variables.output_bucket))))

  limits_error-AreWithinBounds :
      (r : Result (Unit {0}) Limits)
      → OnOk AreWithinBounds r
      → OnOk AreWithinBounds (limits_error urls lookup r)
  limits_error-AreWithinBounds (ok limits) h = h
  limits_error-AreWithinBounds (err e) h = tt

  from_lookup-OnOk : OnOk IsAccepted (from_lookup urls lookup)
  unfolding from_lookup
  from_lookup-OnOk =
      OnOk-known IsAccepted (read_variables lookup) _ (read_variables-IsPositive lookup) λ v p.
        OnOk-then IsAccepted (check_connections urls lookup v) _ λ _.
          OnOk-known IsAccepted (limits_error urls lookup (limits_from_lookup lookup)) _
            (limits_error-AreWithinBounds (limits_from_lookup lookup)
              (limits_from_lookup-AreWithinBounds lookup))
            λ l w. OnOk-known IsAccepted (check_numbers v) _ (check_numbers-IsBounded v) λ _ b.
              OnOk-known IsAccepted (check_names urls lookup v) _ (check_names-HasValidNames v)
                λ _ n. both p (
                  both b (
                    both n (
                      both w (
                        both (is_bucket-IsBucketName v.input_bucket n.1.0)
                          (is_bucket-IsBucketName v.output_bucket n.1.1.0)))))

  -- If the variables are accepted, their numbers are positive, at most 10 attempts and 32 workers are
  -- allowed, no duration exceeds 43200 seconds, and the heartbeat's interval fits twice in the lease
  -- and in the visibility extension; each of the six resource limits is positive and within its
  -- bound, and the temporary files may be larger than a source; the region and the buckets pass their
  -- checks, and each bucket's name has 3 to 63 bytes, all of them lowercase letters, digits, dots and
  -- dashes; and the buckets differ.
  pub from_lookup-IsAccepted : (c : Config) → from_lookup urls lookup ≡ ok c → IsAccepted c
  from_lookup-IsAccepted c h = subst (OnOk IsAccepted) h from_lookup-OnOk

  -- If the variables are accepted, the constructors of the heartbeat's and of the retries' settings
  -- accept their numbers as well, and hold them in milliseconds.
  pub settings_accepted :
      (c : Config)
      → from_lookup urls lookup ≡ ok c
      → (from_seconds c.variables.heartbeat_interval_seconds c.variables.lease_duration_seconds
            c.variables.visibility_extension_seconds
          ≡ ok (record {
            interval = c.variables.heartbeat_interval_seconds * 1000;
            lease_duration = c.variables.lease_duration_seconds * 1000;
            visibility_extension = c.variables.visibility_extension_seconds * 1000;
          }))
        × (new c.variables.maximum_attempts c.variables.retry_delay_seconds
            ≡ ok (record {
              maximum_attempts = c.variables.maximum_attempts;
              retry_delay = c.variables.retry_delay_seconds * 1000;
            }))
  unfolding from_seconds new
  settings_accepted c h =
      let a = from_lookup-IsAccepted c h in (ground (arith, a), ground (arith, a))
