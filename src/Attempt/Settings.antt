-- ===== src/Attempt/Settings.antt =====
-- Limits of retries (worker/src/retry.rs).
use streaming_video_app.Prelude.{ℕ, ◌*◌, ltb, ◌==◌, ◌||◌, if◌then◌else◌, Result, ok, err}

-- A `Duration` is a number of milliseconds.
pub record RetrySettings : Type 0 where
  pub maximum_attempts : ℕ
  pub retry_delay : ℕ

pub data RetrySettingsError : Type 0 where
  zero_attempts too_many_attempts delay_out_of_range : RetrySettingsError

unfoldable pub new : ℕ → ℕ → Result RetrySettingsError RetrySettings
new maximum_attempts retry_delay_seconds =
    if maximum_attempts == 0
    then err zero_attempts
    else if ltb 10 maximum_attempts
    then err too_many_attempts
    else if retry_delay_seconds == 0 || ltb 43200 retry_delay_seconds
    then err delay_out_of_range
    else ok
        (record { maximum_attempts = maximum_attempts; retry_delay = retry_delay_seconds * 1000 })
