-- ===== src/Config/Heartbeat.antt =====
-- Timing of the heartbeat (worker/src/heartbeat.rs).
use streaming_video_app.Prelude.{ℕ, ◌*◌, ◌/◌, ltb, ◌==◌, ◌||◌, if◌then◌else◌, Result, ok, err}

-- Durations in milliseconds.
pub record HeartbeatSettings : Type 0 where
  pub interval : ℕ
  pub lease_duration : ℕ
  pub visibility_extension : ℕ

pub data HeartbeatSettingsError : Type 0 where
  non_positive visibility_too_long lease_too_long interval_too_long : HeartbeatSettingsError

abbrev pub max_lease_duration_seconds : ℕ
max_lease_duration_seconds = 43200

unfoldable pub from_seconds : ℕ → ℕ → ℕ → Result HeartbeatSettingsError HeartbeatSettings
from_seconds interval lease_duration visibility_extension =
    if interval == 0 || (lease_duration == 0 || visibility_extension == 0)
    then err non_positive
    else if ltb 43200 visibility_extension
    then err visibility_too_long
    else if ltb max_lease_duration_seconds lease_duration
    then err lease_too_long
    else if ltb (lease_duration / 2) interval || ltb (visibility_extension / 2) interval
    then err interval_too_long
    else ok (record {
      interval = interval * 1000;
      lease_duration = lease_duration * 1000;
      visibility_extension = visibility_extension * 1000;
    })
