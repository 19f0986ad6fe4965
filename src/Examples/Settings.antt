-- ===== src/Examples/Settings.antt =====
-- A local configuration and a disk budget (worker/src/lib.rs, encoding/src/limits.rs).
use streaming_video_app.Prelude.{
  ◌+◌, ◌≤◌, Text, codes, text_eq, ◌≡◌, refl, true, false, Option, none, some, List, [], ◌∷◌, ok,
  arith, ◌↔◌, if◌then◌else◌,
}
use streaming_video_app.Notification.Decode.{split, strip_prefix}
use streaming_video_app.Config.Parse.{
  trim, trim_front, reverse, parse_unsigned, parse_digits, contains, rsplit_once, is_ip_addr,
}
use streaming_video_app.Config.Limits.{
  default, number, limits_from_lookup, DiskBudget, reserve_available,
}
use streaming_video_app.Config.Heartbeat.{from_seconds}
use streaming_video_app.Config.Validate.{
  Urls, is_aws_region, validate_region, is_bucket, validate_bucket, read_query, ssl_mode,
  validate_postgres_url, validate_http_url, configuration, is_agent_uri,
}
use streaming_video_app.Config.Loader.{
  Config, trimmed, required, positive, positive_seconds, positive_u32, optional_bounded_usize,
  runtime_mode_of, read_variables, check_numbers, check_connections, check_names, from_lookup,
}
use streaming_video_app.Config.Sound.{IsAccepted, from_lookup-IsAccepted, settings_accepted}
use streaming_video_app.Config.Disk.{
  Event, reserve, drop, run_events, total, run_events-total, reserve_available-fits,
}
use streaming_video_app.Attempt.Settings.{new}

-- The URL `p` is the database's and `q` the queue's.
scheme_of : Text → Text
unfolding text_eq
scheme_of url = if text_eq url (codes "p") then codes "postgres" else codes "https"

abbrev urls : Urls
urls = record {
  Url = Text;
  parse = λ value. some value;
  scheme = scheme_of;
  host_str = λ url. some (codes "host");
  username = λ url. [];
  has_password = λ url. false;
  has_query = λ url. false;
  has_fragment = λ url. false;
  query_pairs = λ url. (codes "sslmode", codes "disable") ∷ [];
  driver_reads = λ url pairs. true;
  agent_builds = λ url. true;
}

find : Text → List (Text × Text) → Option Text
unfolding text_eq
find name [] = none
find name ((key, value) ∷ rest) =
    let later = find name rest in if text_eq name key then some value else later

abbrev environment : List (Text × Text)
environment =
    (codes "DATABASE_URL", codes "p")
    ∷ (codes "AWS_REGION", codes "us-east-1")
    ∷ (codes "VIDEO_ENCODING_QUEUE_URL", codes "q")
    ∷ (codes "VIDEO_INPUT_BUCKET", codes "in-bucket")
    ∷ (codes "VIDEO_OUTPUT_BUCKET", codes "out-bucket")
    ∷ (codes "FFMPEG_PATH", codes "ffmpeg")
    ∷ (codes "TMPDIR", codes " /tmp ")
    ∷ (codes "WORKER_HEARTBEAT_INTERVAL_SECONDS", codes "30")
    ∷ (codes "WORKER_VISIBILITY_EXTENSION_SECONDS", codes "120")
    ∷ (codes "WORKER_LEASE_DURATION_SECONDS", codes "120")
    ∷ (codes "WORKER_RETRY_DELAY_SECONDS", codes "60")
    ∷ (codes "WORKER_MAXIMUM_ATTEMPTS", codes "3")
    ∷ (codes "WORKER_RUNTIME_MODE", codes "local")
    ∷ []

abbrev lookup : Text → Option Text
lookup name = find name environment

abbrev config : Config
config = record {
  variables = record {
    database_url = codes "p";
    aws_region = codes "us-east-1";
    queue_url = codes "q";
    input_bucket = codes "in-bucket";
    output_bucket = codes "out-bucket";
    ffmpeg_path = codes "ffmpeg";
    temporary_directory = codes "/tmp";
    heartbeat_interval_seconds = 30;
    visibility_extension_seconds = 120;
    lease_duration_seconds = 120;
    retry_delay_seconds = 60;
    maximum_attempts = 3;
    max_concurrency = 2;
    runtime_mode = codes "local";
    ecs_agent_uri = none;
    orchestration_state_machine_arn = none;
  };
  limits = default;
}

from_lookup-config : from_lookup urls lookup ≡ ok config
unfolding from_lookup read_variables check_connections check_numbers check_names limits_from_lookup
    number required positive positive_seconds positive_u32 optional_bounded_usize runtime_mode_of
    trimmed trim trim_front reverse parse_unsigned parse_digits contains rsplit_once is_ip_addr
    split strip_prefix is_aws_region validate_region is_bucket validate_bucket read_query ssl_mode
    validate_postgres_url validate_http_url configuration is_agent_uri find scheme_of text_eq
from_lookup-config = refl

from_lookup-IsAccepted_example : IsAccepted urls lookup config
from_lookup-IsAccepted_example = from_lookup-IsAccepted urls lookup config from_lookup-config

settings_accepted_example :
    (from_seconds 30 120 120
      ≡ ok (record { interval = 30000; lease_duration = 120000; visibility_extension = 120000 }))
    × (new 3 60 ≡ ok (record { maximum_attempts = 3; retry_delay = 60000 }))
settings_accepted_example = settings_accepted urls lookup config from_lookup-config

abbrev empty : DiskBudget
empty = record { reserved = 0; reservations = [] }

abbrev events : List Event
events = reserve 2000000000 default ∷ reserve 1000000000 default ∷ drop 0 ∷ []

run_events-total_example :
    (run_events events empty).reserved ≡ total (run_events events empty).reservations
run_events-total_example = run_events-total events empty refl

reserve_available-fits_example :
    ((after : DiskBudget) × (reserve_available 2000000000 default empty ≡ some after))
    ↔ (0 + default.temporary_bytes + default.disk_reserve_bytes ≤ 2000000000)
reserve_available-fits_example = reserve_available-fits 2000000000 default empty (omega arith)
