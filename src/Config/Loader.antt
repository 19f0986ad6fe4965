-- ===== src/Config/Loader.antt =====
-- `Config::from_lookup` (worker/src/lib.rs).
use streaming_video_app.Prelude.{
  ℕ, ◌/◌, Text, codes, text_eq, Bool, not, ◌&&◌, ◌||◌, Option, none, some, [], ltb, ◌==◌,
  if◌then◌else◌, Result, ok, err, ◌>>=◌, ensure,
}
use streaming_video_app.Config.Parse.{trim, is_empty, parse_unsigned, u32_max, u64_max}
use streaming_video_app.Config.Limits.{Limits, limits_from_lookup}
use streaming_video_app.Config.Heartbeat.{max_lease_duration_seconds}
use streaming_video_app.Config.Validate.{
  ConfigError, fault, Urls, validate_region, validate_bucket, validate_postgres_url,
  validate_http_url, configuration, is_agent_uri,
}

-- What the variables hold, before they are checked against each other.
pub record Variables : Type 0 where
  pub database_url : Text
  pub aws_region : Text
  pub queue_url : Text
  pub input_bucket : Text
  pub output_bucket : Text
  pub ffmpeg_path : Text
  pub temporary_directory : Text
  pub heartbeat_interval_seconds : ℕ
  pub visibility_extension_seconds : ℕ
  pub lease_duration_seconds : ℕ
  pub retry_delay_seconds : ℕ
  pub maximum_attempts : ℕ
  pub max_concurrency : ℕ
  pub runtime_mode : Text
  pub ecs_agent_uri : Option Text
  pub orchestration_state_machine_arn : Option Text

pub record Config : Type 0 where
  pub variables : Variables
  pub limits : Limits

-- `.filter(|value| !value.trim().is_empty()).map(|value| value.trim().to_owned())`
unfoldable pub trimmed : Option Text → Option Text
unfolding trim
trimmed none = none
trimmed (some value) = if is_empty (trim value) then none else some (trim value)

abbrev from_option : ConfigError → Option Text → Result ConfigError Text
from_option e none = err e
from_option e (some value) = ok value

unfoldable pub required : (Text → Option Text) → Text → Result ConfigError Text
unfolding trimmed
required lookup variable =
    from_option (fault variable (codes "is required")) (trimmed (lookup variable))

unfoldable pub positive : ℕ → Text → Text → Result ConfigError ℕ
unfolding parse_unsigned
positive bound variable value = elim (parse_unsigned bound value) [
  | none ↦ err (fault variable (codes "must be a positive integer"))
  | some n ↦ if n == 0 then err (fault variable (codes "must be a positive integer")) else ok n
]

unfoldable pub positive_seconds : (Text → Option Text) → Text → Result ConfigError ℕ
unfolding required positive
positive_seconds lookup variable = do
  value ← required lookup variable
  positive u64_max variable value

unfoldable pub positive_u32 : (Text → Option Text) → Text → Result ConfigError ℕ
unfolding required positive
positive_u32 lookup variable = do value ← required lookup variable; positive u32_max variable value

abbrev pub within_maximum : ℕ → Text → Option ℕ → Result ConfigError ℕ
within_maximum maximum variable none = err (fault variable (codes "must be a positive integer"))
within_maximum maximum variable (some value) =
    if value == 0 || ltb maximum value
    then err (fault variable (codes "must be between 1 and 32"))
    else ok value

unfoldable pub optional_bounded_usize : (Text → Option Text) → Text → ℕ → ℕ → Result ConfigError ℕ
unfolding trimmed parse_unsigned
optional_bounded_usize lookup variable default_value maximum = elim (trimmed (lookup variable)) [
  | none ↦ ok default_value
  | some value ↦ within_maximum maximum variable (parse_unsigned u64_max value)
]

abbrev text_or : Text → Option Text → Text
text_or other none = other
text_or other (some value) = value

unfoldable pub runtime_mode_of : (Text → Option Text) → Result ConfigError Text
runtime_mode_of lookup =
    let mode = text_or (codes "ecs") (lookup (codes "WORKER_RUNTIME_MODE")) in
    if text_eq mode (codes "local") || text_eq mode (codes "ecs")
    then ok mode
    else err (fault (codes "WORKER_RUNTIME_MODE") (codes "must be local or ecs"))

unfoldable pub read_variables : (Text → Option Text) → Result ConfigError Variables
unfolding required positive_seconds positive_u32 optional_bounded_usize runtime_mode_of trimmed
read_variables lookup = do
  database ← required lookup (codes "DATABASE_URL")
  region ← required lookup (codes "AWS_REGION")
  queue ← required lookup (codes "VIDEO_ENCODING_QUEUE_URL")
  input ← required lookup (codes "VIDEO_INPUT_BUCKET")
  output ← required lookup (codes "VIDEO_OUTPUT_BUCKET")
  ffmpeg ← required lookup (codes "FFMPEG_PATH")
  directory ← required lookup (codes "TMPDIR")
  interval ← positive_seconds lookup (codes "WORKER_HEARTBEAT_INTERVAL_SECONDS")
  visibility ← positive_seconds lookup (codes "WORKER_VISIBILITY_EXTENSION_SECONDS")
  lease ← positive_seconds lookup (codes "WORKER_LEASE_DURATION_SECONDS")
  delay ← positive_seconds lookup (codes "WORKER_RETRY_DELAY_SECONDS")
  attempts ← positive_u32 lookup (codes "WORKER_MAXIMUM_ATTEMPTS")
  concurrency ← optional_bounded_usize lookup (codes "WORKER_MAX_CONCURRENCY") 2 32
  mode ← runtime_mode_of lookup
  ok (record {
    database_url = database;
    aws_region = region;
    queue_url = queue;
    input_bucket = input;
    output_bucket = output;
    ffmpeg_path = ffmpeg;
    temporary_directory = directory;
    heartbeat_interval_seconds = interval;
    visibility_extension_seconds = visibility;
    lease_duration_seconds = lease;
    retry_delay_seconds = delay;
    maximum_attempts = attempts;
    max_concurrency = concurrency;
    runtime_mode = mode;
    ecs_agent_uri = lookup (codes "ECS_AGENT_URI");
    orchestration_state_machine_arn = trimmed (lookup (codes "ORCHESTRATION_STATE_MACHINE_ARN"));
  })

abbrev reject : Bool → Text → Text → Result ConfigError (Unit {0})
reject test variable reason = ensure (not test) (fault variable reason)

-- The numeric checks.
unfoldable pub check_numbers : Variables → Result ConfigError (Unit {0})
check_numbers v = do
  _ ←
      reject (ltb 10 v.maximum_attempts) (codes "WORKER_MAXIMUM_ATTEMPTS")
        (codes "must not exceed 10")
  _ ←
      reject (ltb 43200 v.visibility_extension_seconds)
        (codes "WORKER_VISIBILITY_EXTENSION_SECONDS") (codes "must not exceed 43200 seconds")
  _ ←
      reject (ltb max_lease_duration_seconds v.lease_duration_seconds)
        (codes "WORKER_LEASE_DURATION_SECONDS") (codes "must not exceed 43200 seconds")
  _ ←
      reject
        (ltb (v.visibility_extension_seconds / 2) v.heartbeat_interval_seconds
          || ltb (v.lease_duration_seconds / 2) v.heartbeat_interval_seconds)
        (codes "WORKER_HEARTBEAT_INTERVAL_SECONDS")
        (codes "must be at most half the lease duration and visibility extension")
  reject (ltb 43200 v.retry_delay_seconds) (codes "WORKER_RETRY_DELAY_SECONDS")
      (codes "must not exceed 43200 seconds")

module _ (urls : Urls) (lookup : Text → Option Text) where
  -- Where the worker runs, and how it reaches the database.
  unfoldable pub check_connections : Variables → Result ConfigError (Unit {0})
  unfolding validate_postgres_url configuration is_agent_uri
  check_connections v = do
    _ ←
        reject
          (text_eq v.runtime_mode (codes "ecs")
            && not (is_agent_uri urls (text_or [] v.ecs_agent_uri)))
          (codes "ECS_AGENT_URI") (codes "is required and must identify the ECS agent")
    _ ← validate_postgres_url urls v.database_url
    elim (configuration urls v.database_url (text_eq v.runtime_mode (codes "local"))) [
      | none ↦ err (
          fault (codes "DATABASE_URL")
            (codes "requires explicit TLS policy; disable is local only"))
      | some mode ↦ ok tt
    ]

  unfoldable pub check_names : Variables → Result ConfigError (Unit {0})
  unfolding validate_postgres_url validate_region validate_http_url validate_bucket
  check_names v = do
    _ ← validate_postgres_url urls v.database_url
    _ ← validate_region v.aws_region
    _ ← validate_http_url urls (codes "VIDEO_ENCODING_QUEUE_URL") v.queue_url
    _ ← validate_bucket (codes "VIDEO_INPUT_BUCKET") v.input_bucket
    _ ← validate_bucket (codes "VIDEO_OUTPUT_BUCKET") v.output_bucket
    reject (text_eq v.input_bucket v.output_bucket) (codes "VIDEO_OUTPUT_BUCKET")
        (codes "must differ from VIDEO_INPUT_BUCKET")

  abbrev pub limits_error : Result (Unit {0}) Limits → Result ConfigError Limits
  limits_error (ok limits) = ok limits
  limits_error (err e) = err (
      fault (codes "WORKER resource limits")
        (codes "must be positive and within documented bounds"))

  unfoldable pub from_lookup : Result ConfigError Config
  unfolding read_variables check_connections check_numbers check_names limits_from_lookup
  from_lookup = do
    v ← read_variables lookup
    _ ← check_connections v
    l ← limits_error (limits_from_lookup lookup)
    _ ← check_numbers v
    _ ← check_names v
    ok (record { variables = v; limits = l })
