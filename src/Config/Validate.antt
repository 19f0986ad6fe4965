-- ===== src/Config/Validate.antt =====
-- Checks of configured names and URLs (worker/src/lib.rs, worker/src/protection.rs,
-- persistence/src/tls.rs). The `url` crate and the database driver are parameters.
use streaming_video_app.Prelude.{
  ℕ, Text, codes, text_eq, Bool, true, false, not, ◌&&◌, ◌||◌, Option, none, some, List, [], ◌∷◌,
  leb, ◌==◌, if◌then◌else◌, Result, err, ensure, length, every,
}
use streaming_video_app.Notification.Decode.{split}
use streaming_video_app.Config.Parse.{
  is_empty, is_digit, is_lowercase, parse_unsigned, u32_max, contains, rsplit_once, is_ip_addr,
  last,
}

pub record ConfigError : Type 0 where
  pub variable : Text
  pub reason : Text

abbrev pub fault : Text → Text → ConfigError
fault name why = record { variable = name; reason = why }

-- `url::Url`, `tokio_postgres::Config` and the HTTP client of the agent.
pub record Urls : Type 1 where
  pub Url : Type 0
  pub parse : Text → Option Url
  pub scheme : Url → Text
  pub host_str : Url → Option Text
  pub username : Url → Text
  pub has_password : Url → Bool
  pub has_query : Url → Bool
  pub has_fragment : Url → Bool
  pub query_pairs : Url → List (Text × Text)
  -- The driver reads the URL with these query pairs instead of its own.
  pub driver_reads : Url → List (Text × Text) → Bool
  -- The agent's path takes segments and its client is built.
  pub agent_builds : Url → Bool

abbrev pub is_present : Option Text → Bool
is_present none = false
is_present (some s) = true

abbrev is_lower_word : Text → Bool
is_lower_word part = not (is_empty part) && every is_lowercase part

-- `extra_alpha_parts >= 1`, with every part a word.
abbrev is_region_prefix : List Text → Bool
is_region_prefix [] = false
is_region_prefix (first ∷ []) = false
is_region_prefix (first ∷ part ∷ parts) =
    is_lower_word first && (is_lower_word part && every is_lower_word parts)

abbrev starts_with_zero : Text → Bool
starts_with_zero [] = false
starts_with_zero (b ∷ s) = b == 48

abbrev is_positive : Option ℕ → Bool
is_positive none = false
is_positive (some n) = not (n == 0)

unfoldable pub is_aws_region : Text → Bool
unfolding rsplit_once split parse_unsigned
is_aws_region value =
    (leb 2 (length value) && leb (length value) 32) && elim (rsplit_once 45 value) [
      | none ↦ false
      | some (prefix, number) ↦
          (not (starts_with_zero number)
            && (not (is_empty number)
                && (every is_digit number && is_positive (parse_unsigned u32_max number))))
          && is_region_prefix (split 45 prefix)
    ]

unfoldable pub validate_region : Text → Result ConfigError (Unit {0})
unfolding is_aws_region
validate_region value =
    ensure (is_aws_region value) (fault (codes "AWS_REGION") (codes "is malformed"))

abbrev pub is_bucket_byte : ℕ → Bool
is_bucket_byte b = is_lowercase b || (is_digit b || (b == 46 || b == 45))

abbrev is_alphanumeric : ℕ → Bool
is_alphanumeric b = is_digit b || (is_lowercase b || (leb 65 b && leb b 90))

abbrev first_is_alphanumeric : Text → Bool
first_is_alphanumeric [] = false
first_is_alphanumeric (b ∷ s) = is_alphanumeric b

abbrev last_satisfies : (ℕ → Bool) → Text → Bool
last_satisfies p value = elim (last value) [ none ↦ false | some b ↦ p b ]

unfoldable pub is_bucket : Text → Bool
unfolding contains is_ip_addr
is_bucket value =
    (leb 3 (length value) && leb (length value) 63)
    && (every is_bucket_byte value
        && (first_is_alphanumeric value
            && (last_satisfies is_alphanumeric value
                && (last_satisfies (λ b. is_lowercase b || is_digit b) value
                    && (not (contains (codes "..") value)
                        && (not (contains (codes ".-") value)
                            && (not (contains (codes "-.") value) && not (is_ip_addr value))))))))

unfoldable pub validate_bucket : Text → Text → Result ConfigError (Unit {0})
unfolding is_bucket
validate_bucket name value =
    ensure (is_bucket value) (fault name (codes "must be a valid lowercase S3 bucket name"))

-- The `sslmode` and `sslrootcert` of a query, and its other pairs: `none` where one is repeated.
pub record TlsQuery : Type 0 where
  pub mode : Option Text
  pub ca : Option Text
  pub remaining : List (Text × Text)

abbrev set_once : Option Text → Text → Option (Option Text)
set_once none value = some (some value)
set_once (some old) value = none

abbrev add_pair : Text → Text → TlsQuery → Option TlsQuery
add_pair key value query =
    if text_eq key (codes "sslmode")
    then elim (set_once query.mode value) [
      | none ↦ none
      | some mode ↦ some (record { mode = mode; ca = query.ca; remaining = query.remaining })
    ]
    else if text_eq key (codes "sslrootcert")
    then elim (set_once query.ca value) [
      | none ↦ none
      | some ca ↦ some (record { mode = query.mode; ca = ca; remaining = query.remaining })
    ]
    else some
        (record { mode = query.mode; ca = query.ca; remaining = (key, value) ∷ query.remaining })

-- The pairs are read from the last, which a repetition does not tell apart and which keeps
-- `remaining` in the query's order.
unfoldable pub read_query : List (Text × Text) → Option TlsQuery
read_query [] = some (record { mode = none; ca = none; remaining = [] })
read_query ((key, value) ∷ pairs) = elim (read_query pairs) [
  | none ↦ none
  | some query ↦ add_pair key value query
]

pub data SslMode : Type 0 where
  disable require : SslMode

unfoldable pub ssl_mode : Bool → Option Text → Option SslMode
ssl_mode local_mode none = none
ssl_mode local_mode (some mode) =
    if text_eq mode (codes "disable") && local_mode
    then some disable
    else if text_eq mode (codes "verify-full") || text_eq mode (codes "require")
    then some require
    else none

module _ (urls : Urls) where
  open urls use {
    Url, parse, scheme, host_str, username, has_password, has_query, has_fragment, query_pairs,
    driver_reads, agent_builds,
  }

  abbrev is_postgres : Url → Bool
  is_postgres url =
      (text_eq (scheme url) (codes "postgres") || text_eq (scheme url) (codes "postgresql"))
      && is_present (host_str url)

  unfoldable pub validate_postgres_url : Text → Result ConfigError (Unit {0})
  validate_postgres_url value = elim (parse value) [
    | none ↦ err (fault (codes "DATABASE_URL") (codes "is malformed"))
    | some url ↦
        ensure (is_postgres url) (fault (codes "DATABASE_URL") (codes "must be a PostgreSQL URL"))
  ]

  unfoldable pub validate_http_url : Text → Text → Result ConfigError (Unit {0})
  validate_http_url name value = elim (parse value) [
    | none ↦ err (fault name (codes "is malformed"))
    | some url ↦
        ensure
          ((text_eq (scheme url) (codes "http") || text_eq (scheme url) (codes "https"))
            && is_present (host_str url))
          (fault name (codes "must be an HTTP(S) URL"))
  ]

  abbrev driver_mode : Bool → Url → TlsQuery → Option SslMode
  driver_mode local_mode url query = elim (ssl_mode local_mode query.mode) [
    | none ↦ none
    | some mode ↦ if driver_reads url query.remaining then some mode else none
  ]

  -- `tls::configuration`: the driver's TLS mode, or `none` for its error.
  unfoldable pub configuration : Text → Bool → Option SslMode
  unfolding read_query ssl_mode
  configuration value local_mode = elim (parse value) [
    | none ↦ none
    | some url ↦
        if is_postgres url
        then elim (read_query (query_pairs url)) [
          | none ↦ none
          | some query ↦ driver_mode local_mode url query
        ]
        else none
  ]

  abbrev is_agent_host : Option Text → Bool
  is_agent_host none = false
  is_agent_host (some host) =
      text_eq host (codes "169.254.170.2")
      || (text_eq host (codes "127.0.0.1") || text_eq host (codes "localhost"))

  -- `Agent::new(uri).is_ok()`
  unfoldable pub is_agent_uri : Text → Bool
  is_agent_uri uri = elim (parse uri) [
    | none ↦ false
    | some url ↦
        (text_eq (scheme url) (codes "http")
          && (is_agent_host (host_str url)
              && (is_empty (username url)
                  && (not (has_password url) && (not (has_query url) && not (has_fragment url))))))
        && agent_builds url
  ]
