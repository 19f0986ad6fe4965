-- ===== src/Persistence/Statements.antt =====
-- The SQL statements of persistence/src/postgres.rs, each on one row at one instant: the new row
-- where the `WHERE` clause holds. Texts of the statement such as 'QUEUED' are constructors.
use streaming_video_app.Prelude.{
  ℕ, ◌+◌, Text, codes, text_eq, Bool, true, false, not, ◌&&◌, ◌||◌, Option, none, some, ltb, leb,
  ◌==◌, if◌then◌else◌, [],
}
use streaming_video_app.Persistence.Port.{JobMode, cli, distributed}
use streaming_video_app.Persistence.Table.{
  JobStatus, uploading, queued, processing, completed, failed, Job, has_id, is_row, is_owned,
}

-- `status = $3`
unfoldable pub is_status : JobStatus → JobStatus → Bool
is_status uploading uploading = true
is_status queued queued = true
is_status processing processing = true
is_status completed completed = true
is_status failed failed = true
is_status _ _ = false

-- `mode = $6`
unfoldable pub is_mode : JobMode → Option JobMode → Bool
is_mode cli (some cli) = true
is_mode distributed (some distributed) = true
is_mode _ _ = false

-- `x IS NULL`
unfoldable pub is_null {ℓ} : {A : Type ℓ} → Option A → Bool
is_null none = true
is_null (some a) = false

unfoldable pub claim_row : ℕ → Text → Text → Job → Option Job
unfolding is_row is_status
claim_row now job_id video_id row =
    if is_row job_id video_id row && is_status row.status uploading
    then some (record row { status = queued; updated_at = now })
    else none

unfoldable pub set_status_row : ℕ → Text → JobStatus → JobStatus → Job → Option Job
unfolding has_id is_status
set_status_row now job_id status required row =
    if has_id job_id row && is_status row.status required
    then some (record row {
      status = status;
      failure_code = none;
      failure_message = none;
      updated_at = now;
    })
    else none

-- `COALESCE(mode, $6)`
unfoldable pub coalesce_mode : Option JobMode → JobMode → Option JobMode
coalesce_mode (some m) mode = some m
coalesce_mode none mode = some mode

-- `(worker_id IS NULL AND lease_expires_at IS NULL) OR lease_expires_at <= CURRENT_TIMESTAMP`
unfoldable pub is_free : ℕ → Job → Bool
unfolding is_null
is_free now row =
    (is_null row.worker_id && is_null row.lease_expires_at)
    || elim row.lease_expires_at [ none ↦ false | some at ↦ leb at now ]

-- `status IN ('QUEUED', 'PROCESSING')`
unfoldable pub is_open : JobStatus → Bool
is_open queued = true
is_open processing = true
is_open _ = false

unfoldable pub is_claimable : ℕ → ℕ → JobMode → Job → Bool
unfolding is_open is_null is_mode is_free
is_claimable now max_attempts mode row =
    is_open row.status
    && ((is_null row.mode || is_mode mode row.mode)
        && (ltb row.attempt max_attempts && is_free now row))

-- The `acquired` part of the acquisition statement.
unfoldable pub acquire_row : ℕ → Text → Text → Text → ℕ → ℕ → JobMode → Job → Option Job
unfolding is_row is_claimable coalesce_mode
acquire_row now job_id video_id worker lease_seconds max_attempts mode row =
    if is_row job_id video_id row && is_claimable now max_attempts mode row
    then some (record row {
      status = processing;
      mode = coalesce_mode row.mode mode;
      worker_id = some worker;
      lease_expires_at = some (now + lease_seconds);
      attempt = row.attempt + 1;
      updated_at = now;
    })
    else none

unfoldable pub renew_row : ℕ → Text → Text → Text → ℕ → Job → Option Job
unfolding is_owned
renew_row now job_id video_id worker lease_seconds row =
    if is_owned now job_id video_id worker row
    then some (record row { lease_expires_at = some (now + lease_seconds); updated_at = now })
    else none

unfoldable pub release_row : ℕ → Text → Text → Text → ℕ → Job → Option Job
unfolding is_owned
release_row now job_id video_id worker max_attempts row =
    if is_owned now job_id video_id worker row && ltb row.attempt max_attempts
    then some (record row {
      status = queued;
      worker_id = none;
      lease_expires_at = none;
      failure_code = none;
      failure_message = none;
      updated_at = now;
    })
    else none

unfoldable pub complete_row : ℕ → Text → Text → Text → Job → Option Job
unfolding is_owned is_mode is_null
complete_row now job_id video_id worker row =
    if is_owned now job_id video_id worker row
      && (is_mode cli row.mode && is_null row.published_manifest_key)
    then some (record row {
      status = completed;
      worker_id = none;
      lease_expires_at = none;
      failure_code = none;
      failure_message = none;
      updated_at = now;
    })
    else none

unfoldable pub complete_distributed_row : ℕ → Text → Text → Text → ℕ → Text → Job → Option Job
unfolding is_owned is_mode is_null
complete_distributed_row now job_id video_id worker attempt key row =
    if is_owned now job_id video_id worker row
      && (row.attempt == attempt
          && (is_mode distributed row.mode
              && (is_null row.published_manifest_key && not (text_eq key []))))
    then some (record row {
      status = completed;
      published_manifest_key = some key;
      worker_id = none;
      lease_expires_at = none;
      failure_code = none;
      failure_message = none;
      updated_at = now;
    })
    else none

unfoldable pub fail_row : ℕ → Text → Text → Text → Text → ℕ → Job → Option Job
unfolding is_owned
fail_row now job_id video_id worker reason max_attempts row =
    if is_owned now job_id video_id worker row
      && (leb max_attempts row.attempt && not (text_eq reason []))
    then some (record row {
      status = failed;
      worker_id = none;
      lease_expires_at = none;
      failure_code = some (codes "ENCODING_FAILED");
      failure_message = some reason;
      updated_at = now;
    })
    else none
