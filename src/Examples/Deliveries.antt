-- ===== src/Examples/Deliveries.antt =====
-- A delivery of a message with one record, whose attempt succeeds (worker/src/completion.rs).
use streaming_video_app.Prelude.{
  ℕ, codes, ◌≡◌, refl, true, false, none, some, List, [], ◌∷◌, ok, arith,
}
use streaming_video_app.Persistence.Table.{Job, queued}
use streaming_video_app.Acquisition.Records.{acquire_notification}
use streaming_video_app.Completion.Distributed.{Execution}
use streaming_video_app.Completion.Records.{Surroundings, Event, deleted}
use streaming_video_app.Queue.{Message}
use streaming_video_app.Completion.Delivery.{
  acquired_jobs, Circumstances, Worker, answered, process_delivery,
}
use streaming_video_app.Completion.Deletion.{IsAccountedFor, process_delivery-IsAccountedFor}
use streaming_video_app.Completion.Success.{IsCalm, process_delivery_deletes}
use streaming_video_app.Acquisition.Types.{AcquiredJob}
use streaming_video_app.Examples.Attempts
use streaming_video_app.Examples.Messages
use streaming_video_app.Examples.Executions

abbrev waiting : Job
waiting = record {
  id = Messages.uuid;
  video_id = Messages.uuid;
  status = queued;
  mode = none;
  worker_id = none;
  lease_expires_at = none;
  attempt = 0;
  failure_code = none;
  failure_message = none;
  published_manifest_key = none;
  updated_at = 10;
}

abbrev execution : Execution
execution = record {
  gone_before = false;
  now = 0;
  wall = codes "2026-01-01T00:00:00Z";
  services = Executions.world;
  gone_after = false;
  ports = Attempts.world;
}

abbrev surroundings : Surroundings
surroundings = record {
  stopped = false;
  lost = false;
  interrupted = false;
  ports = Attempts.world;
  execution = execution;
}

abbrev circumstances : Circumstances
circumstances = record {
  stopped_before = false;
  started_at = 0;
  checked_at = 1;
  acquisition = answered 2;
  around = λ i. surroundings;
  lost_at_end = false;
  visibility_at_end = 90000;
  joined = true;
  stopped_at_end = false;
  ended_at = 69000;
  updated_at = 70000;
  stopped_in_update = false;
}

abbrev worker : Worker
worker = record {
  json = Messages.json;
  acquisition = Messages.processor;
  bridge = record {
    formats = Executions.formats;
    processor = Attempts.processor;
    processing_budget = 1000;
    heartbeat_interval = 10;
    poll_interval = 10;
  };
  lease_seconds = 30;
}

abbrev message : Message
message = record {
  message_id = none;
  delivery_id = [];
  receipt_handle = codes "receipt";
  body = codes "{}";
  receive_count = 1;
  visibility_deadline = some 60000;
  receive_started_at = some 0;
}

abbrev table : List Job
table = waiting ∷ []

process_delivery-IsAccountedFor_example :
    IsAccountedFor worker circumstances message
      (acquire_notification Messages.processor Messages.database Messages.json (codes "{}") table).0
      (process_delivery worker circumstances message Messages.database table)
process_delivery-IsAccountedFor_example =
    process_delivery-IsAccountedFor worker circumstances message Messages.database table

-- The heartbeat has extended the visibility, beyond whose first deadline the update comes.
calm : (job : AcquiredJob) → IsCalm worker circumstances message (job ∷ [])
calm job = record {
  visibility = 60000;
  visible = refl;
  running = refl;
  in_time = omega arith;
  acquired_at = 2;
  acquisition = refl;
  acquired_in_time = omega arith;
  running_at_end = refl;
  running_in_update = refl;
  ends_in_time = (refl, (refl, omega arith));
}

process_delivery_deletes_example :
    (events : List Event) × (process_delivery worker circumstances message Messages.database table
      ≡ deleted (codes "receipt") ∷ events)
unfolding Messages.get_field Messages.records_of Messages.text_of acquire_notification acquired_jobs
    streaming_video_app.Acquisition.Records.acquire_record
    streaming_video_app.Acquisition.Records.acquire_records
    streaming_video_app.Acquisition.Records.disposition_of streaming_video_app.Attempt.Effects.await
    streaming_video_app.Attempt.Effects.check_lost streaming_video_app.Attempt.Effects.observe
    streaming_video_app.Attempt.Effects.timed_await streaming_video_app.Attempt.Process.checkpoint
    streaming_video_app.Attempt.Process.complete_owned streaming_video_app.Attempt.Process.download
    streaming_video_app.Attempt.Process.encode_and_publish
    streaming_video_app.Attempt.Process.in_directory
    streaming_video_app.Attempt.Process.persist_failure streaming_video_app.Attempt.Process.process
    streaming_video_app.Attempt.Process.process_with_cleanup
    streaming_video_app.Attempt.Process.resolve_failure
    streaming_video_app.Attempt.Process.resolve_owned_failure
    streaming_video_app.Attempt.Process.retire streaming_video_app.Attempt.Process.run_pipeline
    streaming_video_app.Attempt.Process.run_reserved streaming_video_app.Attempt.Publish.file_name
    streaming_video_app.Attempt.Publish.guarded_write
    streaming_video_app.Attempt.Publish.publish_hls_with_checkpoint
    streaming_video_app.Attempt.Publish.publish_playlist
    streaming_video_app.Attempt.Publish.publish_segment
    streaming_video_app.Attempt.Publish.publish_segments
    streaming_video_app.Notification.Decode.canonical_uuid
    streaming_video_app.Notification.Decode.decode_bytes
    streaming_video_app.Notification.Decode.form_decode
    streaming_video_app.Notification.Decode.hex_digit
    streaming_video_app.Notification.Decode.is_lower_hex
    streaming_video_app.Notification.Decode.split
    streaming_video_app.Notification.Decode.strip_prefix
    streaming_video_app.Notification.Decode.uuid_bytes
    streaming_video_app.Notification.is_object_created streaming_video_app.Notification.item_of_key
    streaming_video_app.Notification.item_of_parts
    streaming_video_app.Notification.parse_notification_records
    streaming_video_app.Notification.parse_record streaming_video_app.Persistence.Port.as_str
    streaming_video_app.Persistence.Postgres.acquire_lease_with_mode
    streaming_video_app.Persistence.Postgres.acquired_row
    streaming_video_app.Persistence.Postgres.acquisition_record
    streaming_video_app.Persistence.Postgres.claim
    streaming_video_app.Persistence.Postgres.claim_upload
    streaming_video_app.Persistence.Postgres.disposition_of
    streaming_video_app.Persistence.Postgres.map_lease_acquisition
    streaming_video_app.Persistence.Postgres.target
    streaming_video_app.Persistence.Statements.acquire_row
    streaming_video_app.Persistence.Statements.claim_row
    streaming_video_app.Persistence.Statements.coalesce_mode
    streaming_video_app.Persistence.Statements.is_claimable
    streaming_video_app.Persistence.Statements.is_free
    streaming_video_app.Persistence.Statements.is_mode
    streaming_video_app.Persistence.Statements.is_null
    streaming_video_app.Persistence.Statements.is_open
    streaming_video_app.Persistence.Statements.is_status
    streaming_video_app.Persistence.Table.execute streaming_video_app.Persistence.Table.is_live
    streaming_video_app.Persistence.Table.is_row streaming_video_app.Persistence.Table.update
    streaming_video_app.Prelude.Utf8.is_utf8 streaming_video_app.Prelude.text_eq
process_delivery_deletes_example =
    process_delivery_deletes worker circumstances message Messages.database table (calm _)
      (refl, (((refl, refl), refl), tt))
