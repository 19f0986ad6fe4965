-- ===== src/Lib.antt =====
-- Verification of the video encoding worker (app/backend/worker).
--
-- The worker receives S3 notifications from a queue, acquires a lease on each uploaded job in
-- PostgreSQL, encodes the video (in its own process or by a distributed execution), publishes the
-- result to S3, and records completion, retry or failure in the table. Paths below start at
-- app/backend/worker/crates.
--
-- Prelude: texts as bytes of UTF-8, results, lists and Boolean tests over the native numbers.
-- Persistence: persistence/src/lib.rs and postgres.rs. Table is the `jobs` table and one
--   conditional update, Statements the row function of each SQL statement, Postgres the operations
--   with their outcomes, Requests the operations as data and histories of them. A connection is up,
--   refuses a request, or loses its response after the statement ran.
-- Naming: execution_name, canonical_source_key and canonical_output_prefix of
--   worker/src/orchestration.rs.
-- Notification: worker/src/event.rs; Decode is the byte-level part. The JSON reader is a parameter.
-- Acquisition: worker/src/acquisition.rs, over Notification and Persistence.
-- Attempt: worker/src/retry.rs (Process, Settings) and worker/src/publish.rs (Publish). The ports
--   are a `World` of answers by the number of observations made before, so that theorems hold for
--   every interleaving with the heartbeat; each effect is an entry of a log. An await may also
--   time out, panic or be dropped.
-- Orchestration: worker/src/orchestration.rs. Input is ExecutionInput, Prior the bound on earlier
--   attempts, Run the start, the polling and the end. The client and the finalizer are a `World` in
--   the same style, with a clock in milliseconds. The two loops that poll run on fuel; one more
--   than the deadline is enough, since every turn moves the clock. The recovery of a start has 3
--   turns and the confirmation of an absent execution 3, as in the source.
-- Config: Config::from_lookup and its checks (worker/src/lib.rs), the TLS policy
--   (persistence/src/tls.rs), the agent's address (worker/src/protection.rs), limits and disk
--   budget (encoding/src/limits.rs), and the heartbeat's settings (worker/src/heartbeat.rs). The
--   `url` crate and the database driver are parameters.
-- Heartbeat: the deadlines and the watchdog of worker/src/heartbeat.rs (OwnershipDeadlines,
--   before_deadline); the turns of its loop are a list, so that any interleaving is one. Renewal is
--   a tick (renew_tick), with the rows of the table that its requests change, and Task
--   repeats it (start_with_context) from cycle to cycle.
-- Completion: worker/src/completion.rs. Records is the loop over a delivery's records, Delivery what
--   stands around it, Distributed the run of an execution with its deadline
--   (worker/src/orchestration.rs). What happens meanwhile is a record of circumstances.
-- Queue: queue/src/lib.rs and queue/src/sqs.rs.
-- Sfn: worker/src/sfn.rs. Arns holds names and codes, History the scan for tasks, Tasks the
--   inspection of them, Client the client of the orchestration.
-- Hls: encoding/src/lib.rs, over a file system that is a parameter.
-- Finalizer: worker/src/finalizer.rs, and Encoder: worker/src/encoder.rs. Each stops at its first
--   error and leaves a list of its calls (Prelude.Logged); the answers are a `World` by the number of
--   calls made before.
-- Examples: concrete inputs on which the theorems are applied.
--
-- Not modelled: the heartbeat's signal of a lost ownership and its interval, worker/src/runtime.rs
-- and main.rs, the requests of the AWS SDK, the supervision of ffmpeg, and the child encoder's
-- reading of its environment. A panic of a port is an answer; other panics, memory exhaustion and
-- the scheduling of tasks are outside the model. An instant is a number, and the clock of the
-- database is the one that a request carries. The arithmetic of `f64` is a parameter.
pub mod Prelude
pub mod Persistence
pub mod Naming
pub mod Notification
pub mod Acquisition
pub mod Attempt
pub mod Config
pub mod Heartbeat
pub mod Orchestration
pub mod Completion
pub mod Sfn
pub mod Hls
pub mod Finalizer
pub mod Encoder
pub mod Queue
pub mod Examples
