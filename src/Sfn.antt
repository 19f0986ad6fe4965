-- ===== src/Sfn.antt =====
-- The client of the execution service (app/backend/worker/crates/worker/src/sfn.rs). The AWS SDK
-- and `serde_json` are parameters.
pub mod Arns
pub mod History
pub mod Tasks
pub mod Client
pub mod Named
pub mod Retryable
