-- ===== src/Attempt.antt =====
-- One owned attempt (app/backend/worker/crates/worker/src/retry.rs and publish.rs).
pub mod Effects
pub mod Publish
pub mod Settings
pub mod Process
pub mod Keeps
pub mod Guard
pub mod Durable
pub mod Outcomes
pub mod Progress
