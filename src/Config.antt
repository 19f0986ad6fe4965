-- ===== src/Config.antt =====
-- The worker's configuration (app/backend/worker/crates/worker/src/lib.rs).
pub mod Parse
pub mod Limits
pub mod Heartbeat
pub mod Validate
pub mod Loader
pub mod Allowed
pub mod Sound
pub mod Disk
