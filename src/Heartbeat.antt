-- ===== src/Heartbeat.antt =====
-- The heartbeat: its watchdog, its renewals and its task
-- (app/backend/worker/crates/worker/src/heartbeat.rs).
pub mod Deadlines
pub mod Watchdog
pub mod Renewal
pub mod Coverage
pub mod Task
