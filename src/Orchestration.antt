-- ===== src/Orchestration.antt =====
-- Distributed executions (app/backend/worker/crates/worker/src/orchestration.rs). The client of the
-- execution service, the finalizer, `serde_json` and `chrono` are parameters.
pub mod Input
pub mod Effects
pub mod Prior
pub mod Run
pub mod Keeps
pub mod Termination
pub mod Order
pub mod Finalizing
pub mod Identity
pub mod Bounding
