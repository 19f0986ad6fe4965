-- ===== src/Completion.antt =====
-- One delivery of a message (app/backend/worker/crates/worker/src/completion.rs).
pub mod Distributed
pub mod Records
pub mod Delivery
pub mod Acknowledged
pub mod Updates
pub mod Deletion
pub mod Success
