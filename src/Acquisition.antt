-- ===== src/Acquisition.antt =====
-- Lease acquisition for the records of one message
-- (app/backend/worker/crates/worker/src/acquisition.rs).
pub mod Types
pub mod Records
pub mod Dispositions
