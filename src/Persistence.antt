-- ===== src/Persistence.antt =====
-- Job state in PostgreSQL (app/backend/worker/crates/persistence/src).
pub mod Port
pub mod Table
pub mod Statements
pub mod Postgres
pub mod Requests
pub mod Schema
pub mod Fencing
pub mod Attempts
pub mod Acquisition
pub mod Ownership
