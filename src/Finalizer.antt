-- ===== src/Finalizer.antt =====
-- The publication of a distributed run's result (app/backend/worker/crates/worker/src/finalizer.rs).
-- The object store, the probe of a media file, the directory for temporary files, `serde_json` and
-- the arithmetic of `f64` are parameters.
pub mod Types
pub mod Checks
pub mod Effects
pub mod Objects
pub mod Run
pub mod Readings
pub mod Bounds
pub mod Order
