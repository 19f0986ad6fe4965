-- ===== src/Encoder.antt =====
-- The child encoder: one rendition of one attempt (app/backend/worker/crates/worker/src/encoder.rs).
-- The processes, the object store, the file system, `serde_json` and `f64` are parameters.
pub mod Payload
pub mod Media
pub mod Rates
pub mod Effects
pub mod Run
pub mod Writes
pub mod Order
pub mod Agreement
