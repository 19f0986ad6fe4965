-- ===== src/Hls.antt =====
-- The playlists that the encoder leaves (app/backend/worker/crates/encoding/src/lib.rs). The file
-- system is a parameter.
pub mod Lines
pub mod Validate
pub mod Sound
