-- ===== src/Handshake.antt =====
-- The handshake: its codec (crates/vcz-lib/src/extensions/core/handshake_codec.rs) and the two sides
-- that send it (crates/vcz-lib/src/peer/types.rs).
pub mod Codec
pub mod Greet
pub mod Format
pub mod Fragments
pub mod Meeting
mod Tests
