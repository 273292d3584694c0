-- ===== src/Wire.antt =====
-- The messages of the peer protocol and their codec (crates/vcz-lib/src/extensions/core).
pub mod Message
pub mod Codec
mod Format
pub mod RoundTrip
pub mod Malformed
mod Tests
