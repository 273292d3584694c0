-- ===== src/Daemon.antt =====
-- The messages between the daemon and its frontends and their codec
-- (crates/vcz-lib/src/daemon_wire.rs).
pub mod Message
pub mod Codec
mod Format
pub mod RoundTrip
pub mod Malformed
mod Tests
