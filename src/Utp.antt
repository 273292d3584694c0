-- ===== src/Utp.antt =====
-- The micro transport protocol (crates/utp/src): packets, the state of a connection, and a stream.
pub mod Packet
pub mod Parse
pub mod Connection
pub mod Queue
pub mod Stream
pub mod Flush
pub mod Acks
pub mod Delivery
pub mod Sound
mod Steps
pub mod Reach
pub mod Congestion
pub mod Ledbat
mod Tests
mod CongestionTests
