-- ===== src/Torrent.antt =====
-- What a torrent is made of and which pieces of it are asked for: crates/vcz-lib/src/metainfo.rs and
-- torrent/mod.rs.
pub mod Bits
pub mod Info
pub mod Blocks
pub mod Wanted
pub mod BitLaws
pub mod Choice
pub mod Pause
mod Tests
