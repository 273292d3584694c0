-- ===== src/Disk.antt =====
-- `Disk` of crates/vcz-lib/src/disk.rs: the layout of a torrent's files, the blocks written to and
-- read from them, the hashes of pieces, and the queues of blocks.
pub mod State
pub mod Layout
pub mod Write
pub mod Image
pub mod Written
pub mod Hashes
pub mod Parts
pub mod LastBytes
pub mod Blocks
pub mod Sizes
pub mod Validation
pub mod Arrival
pub mod Settle
pub mod Found
pub mod Reading
pub mod Queues
pub mod HandedOut
pub mod Honest
pub mod Steps
pub mod Resume
pub mod Fitting
pub mod TakenUp
mod Tests
