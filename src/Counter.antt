-- ===== src/Counter.antt =====
-- `Counter` of crates/vcz-lib/src/counter.rs: bytes and rates, of a peer or a torrent.
pub mod Rates
pub mod Conserved
mod Tests
