-- ===== src/Requests.antt =====
-- `RequestManager` of crates/vcz-lib/src/peer/request_manager.rs and what is proved about it.
pub mod Manager
pub mod Completion
mod Index
pub mod Invariant
pub mod Steps
pub mod Runs
pub mod Pointed
pub mod Reach
pub mod Fulfilled
pub mod Lifecycle
pub mod Admission
pub mod Views
mod Tests
