-- ===== src/VimInput.antt =====
-- `VimInput` of crates/vcz-ui/src/widgets/vim_input.rs: the editor of a magnet link.
pub mod State
pub mod Wrapping
pub mod Editing
pub mod Lines
pub mod Edits
pub mod Deleting
pub mod Visible
pub mod Moves
pub mod Keys
pub mod Stays
mod Tests
