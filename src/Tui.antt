-- ===== src/Tui.antt =====
-- src/tui.rs: the terminal interface, from its state to the event loop and what is drawn.
pub mod Sorting
pub mod App
pub mod Keys
pub mod Dialogs
pub mod Editing
pub mod Consistent
pub mod Sessions
pub mod Fetch
pub mod Loop
pub mod Labels
pub mod Popup
pub mod Draw
pub mod Drawn
pub mod Moves
pub mod Fields
pub mod Looping
pub mod Fetching
mod Tests
mod LoopTests
mod DrawTests
