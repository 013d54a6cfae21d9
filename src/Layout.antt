-- ===== src/Layout.antt =====
-- keyberon/src/layout.rs: the layout manager's parts.
pub mod Event
pub mod OneShot
pub mod HoldTap
pub mod Chords
pub mod TapDance
pub mod State
pub mod Deques
pub mod History
pub mod Action
pub mod Manager
