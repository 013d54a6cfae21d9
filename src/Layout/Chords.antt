-- ===== src/Layout/Chords.antt =====
-- keyberon/src/layout.rs and keyberon/src/action.rs: chords of version 1.
pub mod Group
pub mod Decompose
pub mod Handle
pub mod Split
pub mod Decomposed
pub mod Decided
