-- ===== src/DynamicMacro.antt =====
-- src/kanata/dynamic_macro.rs: recording what is typed, and replaying it. A `HashSet` is a list
-- without repetition; the order in which one is walked is a parameter of what walks it.
pub mod Record
pub mod Replay
pub mod Emission
pub mod Closed
pub mod Fidelity
