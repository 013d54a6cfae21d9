-- ===== src/Tests.antt =====
-- The theorems of each part at concrete inputs.
mod Switch
mod KeyOverride
mod DynamicMacro
mod Layout
mod CapsWord
mod CustomTapHold
mod Sexpr
mod Chords
mod SubsetMap
mod MillisecondCounting
mod Deques
mod Manager
mod Tick
