-- ===== src/KeyOverride.antt =====
-- parser/src/cfg/key_override.rs: global key overrides. An `OsCode` and the `KeyCode` of the same
-- number are one number here, as `transmute` makes them.
pub mod Mask
pub mod Override
pub mod Apply
pub mod Fits
pub mod Made
pub mod Choice
pub mod Rewrite
pub mod Erase
