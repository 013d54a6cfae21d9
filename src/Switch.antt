-- ===== src/Switch.antt =====
-- keyberon/src/action/switch.rs and the case parser of parser/src/cfg/switch.rs: the opcodes of a
-- `switch` action, their encoding and decoding, the evaluator and the choice of actions.
pub mod Ticks
pub mod OpCode
pub mod Codec
pub mod Condition
pub mod Eval
pub mod Parse
pub mod Meaning
pub mod Slice
pub mod Machine
pub mod Resume
pub mod Correct
pub mod ParseCode
pub mod Actions
