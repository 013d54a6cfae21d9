-- ===== src/Sexpr.antt =====
-- parser/src/cfg/sexpr.rs: the configuration's syntax, from bytes to s-expressions. A text is the
-- list of its bytes.
pub mod Position
pub mod Lexer
pub mod Parser
pub mod Print
