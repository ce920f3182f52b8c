-- ===== src/Pgparser.antt =====
-- crates/pgparser: the syntax of expressions.
pub mod Ast
