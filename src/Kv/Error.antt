-- ===== src/Kv/Error.antt =====
-- crates/kv/src/error.rs
use crabgresql.Prelude.{ℕ, String, List}

-- A message is its text, with `{}` for what `format!` puts in, and what is put in: a number, or the
-- bytes of a text.
pub data KvError : Type 0 where
  corrupt_row : String → List ℕ → KvError
  io : String → KvError
