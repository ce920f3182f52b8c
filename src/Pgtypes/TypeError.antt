-- ===== src/Pgtypes/TypeError.antt =====
-- crates/pgtypes/src/error.rs
use crabgresql.Prelude.{String, List}
use crabgresql.Bytes.{Bytes}

-- A message is its text, with `{}` for what `format!` puts in, and what is put in.
pub data TypeError : Type 0 where
  overflow : TypeError
  division_by_zero : TypeError
  invalid_text : String → Bytes → TypeError
  type_mismatch : String → List String → TypeError
  invalid_escape : TypeError
  cannot_cast : String → String → TypeError
  domain : String → String → TypeError
  invalid_datetime_format : String → Bytes → TypeError
  datetime_field_overflow : Bytes → TypeError

-- The five characters of the SQLSTATE.
unfoldable pub sqlstate : TypeError → String
sqlstate overflow = "22003"
sqlstate division_by_zero = "22012"
sqlstate (invalid_text _ _) = "22P02"
sqlstate (type_mismatch _ _) = "42804"
sqlstate invalid_escape = "22025"
sqlstate (cannot_cast _ _) = "42846"
sqlstate (domain state _) = state
sqlstate (invalid_datetime_format _ _) = "22007"
sqlstate (datetime_field_overflow _) = "22008"

-- How an operation ends without a value: by an error, or by a panic.
pub data Fault : Type 0 where
  panics : Fault
  error : TypeError → Fault
