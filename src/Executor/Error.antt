-- ===== src/Executor/Error.antt =====
-- crates/executor/src/error.rs: the errors of the evaluation of expressions.
use crabgresql.Prelude.{String, List}
use crabgresql.Bytes.{Bytes}
use crabgresql.Pgtypes.TypeError.{TypeError}

-- The variants that expressions, scopes and set operators use. A message is its text, with `{}` for
-- what `format!` puts in, and what is put in.
pub data ExecError : Type 0 where
  type_error : TypeError → ExecError
  undefined_column : Bytes → ExecError
  ambiguous_column : Bytes → ExecError
  missing_from_entry : Bytes → ExecError
  unsupported : String → ExecError
  type_mismatch : String → List String → ExecError
  undefined_function : String → List String → ExecError
  stack_depth_exceeded : ExecError

-- How the evaluation ends without a value.
pub data ExecFault : Type 0 where
  panics : ExecFault
  error : ExecError → ExecFault
