-- ===== src/Executor/Eval.antt =====
-- crates/executor/src/eval.rs: the evaluation of expressions. The functions and the casts of SQL,
-- the text form of a value and the characters of a text are the host's.
pub mod Operators
pub mod Predicates
pub mod Tree
use crabgresql.Prelude.{ℕ, List, Bool, true, false, Option, some, none, Result, ok, err, ◌>>=◌}
use crabgresql.Bytes.{Bytes}
use crabgresql.Pgtypes.TypeError
use crabgresql.Pgtypes.TypeError.{Fault}
use crabgresql.Pgtypes.ColumnType.{ColumnType}
use crabgresql.Pgtypes.Crates.{Crates}
use crabgresql.Pgtypes.Ops.{Value}
use crabgresql.Pgparser.Ast.{Expr, FuncArgs}
use crabgresql.Executor.Error.{ExecError, ExecFault, panics, error, type_error}

-- The `?` on a `TypeError`.
unfoldable pub lift {ℓ} : {A : Type ℓ} → Result Fault A → Result ExecFault A
lift (ok a) = ok a
lift (err TypeError.panics) = err panics
lift (err (TypeError.error e)) = err (error (type_error e))

-- The `?` on an error of the executor.
unfoldable pub exec {ℓ} : {A : Type ℓ} → Result ExecError A → Result ExecFault A
exec (ok a) = ok a
exec (err e) = err (error e)

-- The session's zone, and what lies in other files of crates/executor and crates/pgtypes.
pub record Host (C : Crates) (Query : Type 0) : Type 0 where
  pub time_zone : C.jiff.TimeZone
  pub text_of : Value C → Bytes
  pub chars : Bytes → List ℕ
  pub cast : Value C → ColumnType → Result Fault (Value C)
  pub call :
      Bytes
      → Bool
      → FuncArgs C.scalars Query
      → (Expr C.scalars Query → Result ExecFault (Value C))
      → Result ExecFault (Value C)
