-- ===== src/Executor/Eval/Tree.antt =====
-- crates/executor/src/eval.rs: `eval_depth`. `room` is how much deeper the evaluation may go:
-- `MAX_EVAL_DEPTH + 1 - depth`, so that no room is left where the guard fires.
use crabgresql.Prelude.{
  ℕ, zero, suc, List, [], ◌∷◌, Option, some, none, Result, ok, err, ok_or, ◌>>=◌,
}
use mathlib.Core.Bool.{xor}
use crabgresql.Pgtypes.TypeError
use crabgresql.Pgtypes.Datum
use crabgresql.Pgtypes.Datum.{Datum, null, bool, text, numeric}
use crabgresql.Pgtypes.Crates.{Crates}
use crabgresql.Pgtypes.Numeric
use crabgresql.Pgtypes.Ops.{Value}
use crabgresql.Pgtypes.Ops.Literals
use crabgresql.Pgparser.Ast.{
  Expr, int_literal, numeric_literal, string_literal, bool_literal, null_literal, column, param,
  unary, binary, func, is_null, in_list, between, like, case_of, cast, const,
}
use crabgresql.Executor.Error.{
  ExecFault, panics, error, type_error, unsupported, stack_depth_exceeded,
}
use crabgresql.Executor.Scope.{Scope, resolve}
use crabgresql.Executor.Eval.{exec, lift, Host}
use crabgresql.Executor.Eval.Operators.{apply_unary, apply_binary}
use crabgresql.Executor.Eval.Predicates.{eval_in_list, eval_between, eval_like, eval_case}

-- `MAX_EVAL_DEPTH`.
abbrev pub max_eval_depth : ℕ
max_eval_depth = 150

abbrev no_subquery : ExecFault
no_subquery = error (unsupported "subqueries are only supported in SELECT")

-- `values[idx]`; `none` is a panic.
unfoldable pub value_at {ℓ} : {A : Type ℓ} → List A → ℕ → Option A
value_at [] i = none
value_at (v ∷ vs) zero = some v
value_at (v ∷ vs) (suc i) = value_at vs i

module _ (C : Crates) {Query : Type 0} (host : Host C Query) (scope : Scope)
    (values : List (Value C)) where
  abbrev Tree : Type 0
  Tree = Expr C.scalars Query

  unfoldable pub eval_depth : ℕ → Tree → Result ExecFault (Value C)
  eval_depth zero e = err (error stack_depth_exceeded)
  eval_depth (suc room) (int_literal s) = lift (Literals.int_literal C s)
  eval_depth (suc room) (numeric_literal s) = elim (Numeric.parse C s) [
    | some bd ↦ ok (numeric bd)
    | none ↦ err (error (type_error (TypeError.invalid_text "numeric" s)))
  ]
  eval_depth (suc room) (string_literal s) = ok (text s)
  eval_depth (suc room) (bool_literal b) = ok (bool b)
  eval_depth (suc room) null_literal = ok null
  eval_depth (suc room) (param n) =
      err (error (unsupported "query parameters ($n) are not supported"))
  eval_depth (suc room) (column table name) = do
    idx ← exec (resolve scope table name)
    ok_or (value_at values idx) panics
  eval_depth (suc room) (unary op e) = do v ← eval_depth room e; apply_unary C op v
  eval_depth (suc room) (binary op left right) = do
    l ← eval_depth room left
    r ← eval_depth room right
    apply_binary C host op l r
  eval_depth (suc room) (func name distinct args) = host.call name distinct args (eval_depth room)
  eval_depth (suc room) (is_null e negated) = do
    v ← eval_depth room e
    ok (bool (xor (Datum.is_null v) negated))
  eval_depth (suc room) (in_list e list negated) = do
    x ← eval_depth room e
    eval_in_list C x list negated (eval_depth room)
  eval_depth (suc room) (between e low high negated) = do
    x ← eval_depth room e
    lo ← eval_depth room low
    hi ← eval_depth room high
    eval_between C host x lo hi negated
  eval_depth (suc room) (like e pattern_text negated ci) = do
    s ← eval_depth room e
    p ← eval_depth room pattern_text
    eval_like C host s p negated ci
  eval_depth (suc room) (case_of operand whens otherwise) =
      eval_case C operand whens otherwise (eval_depth room)
  eval_depth (suc room) (cast e ty) = do v ← eval_depth room e; lift (host.cast v ty)
  eval_depth (suc room) (const value ty) = ok value
  eval_depth (suc room) _ = err no_subquery

  unfoldable pub eval : Tree → Result ExecFault (Value C)
  eval e = eval_depth (suc max_eval_depth) e
