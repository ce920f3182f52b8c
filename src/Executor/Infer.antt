-- ===== src/Executor/Infer.antt =====
-- crates/executor/src/eval.rs: `infer_type`, the static type of an expression.
pub mod Values
pub mod Applied
pub mod Numbers
pub mod Branches
pub mod Plain
pub mod Sound
use crabgresql.Prelude.{
  Bool, true, false, not, ◌&&◌, ◌||◌, List, [], ◌∷◌, ◌==◌, Option, some, none, Result, ok, err,
  ok_or, ◌>>=◌, if◌then◌else◌,
}
use crabgresql.Bytes.{Bytes}
use crabgresql.Pgtypes.TypeError
use crabgresql.Pgtypes.ColumnType
use crabgresql.Pgtypes.ColumnType.{
  ColumnType, Typmod, bool, int4, int8, text, float8, date, time, timestamp, timestamptz, interval,
  bytea, numeric, is_numeric,
}
use crabgresql.Pgtypes.Datum
use crabgresql.Pgtypes.Datum.{Scalars, Datum}
use crabgresql.Pgtypes.Crates.{Crates}
use crabgresql.Pgtypes.Ops.Literals
use crabgresql.Pgparser.Ast.{
  UnaryOp, logical_not, neg, BinaryOp, plus, minus, times, over, concat, Expr, int_literal,
  numeric_literal, string_literal, bool_literal, null_literal, column, param, unary, binary, func,
  is_null, in_list, between, like, case_of, cast, scalar_subquery, exists, in_subquery, quantified,
  const, Exprs, Whens, no_when, when, MaybeExpr, absent, present, FuncArgs,
}
use crabgresql.Executor.Error.{
  ExecError, ExecFault, panics, error, type_error, unsupported, type_mismatch, undefined_function,
}
unfoldable pub use crabgresql.Executor.Types.{
  same_typmod, same_type, is_int, is_number, is_temporal, datetime_arms, datetime_result_type,
  numeric_result_type, result_type, unify_types,
}
use crabgresql.Executor.Scope.{Scope, resolve, ty_at}
use crabgresql.Executor.Eval.{exec, lift}

-- The static types of functions, and which casts exist: other files of the crates.
pub record TypeHost (S : Scalars) (Query : Type 0) : Type 0 where
  pub call_type : Bytes → Bool → FuncArgs S Query → Result ExecFault ColumnType
  pub cast_allowed : ColumnType → ColumnType → Bool

-- `match int_literal(s)? { Int4 => .., Int8 => .., _ => unreachable!() }`.
unfoldable pub literal_type : {S : Scalars} → Datum S → Result ExecFault ColumnType
literal_type (Datum.int4 _) = ok int4
literal_type (Datum.int8 _) = ok int8
literal_type _ = err panics

-- `||` wants a text operand.
unfoldable pub concat_type : ColumnType → ColumnType → Result ExecFault ColumnType
concat_type l r =
    if not (same_type l text) && not (same_type r text)
    then err (
        error (
          undefined_function "operator does not exist: {} || {}"
            (ColumnType.name l ∷ ColumnType.name r ∷ [])))
    else ok text

unfoldable pub binary_type : BinaryOp → ColumnType → ColumnType → Result ExecFault ColumnType
binary_type plus l r = ok (result_type plus l r)
binary_type minus l r = ok (result_type minus l r)
binary_type times l r = ok (result_type times l r)
binary_type over l r = ok (result_type over l r)
binary_type concat l r = concat_type l r
binary_type _ l r = ok bool

-- The operators whose operands are typed.
unfoldable pub types_operands : BinaryOp → Bool
types_operands plus = true
types_operands minus = true
types_operands times = true
types_operands over = true
types_operands concat = true
types_operands _ = false

-- `unify_branch`, on the type of a branch that is no bare NULL.
unfoldable pub join_branch : Option ColumnType → ColumnType → Result ExecFault (Option ColumnType)
join_branch none t = ok (some t)
join_branch (some a) t = do u ← exec (unify_types a t); ok (some u)

-- `acc.unwrap_or(ColumnType::Text)`.
unfoldable pub or_text : Option ColumnType → ColumnType
or_text (some t) = t
or_text none = text

unfoldable pub is_null_literal : {S : Scalars} {Query : Type 0} → Expr S Query → Bool
is_null_literal null_literal = true
is_null_literal _ = false

-- `unify_branch`, given the branch's type.
unfoldable pub unify_branch :
    {S : Scalars} {Query : Type 0}
    → Expr S Query
    → Option ColumnType
    → Result ExecFault ColumnType
    → Result ExecFault (Option ColumnType)
unify_branch e acc typed = if is_null_literal e then ok acc else (do t ← typed; join_branch acc t)

module _ (C : Crates) {Query : Type 0} (host : TypeHost C.scalars Query) (scope : Scope) where
  unfoldable mutual
    pub infer_type : Expr C.scalars Query → Result ExecFault ColumnType
    infer_type (int_literal s) = do v ← lift (Literals.int_literal C s); literal_type v
    infer_type (numeric_literal s) = ok (numeric none)
    infer_type (string_literal s) = ok text
    infer_type (bool_literal b) = ok bool
    infer_type null_literal = ok text
    infer_type (param n) = err (error (unsupported "query parameters ($n) are not supported"))
    infer_type (column table name) = do
      idx ← exec (resolve scope table name)
      ok_or (ty_at scope idx) panics
    infer_type (unary logical_not e) = ok bool
    infer_type (unary neg e) = infer_type e
    infer_type (binary op l r) =
        let typed = (do lt ← infer_type l; rt ← infer_type r; binary_type op lt rt) in
        if types_operands op then typed else ok bool
    infer_type (func name distinct args) = host.call_type name distinct args
    infer_type (is_null e negated) = ok bool
    infer_type (in_list e list negated) = ok bool
    infer_type (between e low high negated) = ok bool
    infer_type (like e p negated ci) = ok bool
    infer_type (case_of operand whens otherwise) = do
      acc ← infer_whens none whens
      acc' ← infer_else acc otherwise
      ok (or_text acc')
    infer_type (cast e ty) = do
      from ← infer_type e
      if host.cast_allowed from ty
          then ok ty
          else err (
              error
                (type_error (TypeError.cannot_cast (ColumnType.name from) (ColumnType.name ty))))
    infer_type (const value ty) = ok ty
    infer_type (scalar_subquery q) =
        err (error (unsupported "internal: scalar subquery must be resolved before type inference"))
    infer_type _ = ok bool

    pub infer_whens :
        Option ColumnType → Whens C.scalars Query → Result ExecFault (Option ColumnType)
    infer_whens acc no_when = ok acc
    infer_whens acc (when cond result whens) = do
      acc' ← unify_branch result acc (infer_type result)
      infer_whens acc' whens

    pub infer_else :
        Option ColumnType → MaybeExpr C.scalars Query → Result ExecFault (Option ColumnType)
    infer_else acc absent = ok acc
    infer_else acc (present e) = unify_branch e acc (infer_type e)
