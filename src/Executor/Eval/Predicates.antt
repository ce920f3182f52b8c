-- ===== src/Executor/Eval/Predicates.antt =====
-- crates/executor/src/eval.rs: IN, BETWEEN, LIKE and CASE, given the evaluation of a child.
use Prim.Native.Nat.{Ordering, eq}
use crabgresql.Prelude.{
  Bool, true, false, not, ◌||◌, String, [], Option, some, none, Result, ok, err, ◌>>=◌,
  if◌then◌else◌,
}
use mathlib.Core.Bool.{xor}
use crabgresql.Bytes.{Bytes}
use crabgresql.Pgtypes.TypeError
use crabgresql.Pgtypes.Datum.{null, bool, text, is_null}
use crabgresql.Pgtypes.Crates.{Crates}
use crabgresql.Pgtypes.Ops.{Value}
use crabgresql.Pgtypes.Ops.Compare.{compare}
use crabgresql.Pgtypes.Ops.Logic
use crabgresql.Pgparser.Ast.{
  Expr, Exprs, end, next, Whens, no_when, when, MaybeExpr, absent, present, at_most, at_least,
}
use crabgresql.Executor.Error.{ExecFault, panics, error, type_error, type_mismatch}
use crabgresql.Executor.Like.{like_match, Outcome, answer, invalid_escape, out_of_fuel}
use crabgresql.Executor.Eval.{lift, Host}
use crabgresql.Executor.Eval.Operators.{apply_binary}

abbrev exec_mismatch : String → ExecFault
exec_mismatch message = error (type_mismatch message [])

-- `like_match(..)?`; it has fuel enough.
unfoldable pub like_result : Outcome → Result ExecFault Bool
like_result (answer b) = ok b
like_result invalid_escape = err (error (type_error TypeError.invalid_escape))
like_result out_of_fuel = err panics

-- The simple form: the operand's value against a `WHEN`'s.
unfoldable pub is_equal : Option Ordering → Bool
is_equal (some eq) = true
is_equal _ = false

module _ (C : Crates) where
  unfoldable pub as_text : Value C → Result ExecFault Bytes
  as_text (text s) = ok s
  as_text _ = err (exec_mismatch "LIKE/ILIKE operands must be type text")

  -- The end of the loop.
  abbrev no_match : Bool → Bool → Value C
  no_match saw_null negated = if saw_null then null else bool negated

  -- The searched form: what a condition decides.
  unfoldable pub searched :
      Value C → Result ExecFault (Value C) → Result ExecFault (Value C) → Result ExecFault (Value C)
  searched (bool true) result others = result
  searched (bool false) result others = others
  searched null result others = others
  searched _ result others = err (exec_mismatch "argument of CASE/WHEN must be type boolean")

  -- `eval_child`.
  abbrev pub Child : Type 0 → Type 0
  Child Query = Expr C.scalars Query → Result ExecFault (Value C)

module _ (C : Crates) {Query : Type 0} where
  -- The loop over the list, with `saw_null`.
  unfoldable pub in_list_loop :
      Value C → Bool → Child C Query → Bool → Exprs C.scalars Query → Result ExecFault (Value C)
  in_list_loop x negated child saw_null end = ok (no_match C saw_null negated)
  in_list_loop x negated child saw_null (next item list) = do
    v ← child item
    ord ← lift (compare C x v)
    elim ord [
      | some eq ↦ ok (bool (not negated))
      | none ↦ in_list_loop x negated child true list
      | _ ↦ in_list_loop x negated child saw_null list
    ]

  unfoldable pub eval_in_list :
      Value C → Exprs C.scalars Query → Bool → Child C Query → Result ExecFault (Value C)
  eval_in_list x list negated child =
      if is_null x then ok null else in_list_loop x negated child false list

  unfoldable pub eval_between :
      Host C Query → Value C → Value C → Value C → Bool → Result ExecFault (Value C)
  eval_between host x lo hi negated = do
    ge ← apply_binary C host at_least x lo
    le ← apply_binary C host at_most x hi
    res ← lift (Logic.and C ge le)
    if negated then lift (Logic.not C res) else ok res

  unfoldable pub eval_like :
      Host C Query → Value C → Value C → Bool → Bool → Result ExecFault (Value C)
  eval_like host s pat negated ci = if is_null s || is_null pat then ok null else (do
    st ← as_text C s
    pt ← as_text C pat
    m ← like_result (like_match (host.chars st) (host.chars pt) ci)
    ok (bool (xor m negated)))

  unfoldable pub else_value : Child C Query → MaybeExpr C.scalars Query → Result ExecFault (Value C)
  else_value child (present e) = child e
  else_value child absent = ok null

  unfoldable pub searched_case :
      Child C Query → MaybeExpr C.scalars Query → Whens C.scalars Query → Result ExecFault (Value C)
  searched_case child otherwise no_when = else_value child otherwise
  searched_case child otherwise (when cond result whens) = do
    c ← child cond
    searched C c (child result) (searched_case child otherwise whens)

  unfoldable pub simple_case :
      Child C Query
      → MaybeExpr C.scalars Query
      → Value C
      → Whens C.scalars Query
      → Result ExecFault (Value C)
  simple_case child otherwise ov no_when = else_value child otherwise
  simple_case child otherwise ov (when val result whens) = do
    vv ← child val
    ord ← lift (compare C ov vv)
    elim (is_equal ord) [ true ↦ child result | false ↦ simple_case child otherwise ov whens ]

  unfoldable pub eval_case :
      MaybeExpr C.scalars Query
      → Whens C.scalars Query
      → MaybeExpr C.scalars Query
      → Child C Query
      → Result ExecFault (Value C)
  eval_case absent whens otherwise child = searched_case child otherwise whens
  eval_case (present op) whens otherwise child = do
    ov ← child op
    simple_case child otherwise ov whens
