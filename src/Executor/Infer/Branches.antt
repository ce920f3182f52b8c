-- ===== src/Executor/Infer/Branches.antt =====
-- The predicates and CASE return values of the types that they are inferred to have, where the
-- evaluation of their children does.
use crabgresql.Prelude.{
  ◌≡◌, Bool, true, false, Result, ok, arith, ok-inj, >>=-eq-ok, Bool-cases, inl, inr, ◌⊎◌,
}
use crabgresql.Pgtypes.ColumnType.{ColumnType}
use crabgresql.Pgtypes.Datum.{null, bool}
use crabgresql.Pgtypes.Crates.{Crates}
use crabgresql.Pgtypes.Ops.{Value}
use crabgresql.Pgtypes.Ops.Compare.{compare}
use crabgresql.Pgtypes.Ops.Logic
use crabgresql.Pgparser.Ast.{
  Expr, Exprs, end, next, Whens, no_when, when, MaybeExpr, absent, present, at_most, at_least,
}
use crabgresql.Executor.Error.{ExecFault}
use crabgresql.Executor.Eval.{lift, Host}
use crabgresql.Executor.Eval.Operators.{apply_binary}
use crabgresql.Executor.Eval.Predicates.{
  is_equal, searched, Child, in_list_loop, eval_in_list, eval_between, eval_like, else_value,
  searched_case, simple_case, eval_case,
}
use crabgresql.Executor.Infer.Values.{has_type}
use crabgresql.Executor.Infer.Applied.{lift-eq-ok, and_typed, not_typed}

module _ (C : Crates) where
  searched-eq-ok :
      (c : Value C) (result others : Result ExecFault (Value C)) {v : Value C}
      → searched C c result others ≡ ok v
      → ◌≡◌ {A = Result ExecFault (Value C)} result (ok v)
        ⊎ ◌≡◌ {A = Result ExecFault (Value C)} others (ok v)
  unfolding searched
  searched-eq-ok (bool true) result others h = inl h
  searched-eq-ok (bool false) result others h = inr h
  searched-eq-ok null result others h = inr h
  searched-eq-ok _ result others h = absurd cc

module _ (C : Crates) {Query : Type 0} where
  in_list_loop_typed :
      (x : Value C) (negated : Bool) (child : Child C Query) (saw_null : Bool)
      (list : Exprs C.scalars Query) {v : Value C}
      → in_list_loop C x negated child saw_null list ≡ ok v
      → has_type ColumnType.bool v ≡ true
  unfolding in_list_loop has_type
  in_list_loop_typed x negated child saw_null end {v} h = ground (arith, h)
  in_list_loop_typed x negated child saw_null (next item list) {v} h = ground (
    arith,
    h,
    in_list_loop_typed x negated child true list {v = v},
    in_list_loop_typed x negated child saw_null list {v = v},
  )

  pub eval_in_list_typed :
      (x : Value C) (list : Exprs C.scalars Query) (negated : Bool) (child : Child C Query)
      {v : Value C}
      → eval_in_list C x list negated child ≡ ok v
      → has_type ColumnType.bool v ≡ true
  unfolding eval_in_list has_type
  eval_in_list_typed x list negated child {v} h =
      ground (arith, h, in_list_loop_typed x negated child false list {v = v})

  pub eval_between_typed :
      (host : Host C Query) (x lo hi : Value C) (negated : Bool) {v : Value C}
      → eval_between C host x lo hi negated ≡ ok v
      → has_type ColumnType.bool v ≡ true
  unfolding eval_between
  eval_between_typed host x lo hi negated {v} h =
      let (ge, h1, h2) = >>=-eq-ok (apply_binary C host at_least x lo) _ h in
      let (le, h3, h4) = >>=-eq-ok (apply_binary C host at_most x hi) _ h2 in
      let (both, h5, h6) = >>=-eq-ok (lift (Logic.and C ge le)) _ h4 in
      elim (Bool-cases negated) [
        | inl e ↦ not_typed C both (lift-eq-ok (Logic.not C both) (rw e at h6))
        | inr e ↦ rw (← ok-inj (rw e at h6)) (and_typed C ge le (lift-eq-ok (Logic.and C ge le) h5))
      ]

  pub eval_like_typed :
      (host : Host C Query) (s p : Value C) (negated ci : Bool) {v : Value C}
      → eval_like C host s p negated ci ≡ ok v
      → has_type ColumnType.bool v ≡ true
  unfolding eval_like has_type
  eval_like_typed host s p negated ci {v} h = ground (arith, h)

  -- An expression's evaluation gives values of this type only.
  abbrev pub Gives : Child C Query → ColumnType → Expr C.scalars Query → Type 0
  Gives child t e = (v : Value C) → child e ≡ ok v → has_type t v ≡ true

  unfoldable pub GiveWhens : Child C Query → ColumnType → Whens C.scalars Query → Type 0
  GiveWhens child t no_when = Unit
  GiveWhens child t (when cond result whens) = Gives child t result × GiveWhens child t whens

  unfoldable pub GivesElse : Child C Query → ColumnType → MaybeExpr C.scalars Query → Type 0
  GivesElse child t absent = Unit
  GivesElse child t (present e) = Gives child t e

  else_value_typed :
      (child : Child C Query) (t : ColumnType) (otherwise : MaybeExpr C.scalars Query) {v : Value C}
      → GivesElse child t otherwise
      → else_value C child otherwise ≡ ok v
      → has_type t v ≡ true
  unfolding else_value GivesElse has_type
  else_value_typed child t absent {v} f h = ground (arith, h)
  else_value_typed child t (present e) {v} f h = f v h

  searched_case_typed :
      (child : Child C Query) (t : ColumnType) (otherwise : MaybeExpr C.scalars Query)
      (whens : Whens C.scalars Query) {v : Value C}
      → GivesElse child t otherwise
      → GiveWhens child t whens
      → searched_case C child otherwise whens ≡ ok v
      → has_type t v ≡ true
  unfolding searched_case GiveWhens
  searched_case_typed child t otherwise no_when f fs h = else_value_typed child t otherwise f h
  searched_case_typed child t otherwise (when cond result whens) {v} f (g, gs) h =
      let (c, h1, h2) = >>=-eq-ok (child cond) _ h in
      elim (searched-eq-ok C c (child result) (searched_case C child otherwise whens) h2) [
        | inl r ↦ g v r
        | inr r ↦ searched_case_typed child t otherwise whens f gs r
      ]

  simple_case_typed :
      (child : Child C Query) (t : ColumnType) (otherwise : MaybeExpr C.scalars Query)
      (ov : Value C) (whens : Whens C.scalars Query) {v : Value C}
      → GivesElse child t otherwise
      → GiveWhens child t whens
      → simple_case C child otherwise ov whens ≡ ok v
      → has_type t v ≡ true
  unfolding simple_case GiveWhens
  simple_case_typed child t otherwise ov no_when f fs h = else_value_typed child t otherwise f h
  simple_case_typed child t otherwise ov (when val result whens) {v} f (g, gs) h =
      let (vv, h1, h2) = >>=-eq-ok (child val) _ h in
      let (ord, h3, h4) = >>=-eq-ok (lift (compare C ov vv)) _ h2 in
      elim (Bool-cases (is_equal ord)) [
        | inl e ↦ g v (rw e at h4)
        | inr e ↦ simple_case_typed child t otherwise ov whens f gs (rw e at h4)
      ]

  pub eval_case_typed :
      (child : Child C Query) (t : ColumnType) (operand : MaybeExpr C.scalars Query)
      (whens : Whens C.scalars Query) (otherwise : MaybeExpr C.scalars Query) {v : Value C}
      → GivesElse child t otherwise
      → GiveWhens child t whens
      → eval_case C operand whens otherwise child ≡ ok v
      → has_type t v ≡ true
  unfolding eval_case
  eval_case_typed child t absent whens otherwise f fs h =
      searched_case_typed child t otherwise whens f fs h
  eval_case_typed child t (present op) whens otherwise f fs h =
      let (ov, h1, h2) = >>=-eq-ok (child op) _ h in
      simple_case_typed child t otherwise ov whens f fs h2
