-- ===== src/Executor/Eval/Operators.antt =====
-- crates/executor/src/eval.rs: the operators on values already evaluated.
use Prim.Native.Nat.{Ordering, lt, eq, gt}
use crabgresql.Prelude.{
  Bool, true, false, not, ◌&&◌, ◌||◌, ◌++◌, Option, some, none, Result, ok, ◌>>=◌, if◌then◌else◌,
}
use crabgresql.Prelude.Int.{pos}
use crabgresql.Pgtypes.TypeError.{Fault}
use crabgresql.Pgtypes.Datum.{null, bool, int4, text, timestamptz, interval, is_null}
use crabgresql.Pgtypes.Datetime.{neg_interval, timestamptz_plus_interval, timestamptz_diff}
use crabgresql.Pgtypes.Crates.{Crates}
use crabgresql.Pgtypes.Ops.{Value, map_ok}
use crabgresql.Pgtypes.Ops.Operators.{add, sub, mul, div}
use crabgresql.Pgtypes.Ops.Compare.{compare}
use crabgresql.Pgtypes.Ops.Logic
use crabgresql.Pgparser.Ast.{
  UnaryOp, logical_not, neg, BinaryOp, plus, minus, times, over, concat, equal, unequal, less,
  at_most, greater, at_least, both, either,
}
use crabgresql.Executor.Error.{ExecFault}
use crabgresql.Executor.Eval.{lift, Host}

-- Whether the comparison holds; the other operators are no comparisons.
unfoldable pub holds : BinaryOp → Ordering → Bool
holds equal eq = true
holds unequal lt = true
holds unequal gt = true
holds less lt = true
holds at_most lt = true
holds at_most eq = true
holds greater gt = true
holds at_least gt = true
holds at_least eq = true
holds _ _ = false

module _ (C : Crates) where
  unfoldable pub cmp_result : BinaryOp → Option Ordering → Value C
  cmp_result op none = null
  cmp_result op (some o) = bool (holds op o)

  unfoldable pub is_timestamptz : Value C → Bool
  is_timestamptz (timestamptz _) = true
  is_timestamptz _ = false

  unfoldable pub apply_unary : UnaryOp → Value C → Result ExecFault (Value C)
  apply_unary logical_not v = lift (Logic.not C v)
  apply_unary neg (interval i) = lift (map_ok interval (neg_interval i))
  apply_unary neg v = lift (sub C (int4 (pos 0)) v)

module _ (C : Crates) {Query : Type 0} (host : Host C Query) where
  -- `ops::concat`.
  unfoldable pub concat_values : Value C → Value C → Result Fault (Value C)
  concat_values a b =
      if is_null a || is_null b then ok null else ok (text (host.text_of a ++ host.text_of b))

  -- The arms with a `timestamptz` that are defined; `none` falls through.
  unfoldable pub timestamptz_arms : BinaryOp → Value C → Value C → Result Fault (Option (Value C))
  timestamptz_arms plus (timestamptz ts) (interval iv) =
      map_ok (λ t. some (timestamptz t)) (timestamptz_plus_interval C ts iv host.time_zone)
  timestamptz_arms plus (interval iv) (timestamptz ts) =
      map_ok (λ t. some (timestamptz t)) (timestamptz_plus_interval C ts iv host.time_zone)
  timestamptz_arms minus (timestamptz ts) (interval iv) = do
    neg_iv ← neg_interval iv
    map_ok (λ t. some (timestamptz t)) (timestamptz_plus_interval C ts neg_iv host.time_zone)
  timestamptz_arms minus (timestamptz a) (timestamptz b) =
      map_ok (λ iv. some (interval iv)) (timestamptz_diff C a b)
  timestamptz_arms _ _ _ = ok none

  unfoldable pub apply_timestamptz_arith :
      BinaryOp → Value C → Value C → Result Fault (Option (Value C))
  apply_timestamptz_arith op l r =
      if not (is_timestamptz C l) && not (is_timestamptz C r)
      then ok none
      else if is_null l || is_null r
      then ok (some null)
      else timestamptz_arms op l r

  -- The `match` on the operator.
  unfoldable pub apply_plain : BinaryOp → Value C → Value C → Result Fault (Value C)
  apply_plain plus l r = add C l r
  apply_plain minus l r = sub C l r
  apply_plain times l r = mul C l r
  apply_plain over l r = div C l r
  apply_plain both l r = Logic.and C l r
  apply_plain either l r = Logic.or C l r
  apply_plain concat l r = concat_values l r
  apply_plain op l r = do ord ← compare C l r; ok (cmp_result C op ord)

  unfoldable pub is_add_or_sub : BinaryOp → Bool
  is_add_or_sub plus = true
  is_add_or_sub minus = true
  is_add_or_sub _ = false

  unfoldable pub or_plain : BinaryOp → Value C → Value C → Option (Value C) → Result Fault (Value C)
  or_plain op l r (some v) = ok v
  or_plain op l r none = apply_plain op l r

  unfoldable pub apply_binary : BinaryOp → Value C → Value C → Result ExecFault (Value C)
  apply_binary op l r =
      if is_add_or_sub op
      then lift (do early ← apply_timestamptz_arith op l r; or_plain op l r early)
      else lift (apply_plain op l r)
