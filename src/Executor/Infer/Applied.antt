-- ===== src/Executor/Infer/Applied.antt =====
-- The static types of the operators that the executor applies to values.
use Prim.Native.Nat.{Ordering}
use crabgresql.Prelude.{
  ◌≡◌, refl, true, false, not, ◌||◌, ◌&&◌, Option, some, none, Result, ok, err, arith, ok-inj,
  ◌>>=◌, >>=-eq-ok, Bool-cases, inl, inr,
}
use crabgresql.Prelude.Int.{pos}
use crabgresql.Pgtypes.TypeError
use crabgresql.Pgtypes.TypeError.{Fault}
use crabgresql.Pgtypes.ColumnType.{ColumnType}
use crabgresql.Pgtypes.Datum
use crabgresql.Pgtypes.Datum.{
  Datum, null, bool, int4, int8, text, float8, numeric, date, time, timestamp, timestamptz,
  interval, bytea,
}
use crabgresql.Pgtypes.Datetime.{neg_interval}
use crabgresql.Pgtypes.Crates.{Crates}
use crabgresql.Pgtypes.Ops
use crabgresql.Pgtypes.Ops.{Value, map_ok}
use crabgresql.Pgtypes.Ops.Operators.{sub}
use crabgresql.Pgtypes.Ops.Compare.{compare}
use crabgresql.Pgtypes.Ops.Logic
use crabgresql.Pgtypes.Ops.Temporal
use crabgresql.Pgparser.Ast.{
  neg, BinaryOp, plus, minus, times, over, concat, equal, unequal, less, at_most, greater, at_least,
  both, either,
}
use crabgresql.Executor.Eval.{lift, Host}
use crabgresql.Executor.Eval.Operators.{
  cmp_result, is_timestamptz, apply_unary, concat_values, timestamptz_arms, apply_timestamptz_arith,
  apply_plain, is_add_or_sub, or_plain, apply_binary,
}
use crabgresql.Executor.Infer
use crabgresql.Executor.Infer.{
  datetime_arms, datetime_result_type, result_type, binary_type, concat_type, types_operands,
}
use crabgresql.Executor.Infer.Values.{has_type}
use crabgresql.Executor.Infer.Numbers.{has_type-null, add_typed, sub_typed, mul_typed, div_typed}

pub lift-eq-ok {ℓ} :
    {A : Type ℓ} (r : Result Fault A) {a : A} → lift r ≡ ok a → ◌≡◌ {A = Result Fault A} r (ok a)
unfolding lift
lift-eq-ok (ok b) h = cc
lift-eq-ok (err TypeError.panics) h = absurd cc
lift-eq-ok (err (TypeError.error e)) h = absurd cc

module _ (C : Crates) where
  pub and_typed :
      (a b : Value C) {c : Value C} → Logic.and C a b ≡ ok c → has_type ColumnType.bool c ≡ true
  unfolding Logic.and Logic.as_bool Logic.and3 has_type
  and_typed a b {c} h = ground (arith, h)

  or_typed :
      (a b : Value C) {c : Value C} → Logic.or C a b ≡ ok c → has_type ColumnType.bool c ≡ true
  unfolding Logic.or Logic.as_bool Logic.or3 has_type
  or_typed a b {c} h = ground (arith, h)

  pub not_typed :
      (a : Value C) {c : Value C} → Logic.not C a ≡ ok c → has_type ColumnType.bool c ≡ true
  unfolding Logic.not Logic.as_bool Logic.not3 has_type
  not_typed a {c} h = ground (arith, h)

  cmp_result_typed :
      (op : BinaryOp) (o : Option Ordering) → has_type ColumnType.bool (cmp_result C op o) ≡ true
  unfolding cmp_result has_type
  cmp_result_typed op none = refl
  cmp_result_typed op (some o) = refl

  compared :
      (op : BinaryOp) (a b : Value C) {c : Value C}
      → (compare C a b >>= λ o. ok (cmp_result C op o)) ≡ ok c
      → has_type ColumnType.bool c ≡ true
  compared op a b {c} h =
      let (o, h1, h2) = >>=-eq-ok (compare C a b) (λ o. ok (cmp_result C op o)) h in
      rw (← ok-inj h2) (cmp_result_typed op o)

  minus_typed :
      (t : ColumnType) (v : Value C) {c : Value C}
      → sub C (int4 (pos 0)) v ≡ ok c
      → has_type t v ≡ true
      → has_type t c ≡ true
  unfolding sub Ops.arith Ops.both Ops.int_arith Ops.float_arith Ops.as_i64 Ops.as_f64
      Ops.as_numeric Ops.is_float Ops.is_numeric Ops.is_temporal Temporal.temporal_sub has_type
      Datum.is_null
  minus_typed t v {c} h f = ground arith

  interval_typed :
      (t : ColumnType) (i : Datum.Interval) (r : Result Fault Datum.Interval) {c : Value C}
      → map_ok interval r ≡ ok c
      → has_type {S = C.scalars} t (interval i) ≡ true
      → has_type t c ≡ true
  unfolding has_type
  interval_typed t i (ok j) {c} h f = rw (← ok-inj h) (ground (arith, f))
  interval_typed t i (err e) h f = absurd cc

  -- Negation keeps the type of its operand.
  pub neg_typed :
      (t : ColumnType) (v : Value C) {c : Value C}
      → apply_unary C neg v ≡ ok c
      → has_type t v ≡ true
      → has_type t c ≡ true
  unfolding apply_unary
  neg_typed t (interval i) h f =
      interval_typed t i (neg_interval i) (lift-eq-ok (map_ok interval (neg_interval i)) h) f
  neg_typed t v h f = minus_typed t v (lift-eq-ok (sub C (int4 (pos 0)) v) h) f

module _ (C : Crates) {Query : Type 0} (host : Host C Query) where
  -- Where an operand has a zone.
  timestamptz_arms_typed :
      (l r : ColumnType) (op : BinaryOp) (a b : Value C) {v : Value C}
      → timestamptz_arms C host op a b ≡ ok (some v)
      → has_type l a ≡ true
      → has_type r b ≡ true
      → has_type (result_type op l r) v ≡ true
  unfolding timestamptz_arms has_type result_type datetime_result_type datetime_arms
      Infer.is_temporal
  timestamptz_arms_typed l r plus (timestamptz t) b {v} h f g = ground arith
  timestamptz_arms_typed l r plus (interval i) b {v} h f g = ground arith
  timestamptz_arms_typed l r plus _ b h f g = absurd cc
  timestamptz_arms_typed l r minus (timestamptz t) b {v} h f g = ground arith
  timestamptz_arms_typed l r minus _ b h f g = absurd cc
  timestamptz_arms_typed l r _ a b h f g = absurd cc

  early_typed :
      (l r : ColumnType) (op : BinaryOp) (a b : Value C) {v : Value C}
      → apply_timestamptz_arith C host op a b ≡ ok (some v)
      → has_type l a ≡ true
      → has_type r b ≡ true
      → has_type (result_type op l r) v ≡ true
  unfolding apply_timestamptz_arith
  early_typed l r op a b {v} h f g =
      elim (Bool-cases (not (is_timestamptz C a) && not (is_timestamptz C b))) [
        | inl e ↦ absurd (cc (rw (apply_timestamptz_arith, e) at h))
        | inr e ↦ elim (Bool-cases (Datum.is_null a || Datum.is_null b)) [
          | inl n ↦
              let same : null ≡ v = cc (rw (apply_timestamptz_arith, e, n) at h) in
              rw (← same) (has_type-null C.scalars (result_type op l r))
          | inr n ↦ timestamptz_arms_typed l r op a b (rw (apply_timestamptz_arith, e, n) at h) f g
        ]
      ]

  concat_typed :
      (a b : Value C) {c : Value C}
      → concat_values C host a b ≡ ok c
      → has_type ColumnType.text c ≡ true
  unfolding concat_values has_type
  concat_typed a b {c} h = ground (arith, h)

  concat_type-eq-ok :
      (l r : ColumnType) {t : ColumnType} → concat_type l r ≡ ok t → ColumnType.text ≡ t
  unfolding concat_type
  concat_type-eq-ok l r h = ground (arith, h)

  -- The operators but `+` and `-` of a value with a zone.
  apply_plain_typed :
      (l r : ColumnType) (op : BinaryOp) (a b : Value C) {c : Value C} {t : ColumnType}
      → apply_plain C host op a b ≡ ok c
      → has_type l a ≡ true
      → has_type r b ≡ true
      → binary_type op l r ≡ ok t
      → has_type t c ≡ true
  unfolding apply_plain binary_type
  apply_plain_typed l r plus a b h f g e = rw (← ok-inj e) (add_typed C l r a b h f g)
  apply_plain_typed l r minus a b h f g e = rw (← ok-inj e) (sub_typed C l r a b h f g)
  apply_plain_typed l r times a b h f g e = rw (← ok-inj e) (mul_typed C l r a b h f g)
  apply_plain_typed l r over a b h f g e = rw (← ok-inj e) (div_typed C l r a b h f g)
  apply_plain_typed l r concat a b h f g e = rw (← concat_type-eq-ok l r e) (concat_typed a b h)
  apply_plain_typed l r both a b h f g e = rw (← ok-inj e) (and_typed C a b h)
  apply_plain_typed l r either a b h f g e = rw (← ok-inj e) (or_typed C a b h)
  apply_plain_typed l r equal a b h f g e = rw (← ok-inj e) (compared C equal a b h)
  apply_plain_typed l r unequal a b h f g e = rw (← ok-inj e) (compared C unequal a b h)
  apply_plain_typed l r less a b h f g e = rw (← ok-inj e) (compared C less a b h)
  apply_plain_typed l r at_most a b h f g e = rw (← ok-inj e) (compared C at_most a b h)
  apply_plain_typed l r greater a b h f g e = rw (← ok-inj e) (compared C greater a b h)
  apply_plain_typed l r at_least a b h f g e = rw (← ok-inj e) (compared C at_least a b h)

  or_plain_typed :
      (l r : ColumnType) (op : BinaryOp) (a b : Value C) (early : Option (Value C)) {c : Value C}
      {t : ColumnType}
      → apply_timestamptz_arith C host op a b ≡ ok early
      → or_plain C host op a b early ≡ ok c
      → has_type l a ≡ true
      → has_type r b ≡ true
      → result_type op l r ≡ t
      → binary_type op l r ≡ ok t
      → has_type t c ≡ true
  unfolding or_plain
  or_plain_typed l r op a b (some v) k h f g same e =
      rw (← same, ← ok-inj h) (early_typed l r op a b k f g)
  or_plain_typed l r op a b none k h f g same e = apply_plain_typed l r op a b h f g e

  added :
      (l r : ColumnType) (op : BinaryOp) (a b : Value C) {c : Value C} {t : ColumnType}
      → lift (apply_timestamptz_arith C host op a b >>= or_plain C host op a b) ≡ ok c
      → has_type l a ≡ true
      → has_type r b ≡ true
      → result_type op l r ≡ t
      → binary_type op l r ≡ ok t
      → has_type t c ≡ true
  added l r op a b h f g same e =
      let arms = apply_timestamptz_arith C host op a b in
      let (early, h1, h2) =
        >>=-eq-ok arms (or_plain C host op a b) (lift-eq-ok (arms >>= or_plain C host op a b) h) in
      or_plain_typed l r op a b early h1 h2 f g same e

  -- What an operator returns for operands of two types has the static type of the operator.
  pub apply_binary_typed :
      (l r : ColumnType) (op : BinaryOp) (a b : Value C) {c : Value C} {t : ColumnType}
      → apply_binary C host op a b ≡ ok c
      → has_type l a ≡ true
      → has_type r b ≡ true
      → binary_type op l r ≡ ok t
      → has_type t c ≡ true
  unfolding apply_binary is_add_or_sub binary_type
  apply_binary_typed l r plus a b h f g e = added l r plus a b h f g (ok-inj e) e
  apply_binary_typed l r minus a b h f g e = added l r minus a b h f g (ok-inj e) e
  apply_binary_typed l r op a b h f g e =
      apply_plain_typed l r op a b (lift-eq-ok (apply_plain C host op a b) h) f g e

  -- The operators whose operands have no static type give a Boolean.
  pub apply_binary_bool :
      (op : BinaryOp) (a b : Value C) {c : Value C}
      → types_operands op ≡ false
      → apply_binary C host op a b ≡ ok c
      → has_type ColumnType.bool c ≡ true
  unfolding apply_binary is_add_or_sub types_operands apply_plain
  apply_binary_bool both a b n h = and_typed C a b (lift-eq-ok (Logic.and C a b) h)
  apply_binary_bool either a b n h = or_typed C a b (lift-eq-ok (Logic.or C a b) h)
  apply_binary_bool equal a b n h = compared C equal a b (lift-eq-ok _ h)
  apply_binary_bool unequal a b n h = compared C unequal a b (lift-eq-ok _ h)
  apply_binary_bool less a b n h = compared C less a b (lift-eq-ok _ h)
  apply_binary_bool at_most a b n h = compared C at_most a b (lift-eq-ok _ h)
  apply_binary_bool greater a b n h = compared C greater a b (lift-eq-ok _ h)
  apply_binary_bool at_least a b n h = compared C at_least a b (lift-eq-ok _ h)
  apply_binary_bool _ a b n h = absurd cc
