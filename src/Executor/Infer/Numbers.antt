-- ===== src/Executor/Infer/Numbers.antt =====
-- The static types of the arithmetic operators, on all operands.
use crabgresql.Prelude.{
  ℕ, ◌≡◌, refl, Bool, true, false, ◌||◌, Option, some, none, Result, ok, err, arith, ok-inj, String,
  Bool-cases, inl, inr, if◌then◌else◌,
}
use crabgresql.Prelude.Int.{ℤ}
use crabgresql.Pgtypes.TypeError.{Fault, error, division_by_zero}
use crabgresql.Pgtypes.Float
use crabgresql.Pgtypes.Numeric
use crabgresql.Pgtypes.ColumnType
use crabgresql.Pgtypes.ColumnType.{ColumnType}
use crabgresql.Pgtypes.Datum
use crabgresql.Pgtypes.Datum.{
  Datum, null, bool, int4, int8, text, float8, numeric, date, time, timestamp, timestamptz,
  interval, bytea,
}
use crabgresql.Pgtypes.Crates.{Crates}
use crabgresql.Pgtypes.Ops
use crabgresql.Pgtypes.Ops.{Value, map_ok}
use crabgresql.Pgtypes.Ops.Operators.{add, sub, mul, div}
use crabgresql.Pgparser.Ast.{BinaryOp, plus, minus, times, over}
use crabgresql.Executor.Infer
use crabgresql.Executor.Infer.{same_type, datetime_result_type, numeric_result_type, result_type}
use crabgresql.Executor.Infer.Values.{
  has_type, temporal_add_typed, temporal_sub_typed, temporal_mul_typed, temporal_div_typed,
}

module _ (C : Crates) (l r : ColumnType) where
  arith_typed :
      (a b : Value C) (i4 i8 : ℤ → ℤ → Option ℤ) (f8 : ℕ → ℕ → ℕ)
      (num : C.scalars.BigDecimal → C.scalars.BigDecimal → Result Fault C.scalars.BigDecimal)
      {c : Value C}
      → Ops.arith C a b i4 i8 f8 num ≡ ok c
      → has_type l a ≡ true
      → has_type r b ≡ true
      → Datum.is_null a ≡ false
      → Datum.is_null b ≡ false
      → has_type (numeric_result_type l r) c ≡ true
  unfolding Ops.arith Ops.both Ops.int_arith Ops.float_arith Ops.as_i64 Ops.as_f64 Ops.as_numeric
      Ops.is_float Ops.is_numeric has_type numeric_result_type same_type ColumnType.is_numeric
      Datum.is_null
  arith_typed (int4 x) b i4 i8 f8 num {c} h f g n m = ground arith
  arith_typed (int8 x) b i4 i8 f8 num {c} h f g n m = ground arith
  arith_typed (float8 x) b i4 i8 f8 num {c} h f g n m = ground arith
  arith_typed (numeric x) b i4 i8 f8 num {c} h f g n m = ground arith
  arith_typed _ b i4 i8 f8 num h f g n m = absurd (ground (arith, h, n))

  -- Operands that are no dates or times are of no such type.
  plain-result_type :
      (op : BinaryOp) (a b : Value C)
      → has_type l a ≡ true
      → has_type r b ≡ true
      → Datum.is_null a ≡ false
      → Datum.is_null b ≡ false
      → (Ops.is_temporal C a || Ops.is_temporal C b) ≡ false
      → result_type op l r ≡ numeric_result_type l r
  unfolding has_type result_type datetime_result_type Infer.is_temporal Ops.is_temporal
      Datum.is_null
  plain-result_type op a b f g n m t = ground arith

or_false : (x y : Bool) → (x || y) ≡ false → (x ≡ false) × (y ≡ false)
or_false x y h = ground (arith, h)

pub has_type-null : (S : Datum.Scalars) (t : ColumnType) → has_type {S = S} t null ≡ true
unfolding has_type
has_type-null S t = refl

module _ (C : Crates) (l r : ColumnType) where
  pub add_typed :
      (a b : Value C) {c : Value C}
      → add C a b ≡ ok c
      → has_type l a ≡ true
      → has_type r b ≡ true
      → has_type (result_type plus l r) c ≡ true
  unfolding add
  add_typed a b {c} h f g = elim (Bool-cases (Datum.is_null a || Datum.is_null b)) [
    | inl e ↦ rw (← ok-inj (rw (add, e) at h)) (has_type-null C.scalars (result_type plus l r))
    | inr e ↦
        let (n, m) = or_false (Datum.is_null a) (Datum.is_null b) e in
        elim (Bool-cases (Ops.is_temporal C a || Ops.is_temporal C b)) [
          | inl t ↦ temporal_add_typed C l r a b (rw (add, e, t) at h) f g
          | inr t ↦
              rw (plain-result_type C l r plus a b f g n m t)
                (arith_typed C l r a b _ _ _ _ (rw (add, e, t) at h) f g n m)
        ]
  ]

  pub sub_typed :
      (a b : Value C) {c : Value C}
      → sub C a b ≡ ok c
      → has_type l a ≡ true
      → has_type r b ≡ true
      → has_type (result_type minus l r) c ≡ true
  unfolding sub
  sub_typed a b {c} h f g = elim (Bool-cases (Datum.is_null a || Datum.is_null b)) [
    | inl e ↦ rw (← ok-inj (rw (sub, e) at h)) (has_type-null C.scalars (result_type minus l r))
    | inr e ↦
        let (n, m) = or_false (Datum.is_null a) (Datum.is_null b) e in
        elim (Bool-cases (Ops.is_temporal C a || Ops.is_temporal C b)) [
          | inl t ↦ temporal_sub_typed C l r a b (rw (sub, e, t) at h) f g
          | inr t ↦
              rw (plain-result_type C l r minus a b f g n m t)
                (arith_typed C l r a b _ _ _ _ (rw (sub, e, t) at h) f g n m)
        ]
  ]

  pub mul_typed :
      (a b : Value C) {c : Value C}
      → mul C a b ≡ ok c
      → has_type l a ≡ true
      → has_type r b ≡ true
      → has_type (result_type times l r) c ≡ true
  unfolding mul
  mul_typed a b {c} h f g = elim (Bool-cases (Datum.is_null a || Datum.is_null b)) [
    | inl e ↦ rw (← ok-inj (rw (mul, e) at h)) (has_type-null C.scalars (result_type times l r))
    | inr e ↦
        let (n, m) = or_false (Datum.is_null a) (Datum.is_null b) e in
        elim (Bool-cases (Ops.is_temporal C a || Ops.is_temporal C b)) [
          | inl t ↦ temporal_mul_typed C l r a b (rw (mul, e, t) at h) f g m
          | inr t ↦
              rw (plain-result_type C l r times a b f g n m t)
                (arith_typed C l r a b _ _ _ _ (rw (mul, e, t) at h) f g n m)
        ]
  ]

  -- Operands with a float, and with a decimal and no float.
  float_result :
      (a b : Value C)
      → has_type l a ≡ true
      → has_type r b ≡ true
      → Datum.is_null a ≡ false
      → Datum.is_null b ≡ false
      → (Ops.is_float C a || Ops.is_float C b) ≡ true
      → numeric_result_type l r ≡ ColumnType.float8
  unfolding has_type numeric_result_type same_type Ops.is_float Datum.is_null
  float_result a b f g n m t = ground arith

  numeric_result :
      (a b : Value C)
      → has_type l a ≡ true
      → has_type r b ≡ true
      → Datum.is_null a ≡ false
      → Datum.is_null b ≡ false
      → (Ops.is_float C a || Ops.is_float C b) ≡ false
      → (Ops.is_numeric C a || Ops.is_numeric C b) ≡ true
      → numeric_result_type l r ≡ ColumnType.numeric none
  unfolding has_type numeric_result_type same_type ColumnType.is_numeric Ops.is_float Ops.is_numeric
      Datum.is_null
  numeric_result a b f g n m t u = ground arith

  -- What two promoted operands give.
  both_typed :
      {A : Type 0} (t : ColumnType) (x y : Option A) (message : String)
      (op : A → A → Result Fault (Value C)) {c : Value C}
      → ((u v : A) (d : Value C) → op u v ≡ ok d → has_type t d ≡ true)
      → Ops.both C x y message op ≡ ok c
      → has_type t c ≡ true
  unfolding Ops.both
  both_typed t (some x) (some y) message op {c} k h = k x y c h
  both_typed t (some x) none message op k h = absurd cc
  both_typed t none y message op k h = absurd cc

  float_div_typed :
      (x y : ℕ) (d : Value C)
      → ◌≡◌ {A = Result Fault (Value C)}
          (if Float.is_zero y
            then err (error division_by_zero)
            else Ops.float_arith C x y C.floats.div)
          (ok d)
      → has_type ColumnType.float8 d ≡ true
  unfolding Ops.float_arith has_type
  float_div_typed x y d h = ground (arith, h)

  numeric_div_typed :
      (x y : C.scalars.BigDecimal) (d : Value C)
      → map_ok numeric (Numeric.div C x y) ≡ ok d
      → has_type (ColumnType.numeric none) d ≡ true
  unfolding has_type
  numeric_div_typed x y d h = ground (arith, h)

  div_numbers :
      (a b : Value C) {c : Value C}
      → div C a b ≡ ok c
      → (Datum.is_null a || Datum.is_null b) ≡ false
      → (Ops.is_temporal C a || Ops.is_temporal C b) ≡ false
      → has_type l a ≡ true
      → has_type r b ≡ true
      → Datum.is_null a ≡ false
      → Datum.is_null b ≡ false
      → has_type (numeric_result_type l r) c ≡ true
  unfolding div
  div_numbers a b {c} h e t f g n m = elim (Bool-cases (Ops.is_float C a || Ops.is_float C b)) [
    | inl u ↦ rw (float_result a b f g n m u) (
        both_typed ColumnType.float8 (Ops.as_f64 C a) (Ops.as_f64 C b) _ _ float_div_typed
          (rw (div, e, t, u) at h))
    | inr u ↦ elim (Bool-cases (Ops.is_numeric C a || Ops.is_numeric C b)) [
      | inl v ↦ rw (numeric_result a b f g n m u v) (
          both_typed (ColumnType.numeric none) (Ops.as_numeric C a) (Ops.as_numeric C b) _ _
            numeric_div_typed (rw (div, e, t, u, v) at h))
      | inr v ↦ elim (Bool-cases (Ops.is_int_zero C b)) [
        | inl z ↦ absurd (cc (rw (div, e, t, u, v, z) at h))
        | inr z ↦ arith_typed C l r a b _ _ _ _ (rw (div, e, t, u, v, z) at h) f g n m
      ]
    ]
  ]

  pub div_typed :
      (a b : Value C) {c : Value C}
      → div C a b ≡ ok c
      → has_type l a ≡ true
      → has_type r b ≡ true
      → has_type (result_type over l r) c ≡ true
  unfolding div
  div_typed a b {c} h f g = elim (Bool-cases (Datum.is_null a || Datum.is_null b)) [
    | inl e ↦ rw (← ok-inj (rw (div, e) at h)) (has_type-null C.scalars (result_type over l r))
    | inr e ↦
        let (n, m) = or_false (Datum.is_null a) (Datum.is_null b) e in
        elim (Bool-cases (Ops.is_temporal C a || Ops.is_temporal C b)) [
          | inl t ↦ temporal_div_typed C l r a b (rw (div, e, t) at h) f g m
          | inr t ↦ rw (plain-result_type C l r over a b f g n m t) (div_numbers a b h e t f g n m)
        ]
  ]
