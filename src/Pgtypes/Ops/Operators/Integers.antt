-- ===== src/Pgtypes/Ops/Operators/Integers.antt =====
-- The operators on two integers, of one width or of two.
use crabgresql.Prelude.{ℕ, ◌≡◌, Result, ok, err, arith, if◌then◌else◌}
use crabgresql.Prelude.Int.{ℤ, ◌+ℤ◌, ◌-ℤ◌, ◌*ℤ◌, i32_half, i64_half}
use crabgresql.Prelude.Int.Checked
use crabgresql.Prelude.Int.Checked.{
  fits, checked, checked_add, checked_sub, checked_mul, checked_div, quot, quot-rem, fits_lem,
}
use crabgresql.Pgtypes.TypeError.{Fault, error, overflow, division_by_zero}
use crabgresql.Pgtypes.Datum.{int4, int8, is_null}
use crabgresql.Pgtypes.Crates.{Crates}
use crabgresql.Pgtypes.Ops
use crabgresql.Pgtypes.Ops.{
  Value, map_ok, as_i64, as_f64, as_numeric, is_float, is_numeric, is_temporal, is_int_zero, both,
  int_arith,
}
use crabgresql.Pgtypes.Ops.Operators.{add, sub, mul, div, int_rem, rem}

-- The width of an integer type.
pub data Width : Type 0 where
  narrow wide : Width

unfoldable pub half : Width → ℕ
half narrow = i32_half
half wide = i64_half

-- Two widths make the wider.
unfoldable pub join : Width → Width → Width
join narrow narrow = narrow
join _ _ = wide

module _ (C : Crates) where
  unfoldable pub int : Width → ℤ → Value C
  int narrow n = int4 n
  int wide n = int8 n

  -- The result in the given width, or an overflow.
  unfoldable pub in_range : Width → ℤ → Result Fault (Value C)
  in_range w n = if fits (half w) n then ok (int w n) else err (error overflow)

  -- On integers of any two widths `+`, `-` and `*` return the exact result in the wider of the
  -- widths where it is in range of that width, and an overflow where it is not.
  pub arithmetic-Exact :
      (v w : Width) (x y : ℤ)
      → (add C (int v x) (int w y) ≡ in_range (join v w) (x +ℤ y))
        × (sub C (int v x) (int w y) ≡ in_range (join v w) (x -ℤ y))
        × (mul C (int v x) (int w y) ≡ in_range (join v w) (x *ℤ y))
  unfolding add sub mul Ops.arith int_arith both in_range int half join as_i64 checked_add
      checked_sub checked_mul checked is_null is_float is_numeric is_temporal
  arithmetic-Exact narrow narrow x y = (ground arith, ground arith, ground arith)
  arithmetic-Exact narrow wide x y = (ground arith, ground arith, ground arith)
  arithmetic-Exact wide narrow x y = (ground arith, ground arith, ground arith)
  arithmetic-Exact wide wide x y = (ground arith, ground arith, ground arith)

  -- On integers of any two widths `/` returns the quotient truncated toward zero and `mod` the rest
  -- of it: a divisor of zero is an error of both, a quotient out of range an overflow of `/`, and
  -- the remainder never overflows.
  pub division-Exact :
      (v w : Width) (x y : ℤ)
      → (div C (int v x) (int w y) ≡ (
          if Checked.is_zero y
          then err (error division_by_zero)
          else in_range (join v w) (quot x y)))
        × (rem C (int v x) (int w y) ≡ (
            if Checked.is_zero y
            then err (error division_by_zero)
            else ok (int (join v w) (Checked.rem x y))))
  unfolding div rem Ops.arith int_arith int_rem both in_range int half join as_i64 checked_div
      checked is_null is_float is_numeric is_temporal is_int_zero
  division-Exact narrow narrow x y = (ground arith, ground arith)
  division-Exact narrow wide x y = (ground arith, ground arith)
  division-Exact wide narrow x y = (ground arith, ground arith)
  division-Exact wide wide x y = (ground arith, ground arith)
