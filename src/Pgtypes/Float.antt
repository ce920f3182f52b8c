-- ===== src/Pgtypes/Float.antt =====
-- `f64` of Rust's core library on its 64 bits: its classes and its comparison, as IEEE 754 defines
-- them. The arithmetic is a parameter.
use Prim.Native.Nat.{Ordering, compare}
use crabgresql.Prelude.{
  ℕ, ◌+◌, ◌-◌, ◌/◌, ◌%◌, ◌^◌, Bool, not, ◌&&◌, ◌||◌, Option, some, none, ltb, ◌==◌, if◌then◌else◌,
}
use crabgresql.Prelude.Int.{ℤ, pos, negsuc, pos_part, neg_part}

exponent : ℕ → ℕ
exponent x = x / 2 ^ 52 % 2 ^ 11

unfoldable pub is_finite : ℕ → Bool
unfolding exponent
is_finite x = not (exponent x == 2047)

unfoldable pub is_infinite : ℕ → Bool
unfolding exponent
is_infinite x = exponent x == 2047 && x % 2 ^ 52 == 0

unfoldable pub is_nan : ℕ → Bool
unfolding exponent
is_nan x = exponent x == 2047 && not (x % 2 ^ 52 == 0)

-- The place of a float that is no NaN in the order of floats: the magnitude with its sign.
unfoldable pub place : ℕ → ℤ
place x = if ltb x (2 ^ 63) then pos x else if x == 2 ^ 63 then pos 0 else negsuc (x - 2 ^ 63 - 1)

-- `Ord::cmp` of signed integers.
unfoldable pub cmp_ℤ : ℤ → ℤ → Ordering
cmp_ℤ a b = compare (pos_part a + neg_part b) (pos_part b + neg_part a)

unfoldable pub partial_cmp : ℕ → ℕ → Option Ordering
partial_cmp x y = if is_nan x || is_nan y then none else some (cmp_ℤ (place x) (place y))

-- `x == 0.0`.
unfoldable pub is_zero : ℕ → Bool
is_zero x = x == 0 || x == 2 ^ 63

-- The arithmetic: `+ - * /`, `trunc`, `fract`, `round`, `abs`, the conversions from an integer and,
-- saturating, to an `i64`.
pub record FloatOps : Type 0 where
  pub add : ℕ → ℕ → ℕ
  pub sub : ℕ → ℕ → ℕ
  pub mul : ℕ → ℕ → ℕ
  pub div : ℕ → ℕ → ℕ
  pub trunc : ℕ → ℕ
  pub fract : ℕ → ℕ
  pub round : ℕ → ℕ
  pub abs : ℕ → ℕ
  pub of_int : ℤ → ℕ
  pub to_i64 : ℕ → ℤ
