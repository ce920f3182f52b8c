-- ===== src/Pgtypes/Ops/Compare/Order.antt =====
-- The order of floats, and the symmetry of `compare`.
use Prim.Native.Nat.{compare}
use crabgresql.Prelude.{ℕ, ◌+◌, ◌-◌, ◌^◌, ◌<◌, ◌≡◌, ok, arith, ltb, if◌then◌else◌}
use crabgresql.Pgtypes.Float.{is_nan, place, cmp_ℤ, partial_cmp}
use crabgresql.Pgtypes.Ops.Compare.{float_cmp}

-- Where a float stands among the 2^64 floats: below zero, zero, above zero, no number.
unfoldable pub rank : ℕ → ℕ
rank x = if is_nan x then 2 ^ 65 else if ltb x (2 ^ 63) then 2 ^ 64 + x else 2 ^ 64 - (x - 2 ^ 63)

compare-+ : (a b k : ℕ) → compare (a + k) (b + k) ≡ compare a b
compare-+ a b k = ground arith

cmp_ℤ-place :
    (x y : ℕ)
    → x < 2 ^ 64
    → y < 2 ^ 64
    → cmp_ℤ (place x) (place y)
      ≡ compare
          (if ltb x (2 ^ 63) then 2 ^ 64 + x else 2 ^ 64 - (x - 2 ^ 63))
          (if ltb y (2 ^ 63) then 2 ^ 64 + y else 2 ^ 64 - (y - 2 ^ 63))
unfolding cmp_ℤ place
cmp_ℤ-place x y hx hy = ground arith

-- The comparison of floats of 64 bits never fails, and is the comparison of their ranks: a total
-- order in which all NaNs are equal and above every number, and the two zeros are equal.
pub float_cmp-rank :
    (x y : ℕ) → x < 2 ^ 64 → y < 2 ^ 64 → float_cmp x y ≡ ok (compare (rank x) (rank y))
unfolding float_cmp rank partial_cmp
float_cmp-rank x y hx hy = ground (arith, cmp_ℤ-place x y hx hy)
