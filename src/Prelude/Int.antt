-- ===== src/Prelude/Int.antt =====
-- Signed integers over the native numbers, and Rust's `iN` as two's complement words.
pub mod Checked
use crabgresql.Prelude.{
  ℕ, suc, ◌+◌, ◌-◌, ◌*◌, ◌/◌, ◌%◌, ◌^◌, ◌≤◌, ◌<◌, ◌≡◌, Bool, arith, ltb, leb, if◌then◌else◌,
}

-- `negsuc n` is -(n + 1).
pub data ℤ : Type 0 where
  pos : ℕ → ℤ
  negsuc : ℕ → ℤ

abbrev pub pos_part : ℤ → ℕ
pos_part (pos n) = n
pos_part (negsuc n) = 0

abbrev pub neg_part : ℤ → ℕ
neg_part (pos n) = 0
neg_part (negsuc n) = suc n

-- a - b, as an integer.
abbrev pub sub_ℕ : ℕ → ℕ → ℤ
sub_ℕ a b = if leb b a then pos (a - b) else negsuc (b - a - 1)

infixl 65 ◌+ℤ◌ ◌-ℤ◌
infixl 70 ◌*ℤ◌
infix 50 ◌≤ℤ◌
unfoldable pub ◌+ℤ◌ : ℤ → ℤ → ℤ
a +ℤ b = sub_ℕ (pos_part a + pos_part b) (neg_part a + neg_part b)

unfoldable pub ◌-ℤ◌ : ℤ → ℤ → ℤ
a -ℤ b = sub_ℕ (pos_part a + neg_part b) (neg_part a + pos_part b)

unfoldable pub ◌*ℤ◌ : ℤ → ℤ → ℤ
a *ℤ b =
    sub_ℕ (pos_part a * pos_part b + neg_part a * neg_part b)
      (pos_part a * neg_part b + neg_part a * pos_part b)

abbrev pub ◌≤ℤ◌ : ℤ → ℤ → Type 0
a ≤ℤ b = pos_part a + neg_part b ≤ pos_part b + neg_part a

abbrev pub ltb_ℤ : ℤ → ℤ → Bool
ltb_ℤ a b = ltb (pos_part a + neg_part b) (pos_part b + neg_part a)

-- `-2^(w-1) ≤ a < 2^(w-1)`, with `half` for `2^(w-1)`.
abbrev pub Fits : ℕ → ℤ → Type 0
Fits half (pos n) = n < half
Fits half (negsuc n) = n < half

abbrev pub i32_half : ℕ
i32_half = 2 ^ 31

abbrev pub i64_half : ℕ
i64_half = 2 ^ 63

-- The two's complement word of a signed integer, and the integer of a word.
unfoldable pub to_word : ℕ → ℤ → ℕ
to_word half (pos n) = n
to_word half (negsuc n) = half + half - n - 1

unfoldable pub of_word : ℕ → ℕ → ℤ
of_word half w = if ltb w half then pos w else negsuc (half + half - w - 1)

pub of_word-to_word : (half : ℕ) (a : ℤ) → Fits half a → of_word half (to_word half a) ≡ a
unfolding of_word to_word
of_word-to_word half (pos n) h = ground arith
of_word-to_word half (negsuc n) h = ground arith

pub to_word-lt : (half : ℕ) (a : ℤ) → Fits half a → to_word half a < half + half
unfolding to_word
to_word-lt half (pos n) h = omega arith
to_word-lt half (negsuc n) h = omega arith

-- `Ord::max`, `Ord::min` and `clamp` with the lower bound 0 or more.
unfoldable pub max_ℤ : ℤ → ℤ → ℤ
max_ℤ a b = if ltb_ℤ a b then b else a

unfoldable pub clamp : ℤ → ℤ → ℤ → ℤ
clamp n lo hi = if ltb_ℤ n lo then lo else if ltb_ℤ hi n then hi else n

-- `div_euclid` and `rem_euclid` by a positive number.
unfoldable pub div_euclid : ℤ → ℕ → ℤ
div_euclid (pos a) d = pos (a / d)
div_euclid (negsuc a) d = negsuc (a / d)

unfoldable pub rem_euclid : ℤ → ℕ → ℕ
rem_euclid (pos a) d = a % d
rem_euclid (negsuc a) d = d - 1 - a % d

-- `as i32` and `as i64` of a wider integer.
unfoldable pub wrap : ℕ → ℤ → ℤ
wrap half n = of_word half (rem_euclid n (half + half))
