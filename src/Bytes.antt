-- ===== src/Bytes.antt =====
-- Byte strings (`Vec<u8>`, `&[u8]`) as lists of numbers, and the parts of Rust's standard library
-- that the sources use on them: equality, prefix tests, the lexicographic order of slices.
pub mod Decimal
pub mod Equality
pub mod Order
pub mod BigEndian
use Prim.Native.Char.{code}
use Prim.Native.String.{String}
use crabgresql.Prelude.{
  ℕ, zero, suc, ◌≡◌, refl, Option, some, none, leb, ◌<◌, Bool, true, false, ◌&&◌, List, [], ◌∷◌,
  ltb, ◌==◌, if◌then◌else◌, All,
}

abbrev pub Bytes : Type 0
Bytes = List ℕ

-- Every element fits a `u8`.
abbrev pub AreBytes : Bytes → Type 0
AreBytes bs = All (λ b. b < 256) bs

-- The bytes of an ASCII literal, `str::as_bytes`.
abbrev pub as_bytes : String → Bytes
as_bytes String.[] = []
as_bytes (String.◌∷◌ c s) = code c ∷ as_bytes s

unfoldable pub bytes_eq : Bytes → Bytes → Bool
bytes_eq [] [] = true
bytes_eq [] (y ∷ ys) = false
bytes_eq (x ∷ xs) [] = false
bytes_eq (x ∷ xs) (y ∷ ys) = x == y && bytes_eq xs ys

-- `slice.starts_with(prefix)`, prefix first.
unfoldable pub starts_with : Bytes → Bytes → Bool
starts_with [] ys = true
starts_with (x ∷ xs) [] = false
starts_with (x ∷ xs) (y ∷ ys) = x == y && starts_with xs ys

-- The order of slices of bytes.
unfoldable pub lex_lt : Bytes → Bytes → Bool
lex_lt [] [] = false
lex_lt [] (y ∷ ys) = true
lex_lt (x ∷ xs) [] = false
lex_lt (x ∷ xs) (y ∷ ys) = if ltb x y then true else if ltb y x then false else lex_lt xs ys

-- What may follow inside a sequence of UTF-8: nothing, or a byte of a range and then some
-- continuation bytes.
pub data Expect : Type 0 where
  first : Expect
  next : ℕ → ℕ → ℕ → Expect

abbrev between : ℕ → ℕ → ℕ → Bool
between lo hi b = leb lo b && leb b hi

-- The state after a byte that begins a character; `none` if no character begins so.
after_first : ℕ → Option Expect
after_first b =
    if leb b 0x7f
    then some first
    else if between 0xc2 0xdf b
    then some (next 0x80 0xbf 0)
    else if b == 0xe0
    then some (next 0xa0 0xbf 1)
    else if b == 0xed
    then some (next 0x80 0x9f 1)
    else if between 0xe1 0xef b
    then some (next 0x80 0xbf 1)
    else if b == 0xf0
    then some (next 0x90 0xbf 2)
    else if between 0xf1 0xf3 b
    then some (next 0x80 0xbf 2)
    else if b == 0xf4
    then some (next 0x80 0x8f 2)
    else none

-- The state after a continuation byte.
after_next : ℕ → Expect
after_next zero = first
after_next (suc k) = next 0x80 0xbf k

utf8_from : Expect → Bytes → Bool
utf8_from first [] = true
utf8_from first (b ∷ bs) = elim (after_first b) [ none ↦ false | some s ↦ utf8_from s bs ]
utf8_from (next lo hi k) [] = false
utf8_from (next lo hi k) (b ∷ bs) = between lo hi b && utf8_from (after_next k) bs

-- Whether `String::from_utf8` accepts the bytes.
unfoldable pub valid_utf8 : Bytes → Bool
unfolding utf8_from after_first after_next
valid_utf8 bs = utf8_from first bs

valid_utf8_examples :
    (valid_utf8 (0x68 ∷ 0xc3 ∷ 0xa9 ∷ 0x6c ∷ []) ≡ true)
    × (valid_utf8 (0xc0 ∷ 0x80 ∷ []) ≡ false)
    × (valid_utf8 (0xed ∷ 0xa0 ∷ 0x80 ∷ []) ≡ false)
    × (valid_utf8 (0xf0 ∷ 0x9f ∷ 0x98 ∷ 0x80 ∷ []) ≡ true)
unfolding valid_utf8
valid_utf8_examples = (refl, refl, refl, refl)
