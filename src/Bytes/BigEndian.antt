-- ===== src/Bytes/BigEndian.antt =====
-- Fixed-width big-endian numbers: `to_be_bytes`, zerocopy's `U32`/`U64` `as_bytes`,
-- `from_be_bytes` and `read_from_prefix`.
use Prim.Native.Nat.{◌≤◌, ◌%◌}
use native.Mathlib.Nat.{div-add-mod', pow-suc, mod-lt, div-lt_iff_lt-mul, mul_comm}
use crabgresql.Prelude.{
  ℕ, zero, suc, ◌+◌, ◌*◌, ◌/◌, ◌^◌, ◌<◌, ◌≡◌, refl, ap, true, false, Option, none, some, List, [],
  ◌∷◌, ◌++◌, inl, inr, arith, tests, Bool-cases, ltb, length, take, drop, if◌then◌else◌, All,
  length-take, take-append-drop, length-append, take-append, drop-append,
}
use crabgresql.Bytes.{Bytes, AreBytes, lex_lt}

-- The `n` bytes of `v`, most significant first.
unfoldable pub be_bytes : ℕ → ℕ → Bytes
be_bytes zero v = []
be_bytes (suc n) v = (v / 256 ^ n) ∷ be_bytes n (v % 256 ^ n)

-- The number that big-endian bytes stand for.
unfoldable pub be_value : Bytes → ℕ
be_value [] = 0
be_value (b ∷ bs) = b * 256 ^ length bs + be_value bs

-- The first `n` bytes of a slice as a number, and the rest; `none` if it is shorter.
unfoldable pub read_be : ℕ → Bytes → Option (ℕ × Bytes)
read_be n bs = if ltb (length bs) n then none else some (be_value (take n bs), drop n bs)

pub length-be_bytes : (n v : ℕ) → length (be_bytes n v) ≡ n
unfolding be_bytes
length-be_bytes zero v = refl
length-be_bytes (suc n) v = ap suc (length-be_bytes n (v % 256 ^ n))

pos_pow : (n : ℕ) → 0 < 256 ^ n
pos_pow zero = omega arith
pos_pow (suc n) = grind (arith, pow-suc, pos_pow n)

mod-pow-lt : (n v : ℕ) → v % 256 ^ n < 256 ^ n
mod-pow-lt n v = mod-lt v (pos_pow n)

div-pow-lt : (n v : ℕ) → v < 256 ^ suc n → v / 256 ^ n < 256
div-pow-lt n v h =
    (div-lt_iff_lt-mul (pos_pow n)).1 (rw (mul_comm 256 (256 ^ n), ← pow-suc 256 n) h)

pub be_bytes-AreBytes : (n v : ℕ) → v < 256 ^ n → AreBytes (be_bytes n v)
unfolding be_bytes
be_bytes-AreBytes zero v h = tt
be_bytes-AreBytes (suc n) v h =
    (div-pow-lt n v h, be_bytes-AreBytes n (v % 256 ^ n) (mod-pow-lt n v))

pub be_value-be_bytes : (n v : ℕ) → v < 256 ^ n → be_value (be_bytes n v) ≡ v
unfolding be_bytes be_value
be_value-be_bytes zero v h = omega arith
be_value-be_bytes (suc n) v h =
    rw (length-be_bytes, be_value-be_bytes n (v % 256 ^ n) (mod-pow-lt n v))
      (div-add-mod' v (256 ^ n))

mul_step : (q q' p : ℕ) → q < q' → q * p + p ≤ q' * p
mul_step q q' p h = grind arith

-- Quotient and remainder by `p` decide the order of two numbers.
ltb-div-mod :
    (p q r q' r' : ℕ)
    → r < p
    → r' < p
    → ltb (q * p + r) (q' * p + r')
      ≡ (if ltb q q' then true else if ltb q' q then false else ltb r r')
ltb-div-mod p q r q' r' h h' = ground (arith, mul_step q q' p, mul_step q' q p)

-- Order of numbers is order of their encodings.
pub lex_lt-be_bytes :
    (n v w : ℕ) → v < 256 ^ n → w < 256 ^ n → lex_lt (be_bytes n v) (be_bytes n w) ≡ ltb v w
unfolding be_bytes lex_lt
lex_lt-be_bytes zero v w hv hw = ground arith
lex_lt-be_bytes (suc n) v w hv hw = cc (
  lex_lt-be_bytes n (v % 256 ^ n) (w % 256 ^ n) (mod-pow-lt n v) (mod-pow-lt n w),
  ltb-div-mod (256 ^ n) (v / 256 ^ n) (v % 256 ^ n) (w / 256 ^ n) (w % 256 ^ n) (mod-pow-lt n v)
      (mod-pow-lt n w),
  div-add-mod' v (256 ^ n),
  div-add-mod' w (256 ^ n),
)

pub read_be-be_bytes :
    (n v : ℕ) (rest : Bytes) → v < 256 ^ n → read_be n (be_bytes n v ++ rest) ≡ some (v, rest)
unfolding read_be
read_be-be_bytes n v rest h = elim (Bool-cases (ltb (length (be_bytes n v ++ rest)) n)) [
  | inl short ↦ absurd (omega (tests, length-append (be_bytes n v) rest, length-be_bytes n v))
  | inr long ↦ rw (
    long,
    take-append (be_bytes n v) rest (length-be_bytes n v),
    drop-append (be_bytes n v) rest (length-be_bytes n v),
    be_value-be_bytes n v h,
  )
]

quotient_unique : (b p r : ℕ) → r < p → (b * p + r) / p ≡ b
quotient_unique b p r h = grind arith

remainder_unique : (b p r : ℕ) → r < p → (b * p + r) % p ≡ r
remainder_unique b p r h = grind arith

pub be_value-lt : (bs : Bytes) → AreBytes bs → be_value bs < 256 ^ length bs
unfolding be_value
be_value-lt [] h = omega arith
be_value-lt (b ∷ bs) h =
    rw (pow-suc 256 (length bs), mul_comm (256 ^ length bs) 256)
      (omega (arith, mul_step b 256 (256 ^ length bs) h.0, be_value-lt bs h.1))

pub be_bytes-be_value : (bs : Bytes) → AreBytes bs → be_bytes (length bs) (be_value bs) ≡ bs
unfolding be_bytes be_value
be_bytes-be_value [] h = refl
be_bytes-be_value (b ∷ bs) h =
    rw
      (
        quotient_unique b (256 ^ length bs) (be_value bs) (be_value-lt bs h.1),
        remainder_unique b (256 ^ length bs) (be_value bs) (be_value-lt bs h.1),
      )
      (ap (λ l. b ∷ l) (be_bytes-be_value bs h.1))

All-take {ℓ κ} : {A : Type ℓ} (P : A → Type κ) (n : ℕ) (xs : List A) → All P xs → All P (take n xs)
All-take P zero xs h = tt
All-take P (suc n) [] h = tt
All-take P (suc n) (x ∷ xs) h = (h.0, All-take P n xs h.1)

-- The bytes read and the bytes left over are the slice.
split_be :
    (n : ℕ) (bs : Bytes)
    → AreBytes bs
    → n ≤ length bs
    → (bs ≡ be_bytes n (be_value (take n bs)) ++ drop n bs) × (be_value (take n bs) < 256 ^ n)
split_be n bs h long =
    let whole = be_bytes-be_value (take n bs) (All-take _ n bs h) in
    let small = be_value-lt (take n bs) (All-take _ n bs h) in
    (
      cc (rw (length-take n bs long) at whole, take-append-drop n bs),
      rw (length-take n bs long) at small,
    )

read_be_parts :
    (n : ℕ) (bs : Bytes) {v : ℕ} {rest : Bytes}
    → read_be n bs ≡ some (v, rest)
    → (n ≤ length bs) × (be_value (take n bs) ≡ v) × (drop n bs ≡ rest)
unfolding read_be
read_be_parts n bs e = ground arith

-- What was read is what stands at the front of the slice.
pub read_be→append :
    (n : ℕ) (bs : Bytes) {v : ℕ} {rest : Bytes}
    → AreBytes bs
    → read_be n bs ≡ some (v, rest)
    → (bs ≡ be_bytes n v ++ rest) × (v < 256 ^ n)
read_be→append n bs h e =
    let (long, value, left) = read_be_parts n bs e in
    let (whole, small) = split_be n bs h long in (cc (whole, value, left), rw value at small)
