-- ===== src/Cursor/Shrinks.antt =====
-- Readers never lengthen what is left to read; loops that read until nothing is left rely on it.
use crabgresql.Prelude.{
  ℕ, suc, ◌≤◌, ◌≡◌, Bool, true, false, inl, inr, Result-cases, ok, String, [], ◌∷◌, arith, length,
  length-drop, if◌then◌else◌,
}
use crabgresql.Bytes.{Bytes, valid_utf8}
use crabgresql.Kv.Error.{KvError}
use crabgresql.Cursor.{Reader, pure, fail, ◌>>=◌, take_u8_or, take_n_or, take_be_or, utf8_or}

pub record Shrinks {ℓ} {A : Type ℓ} (r : Reader A) : Type ℓ where
  pub at : (cur : Bytes) {a : A} {rest : Bytes} → r cur ≡ ok (a, rest) → length rest ≤ length cur

module _ {ℓ κ} {A : Type ℓ} {B : Type κ} where
  pub Shrinks-bind :
      (m : Reader A) (f : A → Reader B) → Shrinks m → ((a : A) → Shrinks (f a)) → Shrinks (m >>= f)
  unfolding ◌>>=◌
  Shrinks-bind m f sm sf = record {
    at = λ cur h. elim (Result-cases (m cur)) [
      | inr (e, p) ↦ absurd (ground arith)
      | inl ((a, left), p) ↦ omega (arith, sm.at cur p, (sf a).at left (rw (p, ◌>>=◌) at h))
    ];
  }

module _ {ℓ} {A : Type ℓ} where
  pub Shrinks-pure : (a : A) → Shrinks (pure a)
  unfolding pure
  Shrinks-pure a = record { at = λ cur h. ground arith }

  pub Shrinks-fail : (e : KvError) → Shrinks (fail {A = A} e)
  unfolding fail
  Shrinks-fail e = record { at = λ cur h. absurd (ground arith) }

  pub Shrinks-if :
      (b : Bool) (m n : Reader A) → Shrinks m → Shrinks n → Shrinks (if b then m else n)
  Shrinks-if true m n sm sn = sm
  Shrinks-if false m n sm sn = sn

u8_shorter :
    (text : String) (cur : Bytes) {a : ℕ} {rest : Bytes}
    → take_u8_or text cur ≡ ok (a, rest)
    → suc (length rest) ≡ length cur
unfolding take_u8_or
u8_shorter text [] h = absurd (ground arith)
u8_shorter text (b ∷ bs) h = ground arith

pub Shrinks-u8 : (text : String) → Shrinks (take_u8_or text)
Shrinks-u8 text = record { at = λ cur h. omega (arith, u8_shorter text cur h) }

pub Shrinks-n : (text : String) (n : ℕ) → Shrinks (take_n_or text n)
unfolding take_n_or
Shrinks-n text n = record { at = λ cur h. ground (arith, length-drop n cur) }

pub Shrinks-be : (text : String) (n : ℕ) → Shrinks (take_be_or text n)
unfolding take_be_or
Shrinks-be text n = Shrinks-bind _ _ (Shrinks-n text n) (λ a. Shrinks-pure _)

pub Shrinks-utf8 : (text : String) (bs : Bytes) → Shrinks (utf8_or text bs)
unfolding utf8_or
Shrinks-utf8 text bs = Shrinks-if (valid_utf8 bs) _ _ (Shrinks-pure bs) (Shrinks-fail _)

pub ruleset shrinks_rules = (
  Shrinks-bind, Shrinks-pure, Shrinks-fail, Shrinks-if, Shrinks-u8, Shrinks-n, Shrinks-be,
  Shrinks-utf8,
)
