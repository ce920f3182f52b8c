-- ===== src/Cursor/Reads.antt =====
-- When a reader recovers what a writer wrote: one rule for each way to build a reader.
use crabgresql.Prelude.{
  ℕ, ◌<◌, ◌^◌, ◌≡◌, refl, ◌∙◌, true, inl, inr, Bool-cases, tests, String, List, [], ◌∷◌, ◌++◌, ok,
  ltb, length, append_assoc, length-append, take-append, drop-append, All,
}
use crabgresql.Bytes.{Bytes, valid_utf8}
use crabgresql.Bytes.BigEndian.{be_bytes, length-be_bytes, be_value-be_bytes}
use crabgresql.Cursor.{Reader, pure, ◌>>=◌, take_u8_or, take_n_or, take_be_or, utf8_or, take_many}

-- From these bytes, whatever follows them, `r` reads `a` and stops behind them.
pub record Reads {ℓ} {A : Type ℓ} (r : Reader A) (bs : Bytes) (a : A) : Type ℓ where
  pub at : (rest : Bytes) → r (bs ++ rest) ≡ ok (a, rest)

module _ {ℓ κ} {A : Type ℓ} {B : Type κ} where
  bind-eq :
      (m : Reader A) (f : A → Reader B) (cur : Bytes) {a : A} {rest : Bytes}
      → m cur ≡ ok (a, rest)
      → (m >>= f) cur ≡ f a rest
  unfolding ◌>>=◌
  bind-eq m f cur h = rw (h, ◌>>=◌)

  pub Reads-bind :
      (f : A → Reader B) {m : Reader A} {xs ys : Bytes} {a : A} {b : B}
      → Reads m xs a
      → Reads (f a) ys b
      → Reads (m >>= f) (xs ++ ys) b
  Reads-bind f {m} {xs} {ys} p q = record {
    at = λ rest.
        rw (append_assoc xs ys rest)
          (bind-eq m f (xs ++ (ys ++ rest)) (p.at (ys ++ rest)) ∙ q.at rest);
  }

  -- The last step, which reads no more bytes.
  pub Reads-end :
      (f : A → Reader B) {m : Reader A} {xs : Bytes} {a : A} {b : B}
      → Reads m xs a
      → Reads (f a) [] b
      → Reads (m >>= f) xs b
  Reads-end f {m} {xs} p q = record {
    at = λ rest. bind-eq m f (xs ++ rest) (p.at rest) ∙ q.at rest;
  }

module _ {ℓ} {A : Type ℓ} where
  pub Reads-pure : (a : A) → Reads (pure a) [] a
  unfolding pure
  Reads-pure a = record { at = λ rest. refl }

pub Reads-u8 : (text : String) (b : ℕ) → Reads (take_u8_or text) (b ∷ []) b
unfolding take_u8_or
Reads-u8 text b = record { at = λ rest. refl }

pub Reads-n : (text : String) (n : ℕ) (bs : Bytes) → length bs ≡ n → Reads (take_n_or text n) bs bs
unfolding take_n_or
Reads-n text n bs h = record {
  at = λ rest. elim (Bool-cases (ltb (length (bs ++ rest)) n)) [
    | inl short ↦ absurd (omega (tests, length-append bs rest))
    | inr long ↦ rw (long, take-append bs rest h, drop-append bs rest h)
  ];
}

pub Reads-be : (text : String) (n v : ℕ) → v < 256 ^ n → Reads (take_be_or text n) (be_bytes n v) v
unfolding take_be_or
Reads-be text n v h =
    Reads-end _ (Reads-n text n (be_bytes n v) (length-be_bytes n v))
      (rw (be_value-be_bytes n v h) (Reads-pure v))

pub Reads-utf8 : (text : String) (bs : Bytes) → valid_utf8 bs ≡ true → Reads (utf8_or text bs) [] bs
unfolding utf8_or
Reads-utf8 text bs h = rw h (Reads-pure bs)

-- The bytes of all elements, one after the other.
abbrev pub concat {ℓ} : {A : Type ℓ} → (A → Bytes) → List A → Bytes
concat w [] = []
concat w (a ∷ l) = w a ++ concat w l

pub Reads-many {ℓ κ} :
    {A : Type ℓ} (P : A → Type κ) (r : Reader A) (w : A → Bytes)
    → ((a : A) → P a → Reads r (w a) a)
    → (l : List A) → All P l
    → Reads (take_many (length l) r) (concat w l) l
unfolding take_many
Reads-many P r w each [] h = Reads-pure []
Reads-many P r w each (a ∷ l) h =
    Reads-bind _ (each a h.0) (Reads-end _ (Reads-many P r w each l h.1) (Reads-pure (a ∷ l)))
