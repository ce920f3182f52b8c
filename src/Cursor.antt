-- ===== src/Cursor.antt =====
-- Reading through a cursor `&mut &[u8]`: a reader takes the bytes that are left and returns a value
-- with the bytes left after it. The decoders of crates/kv, crates/catalog and crates/cluster are
-- readers; each has its own `take_u8` and `take_n`, which differ in their error texts only.
pub mod Reads
pub mod Shrinks
use crabgresql.Prelude.{
  ℕ, zero, suc, String, List, [], ◌∷◌, Result, ok, err, ltb, length, take, drop, if◌then◌else◌,
}
use crabgresql.Bytes.{Bytes, valid_utf8}
use crabgresql.Bytes.BigEndian.{be_value}
use crabgresql.Kv.Error.{KvError, corrupt_row}

abbrev pub Reader {ℓ} : Type ℓ → Type ℓ
Reader A = Bytes → Result KvError (A × Bytes)

module _ {ℓ} {A : Type ℓ} where
  unfoldable pub pure : A → Reader A
  pure a cur = ok (a, cur)

  unfoldable pub fail : KvError → Reader A
  fail e cur = err e

module _ {ℓ κ} {A : Type ℓ} {B : Type κ} where
  infixl 5 ◌>>=◌
  unfoldable pub ◌>>=◌ : Reader A → (A → Reader B) → Reader B
  ◌>>=◌ m f cur = elim (m cur) [ ok (a, rest) ↦ f a rest | err e ↦ err e ]

-- `cur.split_first()`, with the text of the error for an empty slice.
unfoldable pub take_u8_or : String → Reader ℕ
take_u8_or text [] = err (corrupt_row text [])
take_u8_or text (b ∷ rest) = ok (b, rest)

-- `cur.split_at(n)`, with the text of the error for a slice that is too short.
unfoldable pub take_n_or : String → ℕ → Reader Bytes
take_n_or text n cur =
    if ltb (length cur) n then err (corrupt_row text []) else ok (take n cur, drop n cur)

-- `uN::from_be_bytes(take_n(cur, n)?)`.
unfoldable pub take_be_or : String → ℕ → Reader ℕ
take_be_or text n = do raw ← take_n_or text n; pure (be_value raw)

-- `String::from_utf8(bytes)`, with the text of the error.
unfoldable pub utf8_or : String → Bytes → Reader Bytes
utf8_or text bytes = if valid_utf8 bytes then pure bytes else fail (corrupt_row text [])

-- `for _ in 0..n { out.push(r(cur)?) }`.
unfoldable pub take_many {ℓ} : {A : Type ℓ} → ℕ → Reader A → Reader (List A)
take_many zero r = pure []
take_many (suc n) r = do a ← r; as' ← take_many n r; pure (a ∷ as')
