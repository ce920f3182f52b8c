-- ===== src/Pgtypes/ColumnType/Names.antt =====
-- Every type can be named in SQL by its own name, and OIDs tell types apart.
use crabgresql.Prelude.{
  ℕ, ◌+◌, ◌≡◌, refl, sym, ap, ◌∙◌, [], ◌∷◌, ◌&&◌, some, none, arith, leb, ◌==◌, if◌then◌else◌,
}
use crabgresql.Bytes.{Bytes, as_bytes, bytes_eq}
use crabgresql.Pgtypes.ColumnType.{
  ColumnType, bool, int4, int8, text, float8, date, time, timestamp, timestamptz, interval, bytea,
  numeric, to_ascii_lowercase, from_sql_name, oid, name,
}

-- A type without its modifier.
abbrev pub bare : ColumnType → ColumnType
bare (numeric _) = numeric none
bare ty = ty

-- The SQL name of every type names that type, up to the modifier.
pub from_sql_name-name : (ty : ColumnType) → from_sql_name (as_bytes (name ty)) ≡ some (bare ty)
unfolding from_sql_name name to_ascii_lowercase bytes_eq
from_sql_name-name bool = refl
from_sql_name-name (numeric _) = refl
from_sql_name-name _ = refl

lower_lower :
    (b : ℕ)
    → (let c : ℕ = if leb b'A' b && leb b b'Z' then b + 32 else b in
        (if leb b'A' c && leb c b'Z' then c + 32 else c))
      ≡ (if leb b'A' b && leb b b'Z' then b + 32 else b)
lower_lower b = ground arith

lowercase_idem : (s : Bytes) → to_ascii_lowercase (to_ascii_lowercase s) ≡ to_ascii_lowercase s
unfolding to_ascii_lowercase
lowercase_idem [] = refl
lowercase_idem (b ∷ s) = cc (lower_lower b, lowercase_idem s)

-- The case of a name does not matter.
pub from_sql_name-to_ascii_lowercase :
    (s : Bytes) → from_sql_name (to_ascii_lowercase s) ≡ from_sql_name s
unfolding from_sql_name
from_sql_name-to_ascii_lowercase s = rw lowercase_idem

-- Two types with one OID are the same type up to the modifier.
pub oid_injective : (a b : ColumnType) → oid a ≡ oid b → bare a ≡ bare b
unfolding oid
oid_injective a b h = sym (of_oid-oid a) ∙ ap of_oid h ∙ of_oid-oid b
  where
    of_oid : ℕ → ColumnType
    of_oid n =
        if n == 16
        then bool
        else if n == 20
        then int8
        else if n == 23
        then int4
        else if n == 25
        then text
        else if n == 701
        then float8
        else if n == 1700
        then numeric none
        else if n == 1082
        then date
        else if n == 1083
        then time
        else if n == 1114
        then timestamp
        else if n == 1184
        then timestamptz
        else if n == 1186
        then interval
        else bytea

    of_oid-oid : (c : ColumnType) → of_oid (oid c) ≡ bare c
    of_oid-oid bool = refl
    of_oid-oid (numeric _) = refl
    of_oid-oid _ = refl
