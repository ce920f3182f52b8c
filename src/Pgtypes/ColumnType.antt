-- ===== src/Pgtypes/ColumnType.antt =====
-- crates/pgtypes/src/datum.rs: the SQL column types, their names, OIDs and sizes, and the modifier
-- `Typmod` of crates/pgtypes/src/numeric.rs.
pub mod Names
use crabgresql.Prelude.{
  ℕ, ◌+◌, Bool, true, false, ◌&&◌, ◌||◌, String, List, [], ◌∷◌, map, Option, some, none, leb,
  if◌then◌else◌,
}
use crabgresql.Prelude.Int.{ℤ, pos, negsuc}
use crabgresql.Bytes.{Bytes, as_bytes, bytes_eq}

pub record Typmod : Type 0 where
  pub precision : ℕ  -- u16
  pub scale : ℕ  -- u16

pub data ColumnType : Type 0 where
  bool int4 int8 text float8 date time timestamp timestamptz interval bytea : ColumnType
  numeric : Option Typmod → ColumnType

-- `str::to_ascii_lowercase`.
unfoldable pub to_ascii_lowercase : Bytes → Bytes
to_ascii_lowercase = map (λ b. if leb b'A' b && leb b b'Z' then b + 32 else b)

-- Whether the text is one of the names of a pattern.
one_of : Bytes → List String → Bool
one_of s [] = false
one_of s (n ∷ ns) = bytes_eq s (as_bytes n) || one_of s ns

-- The `match` on the lower-case name.
from_lower : Bytes → Option ColumnType
from_lower s =
    if one_of s ("int4" ∷ "integer" ∷ "int" ∷ [])
    then some int4
    else if one_of s ("int8" ∷ "bigint" ∷ [])
    then some int8
    else if one_of s ("text" ∷ [])
    then some text
    else if one_of s ("bool" ∷ "boolean" ∷ [])
    then some bool
    else if one_of s ("float8" ∷ "float" ∷ "double precision" ∷ [])
    then some float8
    else if one_of s ("numeric" ∷ "decimal" ∷ [])
    then some (numeric none)
    else if one_of s ("date" ∷ [])
    then some date
    else if one_of s ("time" ∷ "time without time zone" ∷ [])
    then some time
    else if one_of s ("timestamp" ∷ "timestamp without time zone" ∷ [])
    then some timestamp
    else if one_of s ("timestamptz" ∷ "timestamp with time zone" ∷ [])
    then some timestamptz
    else if one_of s ("interval" ∷ [])
    then some interval
    else if one_of s ("bytea" ∷ [])
    then some bytea
    else none

unfoldable pub from_sql_name : Bytes → Option ColumnType
unfolding from_lower one_of
from_sql_name name = from_lower (to_ascii_lowercase name)

unfoldable pub oid : ColumnType → ℕ
oid bool = 16
oid int8 = 20
oid int4 = 23
oid text = 25
oid float8 = 701
oid (numeric _) = 1700
oid date = 1082
oid time = 1083
oid timestamp = 1114
oid timestamptz = 1184
oid interval = 1186
oid bytea = 17

unfoldable pub name : ColumnType → String
name bool = "boolean"
name int8 = "bigint"
name int4 = "integer"
name text = "text"
name float8 = "double precision"
name (numeric _) = "numeric"
name date = "date"
name time = "time without time zone"
name timestamp = "timestamp without time zone"
name timestamptz = "timestamp with time zone"
name interval = "interval"
name bytea = "bytea"

-- pg_type.typlen: -1 for a type of variable length.
unfoldable pub type_size : ColumnType → ℤ
type_size bool = pos 1
type_size int8 = pos 8
type_size int4 = pos 4
type_size text = negsuc 0
type_size float8 = pos 8
type_size (numeric _) = negsuc 0
type_size date = pos 4
type_size time = pos 8
type_size timestamp = pos 8
type_size timestamptz = pos 8
type_size interval = pos 16
type_size bytea = negsuc 0

unfoldable pub is_numeric : ColumnType → Bool
is_numeric (numeric _) = true
is_numeric _ = false
