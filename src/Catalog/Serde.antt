-- ===== src/Catalog/Serde.antt =====
-- crates/catalog/src/serde.rs: the stored form of table schemas, foreign-data wrappers, foreign
-- servers and user mappings, and the structs of crates/catalog/src/lib.rs that it stores. Strings
-- are their bytes. A writer returns the bytes that the source appends to its buffer.
pub mod Schema
pub mod Objects
pub mod Parts
use crabgresql.Prelude.{
  ℕ, zero, suc, Bool, String, List, [], ◌∷◌, ◌++◌, Option, some, none, Result, ok, err, length,
  ◌==◌, if◌then◌else◌,
}
use crabgresql.Bytes.{Bytes}
use crabgresql.Bytes.BigEndian.{be_bytes}
use crabgresql.Kv.Error.{KvError, corrupt_row}
use crabgresql.Cursor.{
  Reader, pure, fail, ◌>>=◌, take_u8_or, take_n_or, take_be_or, utf8_or, take_many,
}
use crabgresql.Cursor.Reads.{concat}
use crabgresql.Pgtypes.ColumnType.{
  Typmod, ColumnType, bool, int4, int8, text, float8, date, time, timestamp, timestamptz, interval,
  bytea, numeric,
}

pub record Column : Type 0 where
  pub name : Bytes
  pub ty : ColumnType

abbrev pub Options : Type 0
Options = List (Bytes × Bytes)

pub record ForeignTableMeta : Type 0 where
  pub server : Bytes
  pub options : Options

pub record ForeignDataWrapper : Type 0 where
  pub name : Bytes
  pub options : Options

pub record ForeignServer : Type 0 where
  pub name : Bytes
  pub wrapper : Bytes
  pub options : Options

pub record UserMapping : Type 0 where
  pub user : Bytes
  pub server : Bytes
  pub options : Options

abbrev pub schema_version : ℕ
schema_version = 2

pub take_u8 : Reader ℕ
take_u8 = take_u8_or "truncated schema"

pub take_n : ℕ → Reader Bytes
take_n = take_n_or "truncated schema field"

pub take_u16 : Reader ℕ
take_u16 = take_be_or "truncated schema field" 2

pub take_u32 : Reader ℕ
take_u32 = take_be_or "truncated schema field" 4

-- The payload of `numeric`: a byte 1 and the modifier, or a byte 0.
pub write_typmod : Option Typmod → Bytes
write_typmod (some t) = 1 ∷ be_bytes 2 t.precision ++ be_bytes 2 t.scale
write_typmod none = 0 ∷ []

pub write_type : ColumnType → Bytes
write_type bool = 0 ∷ []
write_type int4 = 1 ∷ []
write_type int8 = 2 ∷ []
write_type text = 3 ∷ []
write_type float8 = 4 ∷ []
write_type (numeric tm) = 5 ∷ write_typmod tm
write_type date = 6 ∷ []
write_type time = 7 ∷ 0 ∷ []
write_type timestamp = 8 ∷ 0 ∷ []
write_type timestamptz = 9 ∷ 0 ∷ []
write_type interval = 10 ∷ 0 ∷ []
write_type bytea = 11 ∷ []

pub read_typmod : Reader (Option Typmod)
read_typmod = do
  flag ← take_u8
  if flag == 1
      then (do
        precision ← take_u16
        scale ← take_u16
        pure (some (record { precision = precision; scale = scale })))
      else pure none

-- A type with a reserved precision byte, which must be 0.
pub read_reserved : ColumnType → Reader ColumnType
read_reserved ty = do
  reserved ← take_u8
  if reserved == 0 then pure ty else fail (corrupt_row "unsupported datetime precision" [])

-- The payload behind a tag.
pub read_payload : ℕ → Reader ColumnType
read_payload tag =
    if tag == 0
    then pure bool
    else if tag == 1
    then pure int4
    else if tag == 2
    then pure int8
    else if tag == 3
    then pure text
    else if tag == 4
    then pure float8
    else if tag == 5
    then (do tm ← read_typmod; pure (numeric tm))
    else if tag == 6
    then pure date
    else if tag == 7
    then read_reserved time
    else if tag == 8
    then read_reserved timestamp
    else if tag == 9
    then read_reserved timestamptz
    else if tag == 10
    then read_reserved interval
    else if tag == 11
    then pure bytea
    else fail (corrupt_row "unknown column type tag {}" (tag ∷ []))

pub read_type : Reader ColumnType
read_type = do tag ← take_u8; read_payload tag

pub write_str : Bytes → Bytes
write_str s = be_bytes 4 (length s) ++ s

pub write_option : Bytes × Bytes → Bytes
write_option (k, v) = write_str k ++ write_str v

pub write_options : Options → Bytes
write_options opts = be_bytes 4 (length opts) ++ concat write_option opts

pub read_str : Reader Bytes
read_str = do len ← take_u32; take_n len

pub read_string : Reader Bytes
read_string = do bytes ← read_str; utf8_or "non-UTF-8 string in catalog" bytes

pub read_option : Reader (Bytes × Bytes)
read_option = do k ← read_string; v ← read_string; pure (k, v)

pub read_options : Reader Options
read_options = do n ← take_u32; take_many n read_option

pub write_column : Column → Bytes
write_column c = write_str c.name ++ write_type c.ty

pub read_column : Reader Column
read_column = do name ← read_string; ty ← read_type; pure (record { name = name; ty = ty })

pub write_meta : Option ForeignTableMeta → Bytes
write_meta none = 0 ∷ []
write_meta (some m) = 1 ∷ write_str m.server ++ write_options m.options

pub serialize_schema : ℕ → List Column → Option ForeignTableMeta → Bytes
serialize_schema table_id columns meta =
    schema_version ∷ be_bytes 4 table_id
    ++ (be_bytes 4 (length columns) ++ (concat write_column columns ++ write_meta meta))

pub read_meta : Reader (Option ForeignTableMeta)
read_meta = do
  flag ← take_u8
  if flag == 0
      then pure none
      else if flag == 1
      then (do
        server ← read_string
        options ← read_options
        pure (some (record { server = server; options = options })))
      else fail (corrupt_row "unknown foreign flag {}" (flag ∷ []))

-- The body of `deserialize_schema` behind the version byte.
read_schema : Reader (ℕ × List Column × Option ForeignTableMeta)
read_schema = do
  table_id ← take_u32
  ncols ← take_u32
  columns ← take_many ncols read_column
  foreign ← read_meta
  pure (table_id, columns, foreign)

read_versioned : Reader (ℕ × List Column × Option ForeignTableMeta)
read_versioned = do
  version ← take_u8
  if version == schema_version
      then read_schema
      else fail (corrupt_row "unknown schema version {}" (version ∷ []))

-- The value of a reader; what it leaves over is dropped.
value {ℓ} : {A : Type ℓ} → Result KvError (A × Bytes) → Result KvError A
value (ok (a, rest)) = ok a
value (err e) = err e

pub deserialize_schema : Bytes → Result KvError (ℕ × List Column × Option ForeignTableMeta)
deserialize_schema bytes = value (read_versioned bytes)

pub serialize_fdw : Bytes → Options → Bytes
serialize_fdw name options = write_str name ++ write_options options

read_fdw : Reader ForeignDataWrapper
read_fdw = do
  name ← read_string
  options ← read_options
  pure (record { name = name; options = options })

pub deserialize_fdw : Bytes → Result KvError ForeignDataWrapper
deserialize_fdw bytes = value (read_fdw bytes)

pub serialize_server : Bytes → Bytes → Options → Bytes
serialize_server name wrapper options =
    write_str name ++ (write_str wrapper ++ write_options options)

read_server : Reader ForeignServer
read_server = do
  name ← read_string
  wrapper ← read_string
  options ← read_options
  pure (record { name = name; wrapper = wrapper; options = options })

pub deserialize_server : Bytes → Result KvError ForeignServer
deserialize_server bytes = value (read_server bytes)

pub serialize_user_mapping : Bytes → Bytes → Options → Bytes
serialize_user_mapping user server options =
    write_str user ++ (write_str server ++ write_options options)

read_user_mapping : Reader UserMapping
read_user_mapping = do
  user ← read_string
  server ← read_string
  options ← read_options
  pure (record { user = user; server = server; options = options })

pub deserialize_user_mapping : Bytes → Result KvError UserMapping
deserialize_user_mapping bytes = value (read_user_mapping bytes)
