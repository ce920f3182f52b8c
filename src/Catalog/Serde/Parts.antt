-- ===== src/Catalog/Serde/Parts.antt =====
-- The readers of the parts of stored objects recover what their writers wrote.
use crabgresql.Prelude.{ℕ, ◌<◌, ◌^◌, ◌≡◌, refl, true, [], ◌∷◌, Option, some, none, length, All}
use crabgresql.Bytes.{Bytes, valid_utf8}
use crabgresql.Bytes.BigEndian.{be_bytes}
use crabgresql.Cursor.Reads.{
  Reads, Reads-bind, Reads-end, Reads-pure, Reads-u8, Reads-n, Reads-be, Reads-utf8, Reads-many,
}
use crabgresql.Pgtypes.ColumnType.{
  Typmod, ColumnType, bool, int4, int8, text, float8, date, time, timestamp, timestamptz, interval,
  bytea, numeric,
}
use crabgresql.Catalog.Serde.{
  Column, Options, ForeignTableMeta, take_u8, take_n, take_u16, take_u32, write_typmod, write_type,
  read_typmod, read_reserved, read_payload, read_type, write_str, write_option, write_options,
  read_str, read_string, read_option, read_options, write_column, read_column, write_meta,
  read_meta,
}

-- A Rust string whose length fits a `u32`.
pub record IsText (s : Bytes) : Type 0 where
  pub utf8 : valid_utf8 s ≡ true
  pub short : length s < 2 ^ 32

-- A modifier's fields are `u16`.
abbrev pub IsType : ColumnType → Type 0
IsType (numeric (some t)) = (t.precision < 2 ^ 16) × (t.scale < 2 ^ 16)
IsType _ = Unit

pub record AreOptions (opts : Options) : Type 0 where
  pub few : length opts < 2 ^ 32
  pub texts : All (λ o. IsText o.0 × IsText o.1) opts

pub record IsColumn (c : Column) : Type 0 where
  pub name : IsText c.name
  pub ty : IsType c.ty

abbrev pub IsMeta : Option ForeignTableMeta → Type 0
IsMeta none = Unit
IsMeta (some m) = IsText m.server × AreOptions m.options

pub Reads-tag : (b : ℕ) → Reads take_u8 (b ∷ []) b
unfolding take_u8
Reads-tag b = Reads-u8 _ b

pub Reads-u32 : (v : ℕ) → v < 2 ^ 32 → Reads take_u32 (be_bytes 4 v) v
unfolding take_u32
Reads-u32 v h = Reads-be _ 4 v h

Reads-u16 : (v : ℕ) → v < 2 ^ 16 → Reads take_u16 (be_bytes 2 v) v
unfolding take_u16
Reads-u16 v h = Reads-be _ 2 v h

Reads-str : (s : Bytes) → length s < 2 ^ 32 → Reads read_str (write_str s) s
unfolding read_str write_str take_n
Reads-str s h = Reads-bind _ (Reads-u32 (length s) h) (Reads-n _ (length s) s refl)

pub Reads-string : (s : Bytes) → IsText s → Reads read_string (write_str s) s
unfolding read_string
Reads-string s h = Reads-end _ (Reads-str s h.short) (Reads-utf8 _ s h.utf8)

Reads-typmod : (tm : Option Typmod) → IsType (numeric tm) → Reads read_typmod (write_typmod tm) tm
unfolding read_typmod write_typmod
Reads-typmod none h = Reads-end _ (Reads-tag 0) (Reads-pure none)
Reads-typmod (some t) h = Reads-bind _ (Reads-tag 1) (
    Reads-bind _ (Reads-u16 t.precision h.0)
      (Reads-end _ (Reads-u16 t.scale h.1) (Reads-pure (some t))))

Reads-reserved : (ty : ColumnType) → Reads (read_reserved ty) (0 ∷ []) ty
unfolding read_reserved
Reads-reserved ty = Reads-end _ (Reads-tag 0) (Reads-pure ty)

-- The payload behind the tag of each type.
pub Reads-type : (ty : ColumnType) → IsType ty → Reads read_type (write_type ty) ty
unfolding read_type read_payload write_type
Reads-type bool h = Reads-end _ (Reads-tag 0) (Reads-pure bool)
Reads-type int4 h = Reads-end _ (Reads-tag 1) (Reads-pure int4)
Reads-type int8 h = Reads-end _ (Reads-tag 2) (Reads-pure int8)
Reads-type text h = Reads-end _ (Reads-tag 3) (Reads-pure text)
Reads-type float8 h = Reads-end _ (Reads-tag 4) (Reads-pure float8)
Reads-type (numeric tm) h =
    Reads-bind _ (Reads-tag 5) (Reads-end _ (Reads-typmod tm h) (Reads-pure (numeric tm)))
Reads-type date h = Reads-end _ (Reads-tag 6) (Reads-pure date)
Reads-type time h = Reads-bind _ (Reads-tag 7) (Reads-reserved time)
Reads-type timestamp h = Reads-bind _ (Reads-tag 8) (Reads-reserved timestamp)
Reads-type timestamptz h = Reads-bind _ (Reads-tag 9) (Reads-reserved timestamptz)
Reads-type interval h = Reads-bind _ (Reads-tag 10) (Reads-reserved interval)
Reads-type bytea h = Reads-end _ (Reads-tag 11) (Reads-pure bytea)

Reads-option : (o : Bytes × Bytes) → IsText o.0 × IsText o.1 → Reads read_option (write_option o) o
unfolding read_option write_option
Reads-option (k, v) h =
    Reads-bind _ (Reads-string k h.0) (Reads-end _ (Reads-string v h.1) (Reads-pure (k, v)))

pub Reads-options :
    (opts : Options) → AreOptions opts → Reads read_options (write_options opts) opts
unfolding read_options write_options
Reads-options opts h =
    Reads-bind _ (Reads-u32 (length opts) h.few)
      (Reads-many _ read_option write_option Reads-option opts h.texts)

pub Reads-column : (c : Column) → IsColumn c → Reads read_column (write_column c) c
unfolding read_column write_column
Reads-column c h =
    Reads-bind _ (Reads-string c.name h.name) (Reads-end _ (Reads-type c.ty h.ty) (Reads-pure c))

pub Reads-meta : (m : Option ForeignTableMeta) → IsMeta m → Reads read_meta (write_meta m) m
unfolding read_meta write_meta
Reads-meta none h = Reads-end _ (Reads-tag 0) (Reads-pure none)
Reads-meta (some m) h = Reads-bind _ (Reads-tag 1) (
    Reads-bind _ (Reads-string m.server h.0)
      (Reads-end _ (Reads-options m.options h.1) (Reads-pure (some m))))
