-- ===== src/Catalog/Serde/Schema.antt =====
-- Round trips of table schemas, and what is rejected.
use crabgresql.Prelude.{
  ℕ, ◌<◌, ◌^◌, ◌≡◌, ◌≢◌, ap, List, [], ◌∷◌, ◌++◌, Option, ok, err, length, arith, All,
}
use crabgresql.Bytes.{Bytes}
use crabgresql.Kv.Error.{corrupt_row}
use crabgresql.Cursor.{fail, ◌>>=◌, take_u8_or}
use crabgresql.Cursor.Reads.{Reads, Reads-bind, Reads-end, Reads-pure, Reads-many}
use crabgresql.Catalog.Serde.{
  Column, ForeignTableMeta, serialize_schema, deserialize_schema, read_versioned, read_schema,
  value, schema_version, take_u8, read_column, write_column,
}
use crabgresql.Catalog.Serde.Parts.{
  IsColumn, IsMeta, Reads-tag, Reads-u32, Reads-column, Reads-meta,
}

-- A schema that the format can hold.
pub record IsSchema (table_id : ℕ) (columns : List Column) (meta : Option ForeignTableMeta)
    : Type 0 where
  pub id : table_id < 2 ^ 32
  pub few : length columns < 2 ^ 32
  pub columns_fit : All IsColumn columns
  pub meta_fits : IsMeta meta

Reads-versioned :
    (table_id : ℕ) (columns : List Column) (meta : Option ForeignTableMeta)
    → IsSchema table_id columns meta
    → Reads read_versioned (serialize_schema table_id columns meta) (table_id, columns, meta)
unfolding read_versioned read_schema serialize_schema
Reads-versioned table_id columns meta h = Reads-bind _ (Reads-tag 2) (
    Reads-bind _ (Reads-u32 table_id h.id) (
      Reads-bind _ (Reads-u32 (length columns) h.few) (
        Reads-bind _
          (Reads-many IsColumn read_column write_column Reads-column columns h.columns_fit)
          (Reads-end _ (Reads-meta meta h.meta_fits) (Reads-pure (table_id, columns, meta))))))

-- A schema that the format can hold decodes to itself from its encoding, whatever bytes follow.
pub deserialize_schema-serialize_schema :
    (table_id : ℕ) (columns : List Column) (meta : Option ForeignTableMeta) (rest : Bytes)
    → IsSchema table_id columns meta
    → deserialize_schema (serialize_schema table_id columns meta ++ rest)
      ≡ ok (table_id, columns, meta)
unfolding deserialize_schema value
deserialize_schema-serialize_schema table_id columns meta rest h =
    ap value ((Reads-versioned table_id columns meta h).at rest)

-- Any other version byte is refused, whatever follows it.
pub deserialize_schema_version :
    (version : ℕ) (rest : Bytes)
    → version ≢ schema_version
    → deserialize_schema (version ∷ rest)
      ≡ err (corrupt_row "unknown schema version {}" (version ∷ []))
unfolding deserialize_schema value read_versioned take_u8 take_u8_or ◌>>=◌ fail
deserialize_schema_version version rest h = ground arith
