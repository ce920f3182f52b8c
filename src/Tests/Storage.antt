-- ===== src/Tests/Storage.antt =====
-- Keys, rows, tuples, schemas and stores at concrete inputs.
use crabgresql.Prelude.{
  ℕ, ◌≡◌, ◌↔◌, refl, true, false, List, [], ◌∷◌, ◌++◌, Option, none, some, Result, ok, err, arith,
  All, filter,
}
use crabgresql.Bytes.{Bytes, bytes_eq, starts_with, lex_lt, as_bytes, valid_utf8}
use crabgresql.Bytes.BigEndian.{be_bytes}
use crabgresql.Kv.Error.{KvError}
use crabgresql.Kv.Key.{row_key, clog_key, clog_prefix, clog_scan_end}
use crabgresql.Kv.Key.Namespaces.{clog, encode_injective}
use crabgresql.Kv.Key.Clog.{clog_scan_window}
use crabgresql.Kv.Map
use crabgresql.Kv.Map.{Entries, IsSorted}
use crabgresql.Kv.Store.{WriteOp, put, delete}
use crabgresql.Kv.MemKv
use crabgresql.Kv.MemKv.{apply_all}
use crabgresql.Kv.MemKv.Laws.{mem_kv, scan_prefix-apply_all}
use crabgresql.Kv.Rowenc.{Codecs, encode_row, decode_row}
use crabgresql.Kv.Rowenc.Rows.{decode_row_total, decode_row-encode_row}
use crabgresql.Kv.Rowenc.Fields.{IsDatum}
use crabgresql.Mvcc.Clog
use crabgresql.Mvcc.Clog.{XidStatus, committed, aborted, put_op, is_terminal}
use crabgresql.Mvcc.Clog.Writes.{get-put_op}
use crabgresql.Mvcc.Version.{version_key_xid, encode_tuple, decode_tuple}
use crabgresql.Mvcc.Version.Keys.{starts_with-version_key_xid}
use crabgresql.Mvcc.Version.Tuples.{decode_tuple-encode_tuple}
use crabgresql.Pgtypes.Datum.{Scalars, Datum, null}
use crabgresql.Pgtypes.ColumnType.{ColumnType}
use crabgresql.Catalog.Serde.{Column, serialize_schema, deserialize_schema}
use crabgresql.Catalog.Serde.Parts.{IsText}
use crabgresql.Catalog.Serde.Schema.{IsSchema, deserialize_schema-serialize_schema}

-- Numbers stand for the values of the third-party crates.
abbrev numbers : Scalars
numbers = record { BigDecimal = ℕ; Date = ℕ; Time = ℕ; DateTime = ℕ; Timestamp = ℕ }

number_of : Bytes → Result Bytes ℕ
number_of [] = err []
number_of (b ∷ bs) = ok b

digit_of : Bytes → Option ℕ
digit_of [] = none
digit_of (b ∷ bs) = some b

abbrev codecs : Codecs numbers
codecs = record {
  numeric_to_text = λ n. n ∷ [];
  numeric_parse = digit_of;
  date_to_binary = λ n. n ∷ 0 ∷ 0 ∷ 0 ∷ [];
  date_from_binary = number_of;
  time_to_binary = λ n. n ∷ 0 ∷ 0 ∷ 0 ∷ 0 ∷ 0 ∷ 0 ∷ 0 ∷ [];
  time_from_binary = number_of;
  timestamp_to_binary = λ n. n ∷ 0 ∷ 0 ∷ 0 ∷ 0 ∷ 0 ∷ 0 ∷ 0 ∷ [];
  timestamp_from_binary = number_of;
  timestamptz_to_binary = λ n. n ∷ 0 ∷ 0 ∷ 0 ∷ 0 ∷ 0 ∷ 0 ∷ 0 ∷ [];
  timestamptz_from_binary = number_of;
}

abbrev row : List (Datum numbers)
row = null ∷ Datum.numeric 65 ∷ Datum.date 66 ∷ Datum.bytea (1 ∷ 2 ∷ []) ∷ []

row-IsDatum : All (IsDatum codecs) row
unfolding digit_of number_of valid_utf8
row-IsDatum = (tt, ((refl, omega arith, refl), ((refl, refl), (omega arith, tt))))

decode_row-encode_row_example : decode_row codecs (encode_row codecs row) ≡ some (ok row)
decode_row-encode_row_example = decode_row-encode_row codecs row row-IsDatum

decode_row_total_example :
    (r : Result KvError (List (Datum numbers))) × (decode_row codecs (1 ∷ 9 ∷ []) ≡ some r)
decode_row_total_example = decode_row_total codecs (1 ∷ 9 ∷ [])

decode_tuple-encode_tuple_example :
    decode_tuple codecs (encode_tuple codecs 3 0 row) ≡ some (ok (3, 0, row))
decode_tuple-encode_tuple_example =
    decode_tuple-encode_tuple codecs 3 0 row (omega arith) (omega arith) row-IsDatum

encode_injective_example : clog 3 ≡ clog 3
encode_injective_example = encode_injective (clog 3) (clog 3) (omega arith) (omega arith) refl

clog_scan_window_example :
    ((lex_lt (clog_key 3) clog_prefix ≡ false) × (lex_lt (clog_key 3) clog_scan_end ≡ true))
    ↔ (starts_with clog_prefix (clog_key 3) ≡ true)
clog_scan_window_example = clog_scan_window (clog_key 3)

abbrev seven : ℕ
seven = 7

abbrev one : ℕ
one = 1

starts_with-version_key_xid_example :
    (starts_with (row_key seven one) (version_key_xid seven 2 3) ≡ true)
    ↔ ((seven ≡ seven) × (one ≡ 2))
starts_with-version_key_xid_example =
    starts_with-version_key_xid seven one seven 2 3 (omega arith) (omega arith) (omega arith)
      (omega arith)

abbrev logged : Entries
logged = (clog_key 3, 1 ∷ []) ∷ []

logged-wrote : MemKv.write_batch [] (put_op 3 committed ∷ []) ≡ ok logged
unfolding MemKv.write_batch MemKv.apply_all MemKv.apply Map.insert put_op Clog.status_bytes
logged-wrote = refl

nothing_at : (k : Bytes) → MemKv.get [] k ≡ ok none
unfolding MemKv.get Map.get
nothing_at k = refl

logged-found : MemKv.get logged (clog_key 3) ≡ ok (some (1 ∷ []))
unfolding MemKv.get Map.get bytes_eq clog_key be_bytes
logged-found = refl

get-put_op_example : Clog.get mem_kv logged 3 ≡ ok committed
get-put_op_example =
    get-put_op mem_kv [] logged 3 committed tt logged-wrote (nothing_at (clog_key 3)) logged-found

abbrev batch : List WriteOp
batch = put (5 ∷ 1 ∷ []) (9 ∷ []) ∷ put (4 ∷ []) (8 ∷ []) ∷ delete (4 ∷ []) ∷ []

scan_prefix-apply_all_example :
    (MemKv.scan_prefix (apply_all batch []) (5 ∷ [])
      ≡ ok (filter (λ e. starts_with (5 ∷ []) e.0) (apply_all batch [])))
    × IsSorted (apply_all batch [])
scan_prefix-apply_all_example = scan_prefix-apply_all batch (5 ∷ [])

abbrev columns : List Column
columns = record { name = as_bytes "id"; ty = ColumnType.int4 } ∷ []

id-IsText : IsText (as_bytes "id")
unfolding valid_utf8
id-IsText = record { utf8 = refl; short = omega arith }

columns-IsSchema : IsSchema 7 columns none
columns-IsSchema = record {
  id = omega arith;
  few = omega arith;
  columns_fit = (record { name = id-IsText; ty = tt }, tt);
  meta_fits = tt;
}

deserialize_schema-serialize_schema_example :
    deserialize_schema (serialize_schema 7 columns none ++ []) ≡ ok (7, columns, none)
deserialize_schema-serialize_schema_example =
    deserialize_schema-serialize_schema 7 columns none [] columns-IsSchema
