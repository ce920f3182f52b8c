-- ===== src/Mvcc/Version.antt =====
-- crates/mvcc/src/version.rs: the keys of tuple versions, a row key and the creating xid, and
-- their values, a header of 17 bytes and the row. `none` from `decode_tuple` means that the fuel of
-- `decode_row` ran out.
pub mod Keys
pub mod Tuples
use crabgresql.Prelude.{
  ℕ, zero, suc, ◌-◌, List, [], ◌∷◌, ◌++◌, Option, some, none, Result, ok, err, ◌>>=◌, ltb, ◌==◌,
  length, take, drop, if◌then◌else◌,
}
use crabgresql.Bytes.{Bytes}
use crabgresql.Bytes.BigEndian.{be_bytes, be_value}
use crabgresql.Kv.Error.{KvError, corrupt_row}
use crabgresql.Kv.Key.{row_key}
use crabgresql.Kv.Rowenc.{Codecs, encode_row, decode_row}
use crabgresql.Pgtypes.Datum.{Scalars, Datum}

unfoldable pub version_key_xid : ℕ → ℕ → ℕ → Bytes
version_key_xid table_id rowid xid = row_key table_id rowid ++ be_bytes 8 xid

unfoldable pub row_prefix_of : Bytes → Result KvError Bytes
row_prefix_of key =
    if ltb (length key) 8
    then err (corrupt_row "version key too short" [])
    else ok (take (length key - 8) key)

unfoldable pub xid_of_key : Bytes → Result KvError ℕ
xid_of_key key =
    if ltb (length key) 8
    then err (corrupt_row "version key too short" [])
    else ok (be_value (drop (length key - 8) key))

abbrev pub t_tuple : ℕ
t_tuple = 1

module _ {S : Scalars} (C : Codecs S) where
  unfoldable pub encode_tuple : ℕ → ℕ → List (Datum S) → Bytes
  encode_tuple xmin xmax row = t_tuple ∷ be_bytes 8 xmin ++ (be_bytes 8 xmax ++ encode_row C row)

  -- The row behind a header.
  with_header :
      ℕ
      → ℕ
      → Option (Result KvError (List (Datum S)))
      → Option (Result KvError (ℕ × ℕ × List (Datum S)))
  with_header xmin xmax (some (ok row)) = some (ok (xmin, xmax, row))
  with_header xmin xmax (some (err e)) = some (err e)
  with_header xmin xmax none = none

  unfoldable pub decode_tuple : Bytes → Option (Result KvError (ℕ × ℕ × List (Datum S)))
  unfolding with_header
  decode_tuple [] = some (err (corrupt_row "bad tuple header" []))
  decode_tuple (tag ∷ bytes) =
      if ltb (length bytes) 16
      then some (err (corrupt_row "bad tuple header" []))
      else if tag == t_tuple
      then with_header (be_value (take 8 bytes)) (be_value (take 8 (drop 8 bytes)))
          (decode_row C (drop 16 bytes))
      else some (err (corrupt_row "bad tuple header" []))
