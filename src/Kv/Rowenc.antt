-- ===== src/Kv/Rowenc.antt =====
-- crates/kv/src/rowenc.rs: row values, a version byte and then a tagged field for each column.
-- `decode_row` runs on fuel, one more than the bytes behind the version; `none` means that the fuel
-- ran out. The codecs of numeric, date and time values go through third-party crates
-- (`bigdecimal`, `jiff`) and are parameters.
pub mod Fields
pub mod Rows
use crabgresql.Prelude.{
  ℕ, zero, suc, Bool, not, String, List, [], ◌∷◌, ◌++◌, Option, some, none, Result, ok, err, length,
  ◌==◌, if◌then◌else◌,
}
use crabgresql.Bytes.{Bytes}
use crabgresql.Bytes.BigEndian.{be_bytes}
use crabgresql.Kv.Error.{KvError, corrupt_row}
use crabgresql.Cursor.{Reader, pure, fail, ◌>>=◌, take_u8_or, take_n_or, take_be_or, utf8_or}
use crabgresql.Cursor.Reads.{concat}
use crabgresql.Pgtypes.Interval.{
  i32_bytes, i64_bytes, i32_value, i64_value, interval_to_binary, interval_from_binary,
}
use crabgresql.Pgtypes.Datum.{
  Scalars, Datum, null, bool, int4, int8, text, float8, numeric, date, time, timestamp, timestamptz,
  interval, bytea,
}

-- `pgtypes::numeric::{to_text, parse}` and `pgtypes::datetime::*_{to,from}_binary`; an error is its
-- text.
pub record Codecs (S : Scalars) : Type 0 where
  pub numeric_to_text : S.BigDecimal → Bytes
  pub numeric_parse : Bytes → Option S.BigDecimal
  pub date_to_binary : S.Date → Bytes
  pub date_from_binary : Bytes → Result Bytes S.Date
  pub time_to_binary : S.Time → Bytes
  pub time_from_binary : Bytes → Result Bytes S.Time
  pub timestamp_to_binary : S.DateTime → Bytes
  pub timestamp_from_binary : Bytes → Result Bytes S.DateTime
  pub timestamptz_to_binary : S.Timestamp → Bytes
  pub timestamptz_from_binary : Bytes → Result Bytes S.Timestamp

abbrev pub row_version : ℕ
row_version = 1

-- `u8::from(bool)`.
abbrev u8_of : Bool → ℕ
u8_of b = if b then 1 else 0

pub take_u8 : Reader ℕ
take_u8 = take_u8_or "truncated"

take_n : ℕ → Reader Bytes
take_n = take_n_or "truncated field"

take_be : ℕ → Reader ℕ
take_be = take_be_or "truncated field"

-- A length and then that many bytes.
sized : Bytes → Bytes
sized bs = be_bytes 4 (length bs) ++ bs

take_sized : Reader Bytes
take_sized = do len ← take_be 4; take_n len

-- `map_err(|e| KvError::CorruptRow(format!(...)))`.
checked {ℓ} : {A : Type ℓ} → String → Result Bytes A → Reader A
checked what (ok a) = pure a
checked what (err e) = fail (corrupt_row what e)

parsed {ℓ} : {A : Type ℓ} → Bytes → Option A → Reader A
parsed raw (some a) = pure a
parsed raw none = fail (corrupt_row "invalid numeric {}" raw)

module _ {S : Scalars} (C : Codecs S) where
  pub encode_datum : Datum S → Bytes
  encode_datum null = 0 ∷ []
  encode_datum (bool b) = 1 ∷ u8_of b ∷ []
  encode_datum (int4 n) = 2 ∷ i32_bytes n
  encode_datum (int8 n) = 3 ∷ i64_bytes n
  encode_datum (text s) = 4 ∷ sized s
  encode_datum (float8 f) = 5 ∷ be_bytes 8 f
  encode_datum (numeric d) = 6 ∷ sized (C.numeric_to_text d)
  encode_datum (date d) = 7 ∷ C.date_to_binary d
  encode_datum (time t) = 8 ∷ C.time_to_binary t
  encode_datum (timestamp ts) = 9 ∷ C.timestamp_to_binary ts
  encode_datum (timestamptz ts) = 10 ∷ C.timestamptz_to_binary ts
  encode_datum (interval iv) = 11 ∷ interval_to_binary iv
  encode_datum (bytea b) = 12 ∷ sized b

  unfoldable pub encode_row : List (Datum S) → Bytes
  unfolding encode_datum sized
  encode_row cols = row_version ∷ concat encode_datum cols

  -- The payload behind a tag.
  pub take_payload : ℕ → Reader (Datum S)
  take_payload t =
      if t == 0
      then pure null
      else if t == 1
      then (do b ← take_u8; pure (bool (not (b == 0))))
      else if t == 2
      then (do raw ← take_n 4; pure (int4 (i32_value raw)))
      else if t == 3
      then (do raw ← take_n 8; pure (int8 (i64_value raw)))
      else if t == 4
      then (do raw ← take_sized; s ← utf8_or "text is not valid UTF-8" raw; pure (text s))
      else if t == 5
      then (do f ← take_be 8; pure (float8 f))
      else if t == 6
      then (do
        raw ← take_sized
        s ← utf8_or "numeric text is not valid UTF-8" raw
        d ← parsed s (C.numeric_parse s)
        pure (numeric d))
      else if t == 7
      then (do
        raw ← take_n 4
        d ← checked "corrupt date: {}" (C.date_from_binary raw)
        pure (date d))
      else if t == 8
      then (do
        raw ← take_n 8
        d ← checked "corrupt time: {}" (C.time_from_binary raw)
        pure (time d))
      else if t == 9
      then (do
        raw ← take_n 8
        d ← checked "corrupt timestamp: {}" (C.timestamp_from_binary raw)
        pure (timestamp d))
      else if t == 10
      then (do
        raw ← take_n 8
        d ← checked "corrupt timestamptz: {}" (C.timestamptz_from_binary raw)
        pure (timestamptz d))
      else if t == 11
      then (do
        raw ← take_n 16
        iv ← checked "corrupt interval: {}" (interval_from_binary raw)
        pure (interval iv))
      else if t == 12
      then (do b ← take_sized; pure (bytea b))
      else fail (corrupt_row "unknown field tag {}" (t ∷ []))

  pub take_datum : Reader (Datum S)
  take_datum = do t ← take_u8; take_payload t

  -- The loop `while !cur.is_empty()`, an error ending it.
  push :
      Datum S → Option (Result KvError (List (Datum S))) → Option (Result KvError (List (Datum S)))
  push d (some (ok cols)) = some (ok (d ∷ cols))
  push d (some (err e)) = some (err e)
  push d none = none

  continue :
      Result KvError (Datum S × Bytes)
      → (Bytes → Option (Result KvError (List (Datum S))))
      → Option (Result KvError (List (Datum S)))
  continue (ok (d, rest)) k = push d (k rest)
  continue (err e) k = some (err e)

  take_data : ℕ → Bytes → Option (Result KvError (List (Datum S)))
  take_data zero cur = none
  take_data (suc fuel) [] = some (ok [])
  take_data (suc fuel) (b ∷ bs) = continue (take_datum (b ∷ bs)) (take_data fuel)

  -- The body behind the version byte.
  take_columns : ℕ → Bytes → Option (Result KvError (List (Datum S)))
  take_columns version cur =
      if version == row_version
      then take_data (suc (length cur)) cur
      else some (err (corrupt_row "unknown row version {}" (version ∷ [])))

  pub decode_row : Bytes → Option (Result KvError (List (Datum S)))
  decode_row [] = some (err (corrupt_row "truncated" []))
  decode_row (version ∷ cur) = take_columns version cur
