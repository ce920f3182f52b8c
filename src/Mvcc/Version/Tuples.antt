-- ===== src/Mvcc/Version/Tuples.antt =====
-- The round trip of tuple versions.
use crabgresql.Prelude.{
  ℕ, ◌<◌, ◌^◌, ◌≡◌, List, ◌++◌, some, ok, All, arith, ltb, false, length, take, drop, append_assoc,
  take-append, drop-append, length-append,
}
use crabgresql.Bytes.BigEndian.{be_bytes, be_value-be_bytes, length-be_bytes}
use crabgresql.Kv.Rowenc.{Codecs, encode_row}
use crabgresql.Kv.Rowenc.Fields.{IsDatum}
use crabgresql.Kv.Rowenc.Rows.{decode_row-encode_row}
use crabgresql.Pgtypes.Datum.{Scalars, Datum}
use crabgresql.Bytes.{Bytes}
use crabgresql.Mvcc.Version.{encode_tuple, decode_tuple}

-- The three parts behind the tag.
header_parts :
    (a b c : Bytes)
    → length a ≡ 8
    → length b ≡ 8
    → (take 8 (a ++ (b ++ c)) ≡ a)
      × (take 8 (drop 8 (a ++ (b ++ c))) ≡ b)
      × (drop 16 (a ++ (b ++ c)) ≡ c)
      × (ltb (length (a ++ (b ++ c))) 16 ≡ false)
header_parts a b c la lb = (
  take-append a (b ++ c) la,
  rw (drop-append a (b ++ c) la) (take-append b c lb),
  rw (← append_assoc a b c) (drop-append {n = 16} (a ++ b) c (omega (arith, length-append a b))),
  ground (arith, length-append a (b ++ c), length-append b c),
)

module _ {S : Scalars} (C : Codecs S) where
  -- A tuple with 64-bit ids, and a row of values that their types and codecs can hold, decodes to
  -- its creator, its deleter and its row.
  pub decode_tuple-encode_tuple :
      (xmin xmax : ℕ) (row : List (Datum S))
      → xmin < 2 ^ 64
      → xmax < 2 ^ 64
      → All (IsDatum C) row
      → decode_tuple C (encode_tuple C xmin xmax row) ≡ some (ok (xmin, xmax, row))
  unfolding decode_tuple encode_tuple
  decode_tuple-encode_tuple xmin xmax row hmin hmax h =
      let (a, b, c, long) =
        header_parts (be_bytes 8 xmin) (be_bytes 8 xmax) (encode_row C row) (length-be_bytes 8 xmin)
          (length-be_bytes 8 xmax) in
      rw (
        long,
        a,
        b,
        c,
        be_value-be_bytes 8 xmin hmin,
        be_value-be_bytes 8 xmax hmax,
        decode_row-encode_row C row h,
      )
