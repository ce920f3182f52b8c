-- ===== src/Kv/Rowenc/Rows.antt =====
-- Whole rows: the round trip, and that decoding ends on any bytes.
use crabgresql.Prelude.{
  ℕ, zero, suc, ◌<◌, ◌≤◌, ◌≡◌, refl, List, [], ◌∷◌, ◌++◌, Option, some, none, Result, ok, err,
  length, arith, All, Result-cases, inl, inr, ap, length-append, Bool-cases, ◌==◌,
}
use crabgresql.Bytes.{Bytes}
use crabgresql.Kv.Error.{KvError, corrupt_row}
use crabgresql.Cursor.{◌>>=◌, take_u8_or}
use crabgresql.Cursor.Reads.{concat}
use crabgresql.Pgtypes.Datum.{Scalars, Datum}
use crabgresql.Kv.Rowenc.{
  Codecs, row_version, take_u8, encode_datum, encode_row, take_datum, push, continue, take_data,
  take_columns, decode_row,
}
use crabgresql.Kv.Rowenc.Fields.{IsDatum, Reads-datum, Shrinks-payload}

module _ {S : Scalars} (C : Codecs S) where
  -- Decoding a field consumes its tag at least.
  take_datum_shorter :
      (b : ℕ) (bs : Bytes) {d : Datum S} {rest : Bytes}
      → take_datum C (b ∷ bs) ≡ ok (d, rest)
      → length rest ≤ length bs
  unfolding take_datum take_u8 take_u8_or ◌>>=◌
  take_datum_shorter b bs h = (Shrinks-payload C b).at bs h

  -- One round of the loop, on a field that decodes.
  take_data_step :
      (fuel b : ℕ) (bs : Bytes) {d : Datum S} {rest : Bytes}
      → take_datum C (b ∷ bs) ≡ ok (d, rest)
      → take_data C (suc fuel) (b ∷ bs) ≡ push C d (take_data C fuel rest)
  unfolding take_data continue
  take_data_step fuel b bs h = rw (h, continue)

  push_total :
      (d : Datum S) (o : Option (Result KvError (List (Datum S))))
      → (r : Result KvError (List (Datum S))) × (o ≡ some r)
      → (r : Result KvError (List (Datum S))) × (push C d o ≡ some r)
  unfolding push
  push_total d none (r, h) = absurd (ground arith)
  push_total d (some (ok cols)) h = (ok (d ∷ cols), refl)
  push_total d (some (err e)) h = (err e, refl)

  take_data_total :
      (fuel : ℕ) (cur : Bytes)
      → length cur < fuel
      → (r : Result KvError (List (Datum S))) × (take_data C fuel cur ≡ some r)
  unfolding take_data continue
  take_data_total zero cur h = absurd (omega arith)
  take_data_total (suc fuel) [] h = (ok [], refl)
  take_data_total (suc fuel) (b ∷ bs) h = elim (Result-cases (take_datum C (b ∷ bs))) [
    | inr (e, p) ↦ (err e, rw p refl)
    | inl ((d, rest), p) ↦ rw (take_data_step fuel b bs p) (
        push_total d (take_data C fuel rest)
          (take_data_total fuel rest (omega (arith, take_datum_shorter b bs p))))
  ]

  -- Decoding ends on any bytes: with a row or with an error.
  pub decode_row_total :
      (bytes : Bytes) → (r : Result KvError (List (Datum S))) × (decode_row C bytes ≡ some r)
  unfolding decode_row take_columns
  decode_row_total [] = (_, refl)
  decode_row_total (version ∷ cur) = elim (Bool-cases (version == row_version)) [
    | inl known ↦ rw known (take_data_total (suc (length cur)) cur (omega arith))
    | inr unknown ↦ (err (corrupt_row "unknown row version {}" (version ∷ [])), rw unknown refl)
  ]

  encode_datum_cons : (d : Datum S) → (b : ℕ) × (bs : Bytes) × (encode_datum C d ≡ b ∷ bs)
  unfolding encode_datum
  encode_datum_cons Datum.null = (_, _, refl)
  encode_datum_cons (Datum.bool b) = (_, _, refl)
  encode_datum_cons _ = (_, _, refl)

  -- The loop reads an encoded field and goes on behind it.
  take_data-encode_datum :
      (fuel : ℕ) (d : Datum S) (rest : Bytes)
      → IsDatum C d
      → take_data C (suc fuel) (encode_datum C d ++ rest) ≡ push C d (take_data C fuel rest)
  take_data-encode_datum fuel d rest h =
      let (b, bs, e) = encode_datum_cons d in
      rw e (take_data_step fuel b (bs ++ rest) (rw e at ((Reads-datum C d h).at rest)))

  take_data-concat :
      (fuel : ℕ) (cols : List (Datum S))
      → All (IsDatum C) cols
      → length (concat (encode_datum C) cols) < fuel
      → take_data C fuel (concat (encode_datum C) cols) ≡ some (ok cols)
  unfolding take_data push
  take_data-concat zero cols h f = absurd (omega arith)
  take_data-concat (suc fuel) [] h f = refl
  take_data-concat (suc fuel) (d ∷ cols) h f =
      let (b, bs, e) = encode_datum_cons d in
      rw (
        take_data-encode_datum fuel d (concat (encode_datum C) cols) h.0,
        take_data-concat fuel cols h.1 (
            omega (
              arith,
              length-append (encode_datum C d) (concat (encode_datum C) cols),
              ap length e,
            )),
      )

  -- A row of values that their types and codecs can hold decodes to itself from its encoding.
  pub decode_row-encode_row :
      (cols : List (Datum S))
      → All (IsDatum C) cols
      → decode_row C (encode_row C cols) ≡ some (ok cols)
  unfolding decode_row encode_row take_columns
  decode_row-encode_row cols h =
      take_data-concat (suc (length (concat (encode_datum C) cols))) cols h (omega arith)
