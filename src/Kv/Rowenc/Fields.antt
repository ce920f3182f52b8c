-- ===== src/Kv/Rowenc/Fields.antt =====
-- A field decodes to the value that was encoded, and decoding a field consumes bytes.
use crabgresql.Prelude.{
  ℕ, ◌<◌, ◌^◌, ◌≡◌, refl, true, false, String, [], ◌∷◌, Option, some, none, Result, ok, err, length,
}
use crabgresql.Prelude.Int.{Fits, i32_half, i64_half}
use crabgresql.Bytes.{Bytes, valid_utf8}
use crabgresql.Bytes.BigEndian.{be_bytes, length-be_bytes}
use crabgresql.Cursor.Reads.{
  Reads, Reads-bind, Reads-end, Reads-pure, Reads-u8, Reads-n, Reads-be, Reads-utf8,
}
use crabgresql.Cursor.Shrinks.{Shrinks, shrinks_rules, Shrinks-pure, Shrinks-fail}
use crabgresql.Pgtypes.Interval.{
  i32_bytes, i64_bytes, i32_value-i32_bytes, i64_value-i64_bytes, IsInterval,
  length-interval_to_binary, interval_from_binary-interval_to_binary,
}
use crabgresql.Pgtypes.Datum.{
  Scalars, Datum, null, bool, int4, int8, text, float8, numeric, date, time, timestamp, timestamptz,
  interval, bytea,
}
use crabgresql.Kv.Rowenc.{
  Codecs, take_u8, take_n, take_be, sized, take_sized, checked, parsed, encode_datum, take_payload,
  take_datum,
}

-- A text that fits a length prefix.
abbrev pub IsSized : Bytes → Type 0
IsSized bs = length bs < 2 ^ 32

-- The binary form of a value is `n` bytes long and decodes to the value.
abbrev pub RoundTrips {ℓ} : {A : Type ℓ} → ℕ → (A → Bytes) → (Bytes → Result Bytes A) → A → Type ℓ
RoundTrips n to from a = (length (to a) ≡ n) × (from (to a) ≡ ok a)

module _ {S : Scalars} (C : Codecs S) where
  -- A value of its Rust type whose third-party parts survive their codecs.
  abbrev pub IsDatum : Datum S → Type 0
  IsDatum null = Unit
  IsDatum (bool b) = Unit
  IsDatum (int4 n) = Fits i32_half n
  IsDatum (int8 n) = Fits i64_half n
  IsDatum (text s) = (valid_utf8 s ≡ true) × IsSized s
  IsDatum (float8 f) = f < 2 ^ 64
  IsDatum (numeric d) =
      (valid_utf8 (C.numeric_to_text d) ≡ true)
      × IsSized (C.numeric_to_text d)
      × (C.numeric_parse (C.numeric_to_text d) ≡ some d)
  IsDatum (date d) = RoundTrips 4 C.date_to_binary C.date_from_binary d
  IsDatum (time t) = RoundTrips 8 C.time_to_binary C.time_from_binary t
  IsDatum (timestamp t) = RoundTrips 8 C.timestamp_to_binary C.timestamp_from_binary t
  IsDatum (timestamptz t) = RoundTrips 8 C.timestamptz_to_binary C.timestamptz_from_binary t
  IsDatum (interval iv) = IsInterval iv
  IsDatum (bytea b) = IsSized b

Reads-tag : (b : ℕ) → Reads take_u8 (b ∷ []) b
unfolding take_u8
Reads-tag b = Reads-u8 _ b

Reads-fixed : (n : ℕ) (bs : Bytes) → length bs ≡ n → Reads (take_n n) bs bs
unfolding take_n
Reads-fixed n bs h = Reads-n _ n bs h

Reads-word : (n v : ℕ) → v < 256 ^ n → Reads (take_be n) (be_bytes n v) v
unfolding take_be
Reads-word n v h = Reads-be _ n v h

Reads-sized : (bs : Bytes) → IsSized bs → Reads take_sized (sized bs) bs
unfolding take_sized sized
Reads-sized bs h = Reads-bind _ (Reads-word 4 (length bs) h) (Reads-fixed (length bs) bs refl)

Reads-checked {ℓ} :
    {A : Type ℓ} (what : String) (r : Result Bytes A) {a : A}
    → r ≡ ok a
    → Reads (checked what r) [] a
unfolding checked
Reads-checked what r h = rw h (Reads-pure _)

Reads-parsed {ℓ} :
    {A : Type ℓ} (raw : Bytes) (o : Option A) {a : A} → o ≡ some a → Reads (parsed raw o) [] a
unfolding parsed
Reads-parsed raw o h = rw h (Reads-pure _)

module _ {S : Scalars} (C : Codecs S) where
  pub Reads-datum : (d : Datum S) → IsDatum C d → Reads (take_datum C) (encode_datum C d) d
  unfolding take_datum take_payload encode_datum
  Reads-datum null h = Reads-end _ (Reads-tag 0) (Reads-pure null)
  Reads-datum (bool true) h =
      Reads-bind _ (Reads-tag 1) (Reads-end _ (Reads-tag 1) (Reads-pure (bool true)))
  Reads-datum (bool false) h =
      Reads-bind _ (Reads-tag 1) (Reads-end _ (Reads-tag 0) (Reads-pure (bool false)))
  Reads-datum (int4 n) h = Reads-bind _ (Reads-tag 2) (
      Reads-end _ (Reads-fixed 4 (i32_bytes n) (length-be_bytes 4 _))
        (rw (i32_value-i32_bytes n h) (Reads-pure (int4 n))))
  Reads-datum (int8 n) h = Reads-bind _ (Reads-tag 3) (
      Reads-end _ (Reads-fixed 8 (i64_bytes n) (length-be_bytes 8 _))
        (rw (i64_value-i64_bytes n h) (Reads-pure (int8 n))))
  Reads-datum (text s) h =
      Reads-bind _ (Reads-tag 4)
        (Reads-end _ (Reads-sized s h.1) (Reads-end _ (Reads-utf8 _ s h.0) (Reads-pure (text s))))
  Reads-datum (float8 f) h =
      Reads-bind _ (Reads-tag 5) (Reads-end _ (Reads-word 8 f h) (Reads-pure (float8 f)))
  Reads-datum (numeric d) h = Reads-bind _ (Reads-tag 6) (
      Reads-end _ (Reads-sized _ h.1) (
        Reads-end _ (Reads-utf8 _ _ h.0)
          (Reads-end _ (Reads-parsed _ _ h.2) (Reads-pure (numeric d)))))
  Reads-datum (date d) h = Reads-bind _ (Reads-tag 7) (
      Reads-end _ (Reads-fixed 4 _ h.0) (Reads-end _ (Reads-checked _ _ h.1) (Reads-pure (date d))))
  Reads-datum (time d) h = Reads-bind _ (Reads-tag 8) (
      Reads-end _ (Reads-fixed 8 _ h.0) (Reads-end _ (Reads-checked _ _ h.1) (Reads-pure (time d))))
  Reads-datum (timestamp d) h = Reads-bind _ (Reads-tag 9) (
      Reads-end _ (Reads-fixed 8 _ h.0)
        (Reads-end _ (Reads-checked _ _ h.1) (Reads-pure (timestamp d))))
  Reads-datum (timestamptz d) h = Reads-bind _ (Reads-tag 10) (
      Reads-end _ (Reads-fixed 8 _ h.0)
        (Reads-end _ (Reads-checked _ _ h.1) (Reads-pure (timestamptz d))))
  Reads-datum (interval iv) h = Reads-bind _ (Reads-tag 11) (
      Reads-end _ (Reads-fixed 16 _ (length-interval_to_binary iv)) (
        Reads-end _ (Reads-checked _ _ (interval_from_binary-interval_to_binary iv h))
          (Reads-pure (interval iv))))
  Reads-datum (bytea b) h =
      Reads-bind _ (Reads-tag 12) (Reads-end _ (Reads-sized b h) (Reads-pure (bytea b)))

  Shrinks-checked {ℓ} : {A : Type ℓ} (what : String) (r : Result Bytes A) → Shrinks (checked what r)
  unfolding checked
  Shrinks-checked what (ok a) = Shrinks-pure a
  Shrinks-checked what (err e) = Shrinks-fail _

  Shrinks-parsed {ℓ} : {A : Type ℓ} (raw : Bytes) (o : Option A) → Shrinks (parsed raw o)
  unfolding parsed
  Shrinks-parsed raw (some a) = Shrinks-pure a
  Shrinks-parsed raw none = Shrinks-fail _

  Shrinks-sized : Shrinks take_sized
  unfolding take_sized take_be take_n
  Shrinks-sized = search shrinks_rules

  ruleset field_rules = (shrinks_rules, Shrinks-checked, Shrinks-parsed, Shrinks-sized)

  pub Shrinks-payload : (t : ℕ) → Shrinks (take_payload C t)
  unfolding take_payload take_u8 take_n take_be
  Shrinks-payload t = search field_rules depth 20
