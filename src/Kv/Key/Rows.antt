-- ===== src/Kv/Key/Rows.antt =====
-- Keys of rows: what they decode to, and how they sort.
use crabgresql.Prelude.{
  ℕ, ◌<◌, ◌≢◌, ◌^◌, ◌≡◌, ◌++◌, some, ok, inl, inr, Result-cases, arith, ltb, append_assoc,
  All-append_right,
}
use crabgresql.Bytes.{Bytes, AreBytes, lex_lt}
use crabgresql.Bytes.Order.{lex_lt-append}
use crabgresql.Bytes.BigEndian.{be_bytes, lex_lt-be_bytes}
use crabgresql.Kv.Keyenc.{
  take_u32, take_u64, take_u32-be_bytes, take_u64-be_bytes, take_u32→append, take_u64→append,
}
use crabgresql.Kv.Key.{row_key, index_primary, table_rowid_of, rowid_of}

pub row_key_parts :
    (t r : ℕ) (rest : Bytes)
    → row_key t r ++ rest ≡ be_bytes 4 t ++ (be_bytes 4 index_primary ++ (be_bytes 8 r ++ rest))
unfolding row_key
row_key_parts t r rest = simp append_assoc

-- The keys of two rows of one table compare as the rows' 64-bit rowids do.
pub lex_lt-row_key :
    (t r r' : ℕ) → r < 2 ^ 64 → r' < 2 ^ 64 → lex_lt (row_key t r) (row_key t r') ≡ ltb r r'
unfolding row_key
lex_lt-row_key t r r' h h' = rw (lex_lt-append, lex_lt-be_bytes 8 r r' h h')

pub rowid_of-row_key :
    (t r : ℕ) (rest : Bytes) → t < 2 ^ 32 → r < 2 ^ 64 → rowid_of t (row_key t r ++ rest) ≡ ok r
unfolding rowid_of
rowid_of-row_key t r rest h h' = rw row_key_parts (
    ground (
      arith,
      take_u32-be_bytes t (be_bytes 4 index_primary ++ (be_bytes 8 r ++ rest)) h,
      take_u32-be_bytes index_primary (be_bytes 8 r ++ rest) (omega arith),
      take_u64-be_bytes r rest h',
    ))

-- A `u32` table id other than 0 and a 64-bit rowid are read back from any key that starts with
-- their row key.
pub table_rowid_of-row_key :
    (t r : ℕ) (rest : Bytes)
    → t < 2 ^ 32
    → t ≢ 0
    → r < 2 ^ 64
    → table_rowid_of (row_key t r ++ rest) ≡ some (t, r)
unfolding table_rowid_of
table_rowid_of-row_key t r rest h n h' = rw row_key_parts (
    ground (
      arith,
      take_u32-be_bytes t (be_bytes 4 index_primary ++ (be_bytes 8 r ++ rest)) h,
      take_u32-be_bytes index_primary (be_bytes 8 r ++ rest) (omega arith),
      take_u64-be_bytes r rest h',
    ))

-- What the three takes of a successful decoding read.
record Takes (key : Bytes) (t r : ℕ) : Type 0 where
  cur : Bytes
  cur' : Bytes
  rest : Bytes
  table : take_u32 key ≡ ok (t, cur)
  index : take_u32 cur ≡ ok (index_primary, cur')
  rowid : take_u64 cur' ≡ ok (r, rest)
  user : t ≢ 0

table_rowid_of-Takes : (key : Bytes) {t r : ℕ} → table_rowid_of key ≡ some (t, r) → Takes key t r
unfolding table_rowid_of
table_rowid_of-Takes key e = elim (Result-cases (take_u32 key)) [
  | inr (_, p) ↦ absurd (ground arith)
  | inl ((_, cur), p) ↦ elim (Result-cases (take_u32 cur)) [
    | inr (_, q) ↦ absurd (ground arith)
    | inl ((_, cur'), q) ↦ elim (Result-cases (take_u64 cur')) [
      | inr (_, s) ↦ absurd (ground arith)
      | inl ((_, rest), s) ↦ record {
        cur = cur;
        cur' = cur';
        rest = rest;
        table = ground arith;
        index = ground arith;
        rowid = ground arith;
        user = ground arith;
      }
    ]
  ]
]

pub table_rowid_of→row_key :
    (key : Bytes) {t r : ℕ}
    → AreBytes key
    → table_rowid_of key ≡ some (t, r)
    → (rest : Bytes) × (key ≡ row_key t r ++ rest) × (t ≢ 0)
table_rowid_of→row_key key {t} {r} h e =
    let k = table_rowid_of-Takes key e in
    let (p, _) = take_u32→append key h k.table in
    let h' = All-append_right _ (be_bytes 4 t) k.cur (rw p at h) in
    let (q, _) = take_u32→append k.cur h' k.index in
    let h'' = All-append_right _ (be_bytes 4 index_primary) k.cur' (rw q at h') in
    let (s, _) = take_u64→append k.cur' h'' k.rowid in
    (k.rest, cc (p, q, s, row_key_parts t r k.rest), k.user)
