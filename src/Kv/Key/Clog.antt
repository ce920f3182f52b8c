-- ===== src/Kv/Key/Clog.antt =====
-- The keyspace of the commit-status log, and the window that a recovery scan reads.
use crabgresql.Prelude.{
  ℕ, ◌+◌, ◌<◌, ◌^◌, ◌≡◌, refl, ap, ◌↔◌, [], ◌∷◌, ◌++◌, true, false, some, arith, ltb, length, take,
  drop, take-append, drop-append, take-append-drop, length-append, append-nil, length-drop, ok,
  Result-cases, inl, inr, All-append_right,
}
use crabgresql.Bytes.{Bytes, AreBytes, lex_lt, starts_with, bytes_eq}
use crabgresql.Bytes.Equality.{bytes_eq_refl, bytes_eq→eq}
use crabgresql.Bytes.Order.{lex_lt-append}
use crabgresql.Bytes.BigEndian.{be_bytes, length-be_bytes, lex_lt-be_bytes}
use crabgresql.Kv.Keyenc.{take_u64, take_u64-be_bytes, take_u64→append}
use crabgresql.Kv.Key.{clog_key, clog_prefix, clog_scan_end, clog_xid_of}

pub clog_key_parts : (x : ℕ) → clog_key x ≡ clog_prefix ++ be_bytes 8 x
unfolding clog_key clog_prefix
clog_key_parts x = refl

-- Entries of the log sort by xid.
pub lex_lt-clog_key :
    (x y : ℕ) → x < 2 ^ 64 → y < 2 ^ 64 → lex_lt (clog_key x) (clog_key y) ≡ ltb x y
lex_lt-clog_key x y h h' =
    rw (clog_key_parts x, clog_key_parts y, lex_lt-append, lex_lt-be_bytes 8 x y h h')

-- Between `ps c` and `ps (c + 1)` lie the strings that start with `ps c`.
window_iff :
    (ps : Bytes) (c : ℕ) (k : Bytes)
    → ((lex_lt k (ps ++ c ∷ []) ≡ false) × (lex_lt k (ps ++ (c + 1) ∷ []) ≡ true))
      ↔ (starts_with (ps ++ c ∷ []) k ≡ true)
unfolding lex_lt starts_with
window_iff [] c [] = ground arith
window_iff [] c (k ∷ []) = ground arith
window_iff [] c (k ∷ k' ∷ ks) = ground arith
window_iff (p ∷ ps) c [] = ground arith
window_iff (p ∷ ps) c (k ∷ ks) = ground (arith, window_iff ps c ks)

-- The front of the log's keyspace without its separator.
abbrev clog_front : Bytes
clog_front = be_bytes 4 0 ++ 99 ∷ 108 ∷ 111 ∷ 103 ∷ []

clog_prefix_parts : clog_prefix ≡ clog_front ++ b'/' ∷ []
unfolding clog_prefix be_bytes
clog_prefix_parts = refl

clog_scan_end_parts : clog_scan_end ≡ clog_front ++ (b'/' + 1) ∷ []
unfolding clog_scan_end be_bytes
clog_scan_end_parts = refl

-- The scan over `[clog_prefix, clog_scan_end)` reads exactly the keys with the prefix of the log.
pub clog_scan_window :
    (k : Bytes)
    → ((lex_lt k clog_prefix ≡ false) × (lex_lt k clog_scan_end ≡ true))
      ↔ (starts_with clog_prefix k ≡ true)
clog_scan_window k = rw (clog_scan_end_parts, clog_prefix_parts) (window_iff clog_front b'/' k)

length-clog_prefix : length clog_prefix ≡ 9
unfolding clog_prefix be_bytes
length-clog_prefix = refl

-- A 64-bit xid is read back from its key of the log.
pub clog_xid_of-clog_key : (x : ℕ) → x < 2 ^ 64 → clog_xid_of (clog_key x) ≡ some x
unfolding clog_xid_of
clog_xid_of-clog_key x h = rw clog_key_parts (
    ground (
      arith,
      length-append clog_prefix (be_bytes 8 x),
      length-be_bytes 8 x,
      take-append clog_prefix (be_bytes 8 x) refl,
      drop-append clog_prefix (be_bytes 8 x) refl,
      bytes_eq_refl clog_prefix,
      append-nil (be_bytes 8 x),
      take_u64-be_bytes x [] h,
    ))

-- What a successful decoding found: the length, the prefix, and the number behind it.
record Decoded (k : Bytes) (x : ℕ) : Type 0 where
  rest : Bytes
  long : length k ≡ length clog_prefix + 8
  front : bytes_eq (take (length clog_prefix) k) clog_prefix ≡ true
  number : take_u64 (drop (length clog_prefix) k) ≡ ok (x, rest)

clog_xid_of-Decoded : (k : Bytes) {x : ℕ} → clog_xid_of k ≡ some x → Decoded k x
unfolding clog_xid_of
clog_xid_of-Decoded k e = elim (Result-cases (take_u64 (drop (length clog_prefix) k))) [
  | inr (_, p) ↦ absurd (ground arith)
  | inl ((_, rest), p) ↦ record {
    rest = rest;
    long = ground arith;
    front = ground arith;
    number = ground arith;
  }
]

-- An empty rest follows from the length of the key.
rest_empty : (xs rest : Bytes) → length (xs ++ rest) ≡ length xs → rest ≡ []
rest_empty xs [] h = refl
rest_empty xs (r ∷ rest) h = absurd (omega (arith, length-append xs (r ∷ rest)))

-- The keys that decode to an xid are the log's keys of that xid.
pub clog_xid_of→clog_key :
    (k : Bytes) {x : ℕ} → AreBytes k → clog_xid_of k ≡ some x → k ≡ clog_key x
clog_xid_of→clog_key k {x} h e =
    let d = clog_xid_of-Decoded k e in
    let front = bytes_eq→eq _ _ d.front in
    let whole = take-append-drop (length clog_prefix) k in
    let (number, _) =
      take_u64→append _ (All-append_right _ (take (length clog_prefix) k) _ (rw whole h))
        d.number in
    let none_left : d.rest ≡ [] = rest_empty (be_bytes 8 x) d.rest (
      omega (
        arith,
        length-drop (length clog_prefix) k,
        d.long,
        ap length number,
        length-be_bytes 8 x,
      )) in
    cc (front, whole, number, none_left, append-nil (be_bytes 8 x), clog_key_parts x)
