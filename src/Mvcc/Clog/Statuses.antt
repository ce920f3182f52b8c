-- ===== src/Mvcc/Clog/Statuses.antt =====
-- Entries of the log: their encoding, and which of them decide a transaction.
use crabgresql.Prelude.{
  ℕ, ◌<◌, ◌^◌, ◌≡◌, refl, ◌↔◌, ◌⊎◌, true, [], ◌∷◌, ok, arith, take, append-nil, take-append,
}
use crabgresql.Bytes.{Bytes}
use crabgresql.Bytes.BigEndian.{be_bytes, length-be_bytes, be_value-be_bytes}
use crabgresql.Mvcc.Clog.{
  XidStatus, in_progress, committed, aborted, prepared, prepared_of, decode, status_bytes,
  is_terminal,
}

-- A global xid is a `u64`.
abbrev pub IsStatus : XidStatus → Type 0
IsStatus (prepared g) = g < 2 ^ 64
IsStatus _ = Unit

take_all : (g : ℕ) → take 8 (be_bytes 8 g) ≡ be_bytes 8 g
take_all g = rw append-nil at (take-append {n = 8} (be_bytes 8 g) [] (length-be_bytes 8 g))

pub decode-status_bytes : (st : XidStatus) → IsStatus st → decode (status_bytes st) ≡ ok st
unfolding decode status_bytes prepared_of
decode-status_bytes in_progress h = refl
decode-status_bytes committed h = refl
decode-status_bytes aborted h = refl
decode-status_bytes (prepared g) h =
    ground (arith, length-be_bytes 8 g, take_all g, be_value-be_bytes 8 g h)

-- An entry is terminal exactly when it decodes to a decision.
pub is_terminal_iff :
    (v : Bytes) → (is_terminal v ≡ true) ↔ ((decode v ≡ ok committed) ⊎ (decode v ≡ ok aborted))
unfolding is_terminal decode prepared_of
is_terminal_iff [] = ground arith
is_terminal_iff (s ∷ rest) = ground arith
