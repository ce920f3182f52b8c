-- ===== src/Executor/ProcArray/Restart.antt =====
-- Ids across a restart.
use crabgresql.Prelude.{
  ℕ, ◌+◌, ◌<◌, ◌^◌, ◌≡◌, refl, false, [], ◌∷◌, Option, some, ok, max, arith, ltb, length, take,
  >>=-eq-ok,
}
use crabgresql.Bytes.{Bytes}
use crabgresql.Bytes.Equality.{bytes_eq_refl}
use crabgresql.Bytes.BigEndian.{be_bytes, length-be_bytes, be_value-be_bytes}
use crabgresql.Kv.Key.{next_xid_key}
use crabgresql.Kv.Store.{put, Kv, after_batch}
use crabgresql.Executor.ProcArray.{
  durable, Inner, counter_or, register, open_store, begin_write, next_after,
}

-- Below the end of 64 bits the next id is the successor.
pub next_after-small : (xid : ℕ) → xid + 1 < 2 ^ 64 → next_after xid ≡ xid + 1
unfolding next_after
next_after-small xid h = omega arith

take-be_bytes : (n : ℕ) → take 8 (be_bytes 8 n) ≡ be_bytes 8 n
unfolding be_bytes
take-be_bytes n = refl

pub counter_or-be_bytes : (start n : ℕ) → n < 2 ^ 64 → counter_or start (some (be_bytes 8 n)) ≡ ok n
unfolding counter_or
counter_or-be_bytes start n h =
    let long : ltb (length (be_bytes 8 n)) 8 ≡ false = ground (arith, length-be_bytes 8 n) in
    rw (long, take-be_bytes n, be_value-be_bytes 8 n (omega arith)) refl

-- In durable mode, a registry opened on the store that a `begin_write` left starts at the id
-- after the one that was handed out, where the store can be read before and after and that id
-- fits 64 bits.
pub open_store-begin_write :
    (kv : Kv) (s s' : kv.State) (g g' : Inner) (xid : ℕ) {old new : Option Bytes}
    → g.next_xid + 1 < 2 ^ 64
    → begin_write kv durable s g ≡ ok (xid, g', s')
    → kv.get s next_xid_key ≡ ok old
    → kv.get s' next_xid_key ≡ ok new
    → (h : Inner) × (open_store kv s' ≡ ok h) × (h.next_xid ≡ xid + 1) × (g'.next_xid ≡ xid + 1)
unfolding begin_write open_store register after_batch
open_store-begin_write kv s s' g g' xid {old} {new} small began before after =
    let bump = next_after-small g.next_xid small in
    let op = put next_xid_key (be_bytes 8 (next_after g.next_xid)) ∷ [] in
    let (left, wrote, rest) = >>=-eq-ok (kv.write_batch s op) _ began in
    let store : left ≡ s' = cc in
    let issued : g.next_xid ≡ xid = cc in
    let registered : (register g).1 ≡ g' = cc in
    let written : kv.write_batch s op ≡ ok s' = rw (← store) wrote in
    let value : new ≡ some (be_bytes 8 (next_after g.next_xid)) = ground (
      arith,
      kv.get-write_batch s op next_xid_key written before after,
      bytes_eq_refl next_xid_key,
    ) in
    (
      record { next_xid = max (g.next_xid + 1) 1; running = [] },
      rw (after, value, bump, counter_or-be_bytes 1 (g.next_xid + 1) small) refl,
      omega arith,
      rw (← registered) (omega (arith, bump)),
    )
