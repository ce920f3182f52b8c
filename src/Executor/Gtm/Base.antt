-- ===== src/Executor/Gtm/Base.antt =====
-- Global ids across restarts and changes of the leader.
use crabgresql.Prelude.{◌+◌, ◌≤◌, ◌<◌, ◌^◌, ◌≡◌, refl, [], ◌∷◌, Option, some, ok, max, arith}
use crabgresql.Bytes.{Bytes}
use crabgresql.Bytes.Equality.{bytes_eq_refl}
use crabgresql.Bytes.BigEndian.{be_bytes}
use crabgresql.Kv.Key.{meta_next_global_xid_key}
use crabgresql.Kv.Store.{put, Kv, after_batch}
use crabgresql.Executor.ProcArray.Restart.{counter_or-be_bytes, next_after-small}
use crabgresql.Executor.ProcArray.{next_after}
use crabgresql.Executor.Gtm.{
  Inner, global_xid_base, begin_global, next_global_xid_op, open_store, read_next_global,
  reseed_from_applied,
}

-- A manager whose ids lie in the upper half, after an allocation: the id is in that half, and when the
-- batch with the counter's operation is applied, a manager opened on the store, or one that is
-- reseeded from it, allocates above that id.
pub begin_global-restart :
    (kv : Kv) (s s' : kv.State) (g other : Inner) {old new : Option Bytes}
    → global_xid_base ≤ g.next_global
    → g.next_global + 1 < 2 ^ 64
    → kv.write_batch s (next_global_xid_op (begin_global g).1 ∷ []) ≡ ok s'
    → kv.get s meta_next_global_xid_key ≡ ok old
    → kv.get s' meta_next_global_xid_key ≡ ok new
    → (global_xid_base ≤ (begin_global g).0)
      × ((h : Inner) × (open_store kv s' ≡ ok h) × ((begin_global g).0 < h.next_global))
      × ((h : Inner) × (reseed_from_applied kv s' other ≡ ok h)
          × ((begin_global g).0 < h.next_global)
          × (other.next_global ≤ h.next_global))
unfolding begin_global next_global_xid_op open_store read_next_global reseed_from_applied
    after_batch
begin_global-restart kv s s' g other {old} {new} base small wrote before after =
    let bump = next_after-small g.next_global small in
    let op = put meta_next_global_xid_key (be_bytes 8 (next_after g.next_global)) ∷ [] in
    let value : new ≡ some (be_bytes 8 (next_after g.next_global)) = ground (
      arith,
      kv.get-write_batch s op meta_next_global_xid_key wrote before after,
      bytes_eq_refl meta_next_global_xid_key,
    ) in
    (
      base,
      (
        record { next_global = max (g.next_global + 1) global_xid_base; running = [] },
        rw (after, value, bump, counter_or-be_bytes global_xid_base (g.next_global + 1) small) refl,
        omega arith,
      ),
      (
        record {
          next_global = max other.next_global (max (g.next_global + 1) global_xid_base);
          running = other.running;
        },
        rw (after, value, bump, counter_or-be_bytes global_xid_base (g.next_global + 1) small) refl,
        omega arith,
        omega arith,
      ),
    )
