-- ===== src/Tests/Transactions.antt =====
-- Visibility, the registries and the set operators at concrete inputs.
use crabgresql.Prelude.{
  ℕ, ◌+◌, ◌<◌, ◌≤◌, ◌≡◌, ◌↔◌, refl, ◌⊎◌, Bool, true, false, List, [], ◌∷◌, Option, none, some,
  Result, ok, arith, All, ◌==◌, if◌then◌else◌,
}
use crabgresql.Prelude.HashMap.{lookup, insert}
use crabgresql.Bytes.{Bytes, bytes_eq}
use crabgresql.Bytes.BigEndian.{be_bytes, be_value}
use crabgresql.Kv.Error.{KvError}
use crabgresql.Kv.Key.{next_xid_key, clog_key, seq_key, meta_next_global_xid_key}
use crabgresql.Kv.Map
use crabgresql.Kv.Map.{Entries}
use crabgresql.Kv.MemKv
use crabgresql.Kv.Store.{WriteOp}
use crabgresql.Kv.MemKv.Laws.{mem_kv}
use crabgresql.Mvcc.Clog
use crabgresql.Mvcc.Clog.{XidStatus, committed, aborted, in_progress, prepared}
use crabgresql.Mvcc.Visibility.{
  Snapshot, is_running, satisfies_mvcc, committed_visible, invalid_xid, not_deleted,
}
use crabgresql.Mvcc.Visibility.Verdict.{Sees, satisfies_mvcc_iff}
use crabgresql.Mvcc.Visibility.Stability.{satisfies_mvcc_stable}
use crabgresql.Executor.Status.{global_status, find_visible_one, find_visible_from, keep_greatest}
use crabgresql.Executor.Status.Atomic.{global_status_committed_iff}
use crabgresql.Executor.Status.Live.{IsLive, Bounds, Found, find_visible_one_greatest}
use crabgresql.Executor.ProcArray
use crabgresql.Executor.ProcArray.{durable, register, snapshot, finish, begin_write, open_store}
use crabgresql.Executor.ProcArray.Snapshots.{IsRegistry, register-IsRegistry, is_running-finish}
use crabgresql.Executor.ProcArray.Restart.{open_store-begin_write}
use crabgresql.Executor.Gtm
use crabgresql.Executor.Gtm.{global_xid_base, begin_global, next_global_xid_op}
use crabgresql.Executor.Gtm.Base.{begin_global-restart}
use crabgresql.Executor.Seq.{alloc, cached_or, same_table, empty, seq_op, persist, read_seq_kv}
use crabgresql.Executor.Seq.Disjoint.{alloc-next}
use crabgresql.Executor.SetOps.{intersect_op, combine_rows}
use crabgresql.Executor.SetOps.Counts.{IsEq, count_in}
use crabgresql.Executor.SetOps.Multiset.{multiplicity, count_in-combine_rows}

-- 5 and 7 ran when it was taken.
abbrev snap : Snapshot
snap = record { xmin = 5; xmax = 10; xip = 5 ∷ 7 ∷ [] }

abbrev log : ℕ → Result KvError XidStatus
log xid = if xid == 3 then ok committed else ok in_progress

-- The same log once 5 has committed.
abbrev later_log : ℕ → Result KvError XidStatus
later_log xid = if xid == 3 then ok committed else if xid == 5 then ok committed else ok in_progress

satisfies_mvcc_iff_example :
    (satisfies_mvcc 3 5 snap none log ≡ ok true)
    ↔ (Sees snap none log 3 × ((5 ≡ invalid_xid) ⊎ (committed_visible 5 snap none log ≡ ok false)))
satisfies_mvcc_iff_example = satisfies_mvcc_iff 3 5 snap none log

logs_agree : (xid : ℕ) → is_running snap xid ≡ false → log xid ≡ later_log xid
unfolding is_running
logs_agree xid h = ground arith

satisfies_mvcc_stable_example :
    satisfies_mvcc 3 5 snap none log ≡ satisfies_mvcc 3 5 snap none later_log
satisfies_mvcc_stable_example = satisfies_mvcc_stable snap none log later_log logs_agree 3 5

-- A global transaction, 9, that range 0 has committed, with a marker under 3.
abbrev range_zero : Entries
range_zero = (clog_key 9, 1 ∷ []) ∷ []

abbrev range_one : Entries
range_one = (clog_key 3, 3 ∷ be_bytes 8 9) ∷ []

marker_one : Clog.get mem_kv range_one 3 ≡ ok (prepared 9)
unfolding Clog.get MemKv.get Map.get clog_key bytes_eq Clog.decode be_bytes be_value
marker_one = refl

abbrev range_one_status : ℕ → Result KvError XidStatus
range_one_status = global_status mem_kv mem_kv range_one range_zero snap

global_status_committed_iff_example :
    (global_status mem_kv mem_kv range_one range_zero snap 3 ≡ ok committed)
    ↔ ((is_running snap 9 ≡ false) × (Clog.get mem_kv range_zero 9 ≡ ok committed))
global_status_committed_iff_example =
    global_status_committed_iff mem_kv mem_kv range_one range_zero snap 3 9 marker_one

-- Two versions, the older one deleted by 5, which runs.
abbrev versions : List (ℕ × ℕ × ℕ)
versions = (3, 0, 70) ∷ (12, 0, 80) ∷ []

abbrev found_row : Option (ℕ × ℕ)
found_row = some (3, 70)

one_found : find_visible_one snap none log versions ≡ ok found_row
unfolding find_visible_one find_visible_from satisfies_mvcc committed_visible is_running
    keep_greatest not_deleted
one_found = refl

find_visible_one_greatest_example :
    All (λ v. IsLive snap none log v → Bounds found_row v.0) versions
    × ((found_row ≡ none) ⊎ Found snap none log versions found_row)
find_visible_one_greatest_example =
    find_visible_one_greatest snap none log versions found_row one_found

abbrev registry : ProcArray.Inner
registry = record { next_xid = 4; running = 2 ∷ 3 ∷ [] }

registry-IsRegistry : IsRegistry registry
unfolding IsRegistry
registry-IsRegistry = (omega arith, (omega arith, omega arith, (omega arith, omega arith, tt)))

register-IsRegistry_example :
    IsRegistry (register registry).1
    × (is_running (snapshot registry) (register registry).0 ≡ true)
    × (is_running (snapshot (register registry).1) (register registry).0 ≡ true)
register-IsRegistry_example = register-IsRegistry registry registry-IsRegistry (omega arith)

is_running-finish_example :
    IsRegistry (finish 2 registry)
    × (is_running (snapshot (finish 2 registry)) 2
        ≡ (if 2 == 2 then false else is_running (snapshot registry) 2))
is_running-finish_example = is_running-finish registry 2 2 registry-IsRegistry (omega arith)

abbrev counted : Entries
counted = (next_xid_key, be_bytes 8 5) ∷ []

abbrev begun : ProcArray.Inner
begun = record { next_xid = 5; running = 2 ∷ 3 ∷ 4 ∷ [] }

began : begin_write mem_kv durable [] registry ≡ ok (4, begun, counted)
unfolding begin_write register MemKv.write_batch MemKv.apply_all MemKv.apply Map.insert
    ProcArray.set_insert ProcArray.next_after
began = refl

found_counter : MemKv.get counted next_xid_key ≡ ok (some (be_bytes 8 5))
unfolding MemKv.get Map.get bytes_eq next_xid_key be_bytes
found_counter = refl

no_counter : (k : Bytes) → MemKv.get [] k ≡ ok none
unfolding MemKv.get Map.get
no_counter k = refl

open_store-begin_write_example :
    (h : ProcArray.Inner) × (open_store mem_kv counted ≡ ok h)
    × (h.next_xid ≡ 4 + 1)
    × (begun.next_xid ≡ 4 + 1)
open_store-begin_write_example =
    open_store-begin_write mem_kv [] counted registry begun 4 (omega arith) began
      (no_counter next_xid_key) found_counter

abbrev manager : Gtm.Inner
manager = record { next_global = global_xid_base; running = [] }

abbrev other_manager : Gtm.Inner
other_manager = record { next_global = global_xid_base; running = [] }

abbrev global_counted : Entries
global_counted = (meta_next_global_xid_key, be_bytes 8 (global_xid_base + 1)) ∷ []

global_wrote :
    MemKv.write_batch [] (next_global_xid_op (begin_global manager).1 ∷ []) ≡ ok global_counted
unfolding MemKv.write_batch MemKv.apply_all MemKv.apply Map.insert next_global_xid_op begin_global
    ProcArray.next_after
global_wrote = refl

global_found :
    MemKv.get global_counted meta_next_global_xid_key ≡ ok (some (be_bytes 8 (global_xid_base + 1)))
unfolding MemKv.get Map.get bytes_eq meta_next_global_xid_key be_bytes
global_found = refl

begin_global-restart_example :
    (global_xid_base ≤ (begin_global manager).0)
    × ((h : Gtm.Inner) × (Gtm.open_store mem_kv global_counted ≡ ok h)
        × ((begin_global manager).0 < h.next_global))
    × ((h : Gtm.Inner) × (Gtm.reseed_from_applied mem_kv global_counted other_manager ≡ ok h)
        × ((begin_global manager).0 < h.next_global)
        × (other_manager.next_global ≤ h.next_global))
begin_global-restart_example =
    begin_global-restart mem_kv [] global_counted manager other_manager (omega arith) (omega arith)
      global_wrote (no_counter meta_next_global_xid_key) global_found

abbrev rowids : Entries
rowids = (seq_key 7, be_bytes 8 4) ∷ []

allocated : alloc mem_kv durable [] empty 7 3 ≡ ok (1, none, (7, 4) ∷ [], rowids)
unfolding alloc cached_or persist read_seq_kv seq_op lookup insert MemKv.get Map.get
    MemKv.write_batch MemKv.apply_all MemKv.apply Map.insert ProcArray.counter_or
allocated = refl

rowid_found : MemKv.get rowids (seq_key 7) ≡ ok (some (be_bytes 8 4))
unfolding MemKv.get Map.get bytes_eq seq_key be_bytes
rowid_found = refl

abbrev nothing : Option WriteOp
nothing = none

alloc-next_example :
    (nothing ≡ none)
    × (cached_or mem_kv rowids 7 (lookup same_table 7 ((7, 4) ∷ [])) ≡ ok (1 + 3))
    × (cached_or mem_kv rowids 7 (lookup same_table 7 empty) ≡ ok (1 + 3))
alloc-next_example =
    alloc-next mem_kv [] rowids empty ((7, 4) ∷ []) 7 3 1 (omega arith) allocated
      (no_counter (seq_key 7)) rowid_found

abbrev same_number : ℕ → ℕ → Bool
same_number a b = a == b

same_number-IsEq : IsEq same_number
same_number-IsEq = record {
  same = λ r. ground arith;
  alike = λ r s e q. ground (arith, e);
  turn = λ r s. ground arith;
}

count_in-combine_rows_example :
    count_in same_number same_number-IsEq 2
      (combine_rows same_number intersect_op true (2 ∷ 2 ∷ 1 ∷ []) (2 ∷ 2 ∷ 2 ∷ []))
    ≡ multiplicity intersect_op true
        (count_in same_number same_number-IsEq 2 (2 ∷ 2 ∷ 1 ∷ []))
        (count_in same_number same_number-IsEq 2 (2 ∷ 2 ∷ 2 ∷ []))
count_in-combine_rows_example =
    count_in-combine_rows same_number same_number-IsEq intersect_op true (2 ∷ 2 ∷ 1 ∷ [])
      (2 ∷ 2 ∷ 2 ∷ []) 2
