-- ===== src/Kv/MemKv/Laws.antt =====
-- `MemKv` against the trait and the documentation of its scans.
use crabgresql.Prelude.{◌≡◌, refl, List, [], ◌∷◌, Option, ok, arith, filter, ap}
use crabgresql.Bytes.{Bytes, starts_with}
use crabgresql.Kv.Map
use crabgresql.Kv.Map.{Entries, IsSorted, range}
use crabgresql.Kv.Map.Lookup.{get-insert, get-remove}
use crabgresql.Kv.Map.Sorted.{insert-IsSorted, remove-IsSorted, take_while-range_from}
use crabgresql.Kv.Store.{WriteOp, put, delete, after_op, after_batch, Kv}
use crabgresql.Kv.MemKv
use crabgresql.Kv.MemKv.{apply, apply_all}

get-apply :
    (k : Bytes) (op : WriteOp) (m : Entries) → Map.get k (apply op m) ≡ after_op k op (Map.get k m)
unfolding apply
get-apply k (put j v) m = get-insert k j v m
get-apply k (delete j) m = get-remove k j m

-- After a batch a key has the value that the batch's operations on that key leave, in their order.
pub get-apply_all :
    (k : Bytes) (ops : List WriteOp) (m : Entries)
    → Map.get k (apply_all ops m) ≡ after_batch k ops (Map.get k m)
unfolding apply_all after_batch
get-apply_all k [] m = refl
get-apply_all k (op ∷ ops) m = rw (get-apply_all k ops (apply op m), get-apply k op m)

pub get-write_batch :
    (m : Entries) (ops : List WriteOp) {m' : Entries} (k : Bytes) {old new : Option Bytes}
    → MemKv.write_batch m ops ≡ ok m'
    → MemKv.get m k ≡ ok old
    → MemKv.get m' k ≡ ok new
    → new ≡ after_batch k ops old
unfolding MemKv.write_batch MemKv.get
get-write_batch m ops k e p q = ground (arith, get-apply_all k ops m)

abbrev pub mem_kv : Kv
mem_kv = record {
  State = Entries;
  get = MemKv.get;
  put = MemKv.put;
  delete = MemKv.delete;
  scan_prefix = MemKv.scan_prefix;
  scan_range = MemKv.scan_range;
  write_batch = MemKv.write_batch;
  get-write_batch = get-write_batch;
}

apply-IsSorted : (op : WriteOp) (m : Entries) → IsSorted m → IsSorted (apply op m)
unfolding apply
apply-IsSorted (put k v) m s = insert-IsSorted k v m s
apply-IsSorted (delete k) m s = remove-IsSorted k m s

apply_all-IsSorted : (ops : List WriteOp) (m : Entries) → IsSorted m → IsSorted (apply_all ops m)
unfolding apply_all
apply_all-IsSorted [] m s = s
apply_all-IsSorted (op ∷ ops) m s = apply_all-IsSorted ops (apply op m) (apply-IsSorted op m s)

-- After any batches on an empty store a prefix scan returns the entries with the prefix, in order.
pub scan_prefix-apply_all :
    (ops : List WriteOp) (p : Bytes)
    → (MemKv.scan_prefix (apply_all ops []) p
        ≡ ok (filter (λ e. starts_with p e.0) (apply_all ops [])))
      × IsSorted (apply_all ops [])
unfolding MemKv.scan_prefix
scan_prefix-apply_all ops p =
    let sorted = apply_all-IsSorted ops [] tt in
    (ap ok (take_while-range_from p (apply_all ops []) sorted), sorted)
