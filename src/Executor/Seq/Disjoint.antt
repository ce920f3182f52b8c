-- ===== src/Executor/Seq/Disjoint.antt =====
-- The rowids of consecutive allocations.
use crabgresql.Prelude.{
  ℕ, ◌+◌, ◌%◌, ◌<◌, ◌^◌, ◌≡◌, refl, ==_iff, [], ◌∷◌, Option, none, some, ok, arith, >>=-eq-ok,
}
use crabgresql.Prelude.HashMap.{lookup, insert, lookup-insert}
use crabgresql.Bytes.{Bytes}
use crabgresql.Bytes.Equality.{bytes_eq_refl}
use crabgresql.Bytes.BigEndian.{be_bytes}
use crabgresql.Kv.Key.{seq_key}
use crabgresql.Kv.Store.{WriteOp, Kv, after_batch}
use crabgresql.Executor.ProcArray.{durable}
use crabgresql.Executor.ProcArray.Restart.{counter_or-be_bytes}
use crabgresql.Executor.Seq.{
  Cache, same_table, seq_op, cached_or, persist, alloc, read_seq_kv, empty,
}

-- What a durable allocation that succeeds has done.
alloc-done :
    (kv : Kv) (s s' : kv.State) (cache cache' : Cache) (table count first : ℕ) {op : Option WriteOp}
    → alloc kv durable s cache table count ≡ ok (first, op, cache', s')
    → (kv.write_batch s (seq_op table ((first + count) % 2 ^ 64) ∷ []) ≡ ok s')
      × (op ≡ none)
      × (cache' ≡ insert same_table table ((first + count) % 2 ^ 64) cache)
unfolding alloc persist
alloc-done kv s s' cache cache' table count first {op} done =
    let (next, known, h1) =
      >>=-eq-ok (cached_or kv s table (lookup same_table table cache)) _ done in
    let ((folded, kept_store), kept, h2) =
      >>=-eq-ok (persist kv durable (seq_op table ((next + count) % 2 ^ 64)) s) _ h1 in
    let (left, wrote, h3) =
      >>=-eq-ok (kv.write_batch s (seq_op table ((next + count) % 2 ^ 64) ∷ [])) _ kept in
    let issued : next ≡ first = cc in
    let store : left ≡ s' = cc in
    let nothing : op ≡ none = cc in
    let cached : cache' ≡ insert same_table table ((next + count) % 2 ^ 64) cache = cc in
    (rw (← issued) (rw (← store) wrote), nothing, rw (← issued) cached)

-- After a durable allocation the same manager and a fresh one on the store left both go on exactly
-- behind the rowids handed out, where the store can be read and the counter stays within 64 bits.
pub alloc-next :
    (kv : Kv) (s s' : kv.State) (cache cache' : Cache) (table count first : ℕ) {op : Option WriteOp}
    {old new : Option Bytes}
    → first + count < 2 ^ 64
    → alloc kv durable s cache table count ≡ ok (first, op, cache', s')
    → kv.get s (seq_key table) ≡ ok old
    → kv.get s' (seq_key table) ≡ ok new
    → (op ≡ none)
      × (cached_or kv s' table (lookup same_table table cache') ≡ ok (first + count))
      × (cached_or kv s' table (lookup same_table table empty) ≡ ok (first + count))
unfolding alloc persist cached_or read_seq_kv seq_op after_batch lookup
alloc-next kv s s' cache cache' table count first {op} {old} {new} small done before after =
    let bump : (first + count) % 2 ^ 64 ≡ first + count = omega arith in
    let (written, nothing, held) = alloc-done kv s s' cache cache' table count first done in
    let wrote : kv.write_batch s (seq_op table (first + count) ∷ []) ≡ ok s' =
      rw (← bump) written in
    let cached : cache' ≡ insert same_table table (first + count) cache = rw (← bump) held in
    let value : new ≡ some (be_bytes 8 (first + count)) = ground (
      arith,
      kv.get-write_batch s (seq_op table (first + count) ∷ []) (seq_key table) wrote before after,
      bytes_eq_refl (seq_key table),
    ) in
    let found : lookup same_table table cache' ≡ some (first + count) =
      ground (arith, cached, lookup-insert same_table ==_iff table table (first + count) cache) in
    (nothing, rw found refl, rw (after, value, counter_or-be_bytes 1 (first + count) small) refl)
