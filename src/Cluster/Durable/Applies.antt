-- ===== src/Cluster/Durable/Applies.antt =====
-- A call of `apply` on the database beside the call on the machine in memory.
use crabgresql.Prelude.{
  ◌≡◌, ◌∙◌, refl, sym, ap, subst, List, [], ◌∷◌, ◌++◌, Option, some, ok, err, Result, All,
  >>=-eq-ok, ok-inj,
}
use crabgresql.Prelude.HashMap.{lookup}
use crabgresql.Bytes.{Bytes, bytes_eq}
use crabgresql.Kv.Error.{KvError}
use crabgresql.Kv.Map
use crabgresql.Kv.Map.{Entries}
use crabgresql.Kv.Store
use crabgresql.Kv.Store.{WriteOp, put, delete, after_batch}
use crabgresql.Cluster.StateMachine
use crabgresql.Cluster.StateMachine.{
  Payload, blank, normal, membership, Entry, Machine, apply_ops, apply_payload, apply_entry,
}
use crabgresql.Cluster.Durable.{
  rows, raft, Batch, ops_in, Database, Staged, Meta, Codec, io_or, stage_ops, stage_payload,
  stage_entry, stage_entries, nothing_staged, apply, Failure, sm_applied_key, sm_membership_key,
}
use crabgresql.Cluster.Durable.Stages.{Counted, Decided, Orderly}
use crabgresql.Cluster.Durable.Refines.{Holds, HasCounts, Mirrors, stage_ops-Mirrors}

-- The operations of an entry are orderly.
unfoldable pub OrderlyPayload : {Membership : Type 0} → Payload Membership → Type 0
OrderlyPayload blank = Unit
OrderlyPayload (normal ops) = All Orderly ops
OrderlyPayload (membership mem) = Unit

module _ {LogId Membership : Type 0} where
  -- What the machine in memory keeps beside its rows.
  unfoldable pub meta_of : Machine LogId Membership → Meta LogId Membership
  meta_of m = record { last_applied = m.last_applied; last_membership = m.last_membership }

  module _ (db : Database) (codec : Codec LogId Membership) (s : db.State) (disk : Entries)
      (held : Holds db s disk) (counts : HasCounts disk) where
    -- The locals of the call and the machine in memory.
    abbrev Beside : Staged × Meta LogId Membership → Machine LogId Membership → Type 0
    Beside now m = Mirrors db s disk held counts now.0 m.kv × (now.1 ≡ meta_of m)

    stage_payload-Beside :
        (id : LogId) (payload : Payload Membership) (st : Staged) (m : Machine LogId Membership)
        {next : Staged × Meta LogId Membership}
        → stage_payload db codec s id payload st (meta_of m) ≡ ok next
        → OrderlyPayload payload
        → Mirrors db s disk held counts st m.kv
        → (m' : Machine LogId Membership) × (apply_payload id payload m ≡ some m') × Beside next m'
    unfolding stage_payload apply_payload OrderlyPayload meta_of
    stage_payload-Beside id blank st m h orderly all =
        (m, refl, subst (λ z. Beside z m) (ok-inj h) (all, refl))
    stage_payload-Beside id (normal ops) st m h orderly all =
        let (st', h1, h2) = >>=-eq-ok (stage_ops db s ops st) _ h in
        let (kv', steps, all') =
          stage_ops-Mirrors db s disk held counts ops st m.kv h1 orderly all in
        let m' = record m { kv = kv' } in
        (m', rw (apply_payload, steps) refl, subst (λ z. Beside z m') (ok-inj h2) (all', refl))
    stage_payload-Beside id (membership mem) st m h orderly all =
        let m' = record m { last_membership = some (id, mem) } in
        (m', refl, subst (λ z. Beside z m') (ok-inj h) (all, refl))

    stage_entries-Beside :
        (entries : List (Entry LogId Membership)) (now : Staged × Meta LogId Membership)
        (m : Machine LogId Membership) {next : Staged × Meta LogId Membership}
        → stage_entries db codec s entries now ≡ ok next
        → All (λ e. OrderlyPayload e.payload) entries
        → Beside now m
        → (m' : Machine LogId Membership) × (StateMachine.apply entries m ≡ some m')
          × Beside next m'
    unfolding stage_entries StateMachine.apply stage_entry apply_entry meta_of
    stage_entries-Beside [] now m h orderly beside =
        (m, refl, subst (λ z. Beside z m) (ok-inj h) beside)
    stage_entries-Beside (e ∷ entries) now m h orderly (all, same) =
        let (next1, h1, h2) = >>=-eq-ok (stage_entry db codec s e now) _ h in
        let seen = record m { last_applied = some e.log_id } in
        let (m1, step, beside) =
          stage_payload-Beside e.log_id e.payload now.0 seen (rw same at h1) orderly.0 all in
        let (m', steps, last) = stage_entries-Beside entries next1 m1 h2 orderly.1 beside in
        (m', rw (StateMachine.apply, step) steps, last)

-- The metadata at the end of the batch: the rows see nothing of it, its own keyspace sees it.
ops_in-rows_metadata :
    (batch : Batch) (a b : WriteOp)
    → ops_in rows (batch ++ (raft, a) ∷ (raft, b) ∷ []) ≡ ops_in rows batch
unfolding ops_in
ops_in-rows_metadata [] a b = refl
ops_in-rows_metadata ((rows, o) ∷ batch) a b = cc (ops_in-rows_metadata batch a b)
ops_in-rows_metadata ((raft, o) ∷ batch) a b = ops_in-rows_metadata batch a b

after_batch-applied :
    (batch : Batch) (a b : Bytes) (old : Option Bytes)
    → after_batch sm_applied_key
        (ops_in raft (batch ++ (raft, put sm_applied_key a) ∷ (raft, put sm_membership_key b) ∷ []))
        old
      ≡ some a
unfolding ops_in after_batch bytes_eq
after_batch-applied [] a b old = refl
after_batch-applied ((rows, o) ∷ batch) a b old = after_batch-applied batch a b old
after_batch-applied ((raft, o) ∷ batch) a b old =
    after_batch-applied batch a b (Store.after_op sm_applied_key o old)

io_or-eq-ok {ℓ} :
    {A : Type ℓ} (r : Result KvError A) {a : A}
    → ◌≡◌ {A = Result Failure A} (io_or r) (ok a)
    → r ≡ ok a
unfolding io_or
io_or-eq-ok (ok b) h = cc
io_or-eq-ok (err e) h = absurd cc

nothing-Mirrors :
    (db : Database) (s : db.State) (disk : Entries) (held : Holds db s disk)
    (counts : HasCounts disk)
    → Mirrors db s disk held counts nothing_staged disk
unfolding Mirrors Counted Decided lookup after_batch ops_in
nothing-Mirrors db s disk held counts k = record {
  value = refl;
  counter = λ c. refl;
  decision = λ c d. refl;
}

module _ {LogId Membership : Type 0} (db : Database) (codec : Codec LogId Membership) where
  -- Where a call of the durable `apply` returns, on a disk whose rows are those of a machine in
  -- memory with 64-bit counters, and the entries neither remove a counter or a decision nor put a
  -- counter of more than 64 bits: the machine in memory does not panic on the entries; a row read
  -- afterwards is the row that the machine then has; the metadata are the machine's; and the record
  -- of the last applied entry, if it could be read before, is now the encoding of the machine's.
  pub apply-Refines :
      (s : db.State) (m : Machine LogId Membership) (entries : List (Entry LogId Membership))
      {s' : db.State} {meta' : Meta LogId Membership} {old : Option Bytes}
      → Holds db s m.kv
      → HasCounts m.kv
      → All (λ e. OrderlyPayload e.payload) entries
      → db.get s raft sm_applied_key ≡ ok old
      → apply db codec s (meta_of m) entries ≡ ok (s', meta')
      → (m' : Machine LogId Membership) × (StateMachine.apply entries m ≡ some m')
        × (meta' ≡ meta_of m')
        × ((k : Bytes) (v : Option Bytes) → db.get s' rows k ≡ ok v → v ≡ Map.get k m'.kv)
        × ((v : Option Bytes)
            → db.get s' raft sm_applied_key ≡ ok v
            → (b : Bytes) × (v ≡ some b) × (codec.applied_to_vec m'.last_applied ≡ ok b))
  unfolding apply Holds Mirrors meta_of
  apply-Refines s m entries {s'} {meta'} {old} held counts orderly known h =
      let start = stage_entries db codec s entries (nothing_staged, meta_of m) in
      let (staged, h1, h2) = >>=-eq-ok start _ h in
      let (applied, h3, h4) = >>=-eq-ok (io_or (codec.applied_to_vec staged.1.last_applied)) _ h2 in
      let (members, h5, h6) =
        >>=-eq-ok (io_or (codec.membership_to_vec staged.1.last_membership)) _ h4 in
      let metadata =
        (raft, put sm_applied_key applied) ∷ (raft, put sm_membership_key members) ∷ [] in
      let batch = staged.0.batch ++ metadata in
      let (after, h7, h8) = >>=-eq-ok (io_or (db.commit s batch)) _ h6 in
      let (done, h9, h10) = >>=-eq-ok (io_or (db.persist after)) _ h8 in
      let (m', run, (all, same)) =
        stage_entries-Beside db codec s m.kv held counts entries (nothing_staged, meta_of m) m h1
          orderly (nothing-Mirrors db s m.kv held counts, refl) in
      let done_as : (after, staged.1) ≡ (s', meta') = ok-inj h10 in
      let now : after ≡ s' = ap (λ p. p.0) done_as in
      let committed = rw now at (io_or-eq-ok (db.commit s batch) h7) in
      let last : staged.1.last_applied ≡ m'.last_applied = ap (λ z. z.last_applied) same in
      (
        m',
        run,
        sym (ap (λ p. p.1) done_as) ∙ same,
        λ k v r.
            db.get-commit s batch rows k committed (held k) r
            ∙ ap (λ ops. after_batch k ops (Map.get k m.kv))
                (ops_in-rows_metadata staged.0.batch _ _)
            ∙ (all k).value,
        λ v r. (
          applied,
          db.get-commit s batch raft sm_applied_key committed known r
              ∙ after_batch-applied staged.0.batch applied members old,
          rw last at (io_or-eq-ok (codec.applied_to_vec staged.1.last_applied) h3),
        ),
      )
