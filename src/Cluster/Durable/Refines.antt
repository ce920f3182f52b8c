-- ===== src/Cluster/Durable/Refines.antt =====
-- The durable state machine beside the one in memory.
use crabgresql.Prelude.{
  ℕ, ◌≡◌, ◌<◌, ◌^◌, ◌∙◌, refl, subst, inl, inr, true, false, List, [], ◌∷◌, Option, none, some, max,
  ok, arith, All, Bool-cases, >>=-eq-ok, ok-inj,
}
use crabgresql.Prelude.HashMap.{lookup}
use crabgresql.Bytes.{Bytes, bytes_eq}
use crabgresql.Bytes.BigEndian.{be_bytes}
use crabgresql.Kv.Map
use crabgresql.Kv.Map.{Entries}
use crabgresql.Kv.Map.Lookup.{get-insert, get-remove}
use crabgresql.Kv.Store.{WriteOp, put, delete}
use crabgresql.Cluster.StateMachine.{is_counter_key, is_clog_key, put_counter, apply_op, apply_ops}
use crabgresql.Cluster.StateMachine.Logs.{IsCount, count-be_bytes}
use crabgresql.Cluster.Durable.{
  Database, Staged, rows, u64_or_panic, current_count, already_terminal, stage_counter,
  stage_decision, stage_op, stage_ops,
}
use crabgresql.Cluster.Durable.Stages.{
  Counted, Tracks, Orderly, u64_or_panic-some, existing-count, u64_be-count, current_count-existing,
  already_terminal-keeps,
}
use crabgresql.Cluster.Durable.Keys.{counter-Tracks, final-Tracks, open-Tracks, plain-Tracks}

-- The rows on the disk are those of the machine in memory.
unfoldable pub Holds : (db : Database) → db.State → Entries → Type 0
Holds db s m = (k : Bytes) → db.get s rows k ≡ ok (Map.get k m)

-- Every counter is a number of 64 bits.
unfoldable pub HasCounts : Entries → Type 0
HasCounts m = (k : Bytes) → is_counter_key k ≡ true → IsCount (Map.get k m)

module _ (db : Database) (s : db.State) (disk : Entries) (held : Holds db s disk)
    (counts : HasCounts disk) where
  -- What is staged makes the entries `m` of those on the disk.
  unfoldable pub Mirrors : Staged → Entries → Type 0
  Mirrors st m = (k : Bytes) → Tracks k st (Map.get k disk) (Map.get k m)

  held-IsCount :
      (c : Option ℕ) (old now : Option Bytes) → IsCount old → Counted c old now → IsCount now
  unfolding Counted IsCount
  held-IsCount none old now h e = rw e h
  held-IsCount (some c) old now h (e, small) = rw (e, count-be_bytes c small) small

  -- The operation does not panic in memory either, and what is staged after it is what it makes.
  abbrev Steps : WriteOp → Entries → Staged → Type 0
  Steps op m st' = (m' : Entries) × (apply_op op m ≡ some m') × Mirrors st' m'

  counter-Steps :
      (j v : Bytes) (st : Staged) (m : Entries) {st' : Staged}
      → stage_counter db s j v st ≡ ok st'
      → is_counter_key j ≡ true
      → IsCount (some v)
      → Mirrors st m
      → Steps (put j v) m st'
  unfolding stage_counter Mirrors Holds HasCounts IsCount apply_op put_counter
  counter-Steps j v st m {st'} h counter fits all =
      let (incoming, read, h1) = >>=-eq-ok (u64_or_panic v) _ h in
      let (cur, now, h2) = >>=-eq-ok (current_count db s j st) _ h1 in
      let put_in = u64_or_panic-some v read in
      let stands = current_count-existing db s j st (all j) counter (held j) now in
      let small : cur < 2 ^ 64 = rw (← existing-count (Map.get j m) stands) (
        held-IsCount (lookup bytes_eq j st.counters) (Map.get j disk) (Map.get j m)
          (counts j counter) ((all j).counter counter)) in
      let fit : incoming < 2 ^ 64 = rw (← u64_be-count v put_in) fits in
      (
        Map.insert j (be_bytes 8 (max cur incoming)) m,
        rw (counter, put_in, stands) refl,
        λ k.
            subst
              (λ z.
                Tracks k z (Map.get k disk)
                  (Map.get k (Map.insert j (be_bytes 8 (max cur incoming)) m)))
              (ok-inj h2)
              (counter-Tracks k j st (Map.get k disk) m (max cur incoming) counter (omega arith)
                (all k)),
      )

  decision-Steps :
      (j v : Bytes) (st : Staged) (m : Entries) {st' : Staged}
      → stage_decision db s j v st ≡ ok st'
      → is_counter_key j ≡ false
      → is_clog_key j ≡ true
      → Mirrors st m
      → Steps (put j v) m st'
  unfolding stage_decision Mirrors Holds apply_op
  decision-Steps j v st m {st'} h plain clog all =
      let (final, now, h1) = >>=-eq-ok (already_terminal db s j st) _ h in
      let keep = already_terminal-keeps db s j st (all j) plain clog (held j) now in
      elim (Bool-cases final) [
        | inl e ↦ (
          m,
          rw (plain, clog, keep, e) refl,
          λ k.
              subst (λ z. Tracks k z (Map.get k disk) (Map.get k m)) (ok-inj (rw e at h1))
                (final-Tracks k j st (Map.get k disk) m plain (keep ∙ e) (all k)),
        )
        | inr e ↦ (
          Map.insert j v m,
          rw (plain, clog, keep, e) refl,
          λ k.
              subst (λ z. Tracks k z (Map.get k disk) (Map.get k (Map.insert j v m)))
                (ok-inj (rw e at h1)) (open-Tracks k j st (Map.get k disk) m v plain (all k)),
        )
      ]

  stage_op-Steps :
      (op : WriteOp) (st : Staged) (m : Entries) {st' : Staged}
      → stage_op db s op st ≡ ok st'
      → Orderly op
      → Mirrors st m
      → Steps op m st'
  unfolding stage_op Orderly apply_op Mirrors
  stage_op-Steps (delete j) st m h (plain, row) all = (
    Map.remove j m,
    refl,
    λ k.
        subst (λ z. Tracks k z (Map.get k disk) (Map.get k (Map.remove j m))) (ok-inj h)
          (plain-Tracks k j st (Map.get k disk) m (delete j) (Map.remove j m) plain row
            (get-remove k j m) (λ e. rw (get-remove k j m, e) refl) (all k)),
  )
  stage_op-Steps (put j v) st m h fits all = elim (Bool-cases (is_counter_key j)) [
    | inl counter ↦ counter-Steps j v st m (rw counter at h) counter (fits counter) all
    | inr plain ↦ elim (Bool-cases (is_clog_key j)) [
      | inl clog ↦ decision-Steps j v st m (rw (plain, clog) at h) plain clog all
      | inr row ↦ (
        Map.insert j v m,
        rw (plain, row) refl,
        λ k.
            subst (λ z. Tracks k z (Map.get k disk) (Map.get k (Map.insert j v m)))
              (ok-inj (rw (plain, row) at h))
              (plain-Tracks k j st (Map.get k disk) m (put j v) (Map.insert j v m) plain row
                (get-insert k j v m) (λ e. rw (get-insert k j v m, e) refl) (all k)),
      )
    ]
  ]

  pub stage_ops-Mirrors :
      (ops : List WriteOp) (st : Staged) (m : Entries) {st' : Staged}
      → stage_ops db s ops st ≡ ok st'
      → All Orderly ops
      → Mirrors st m
      → (m' : Entries) × (apply_ops ops m ≡ some m') × Mirrors st' m'
  unfolding stage_ops apply_ops Mirrors
  stage_ops-Mirrors [] st m h orderly all =
      (m, refl, λ k. subst (λ z. Tracks k z (Map.get k disk) (Map.get k m)) (ok-inj h) (all k))
  stage_ops-Mirrors (op ∷ ops) st m h orderly all =
      let (st1, h1, h2) = >>=-eq-ok (stage_op db s op st) _ h in
      let (m1, step, all1) = stage_op-Steps op st m h1 orderly.0 all in
      let (m', steps, all') = stage_ops-Mirrors ops st1 m1 h2 orderly.1 all1 in
      (m', rw (apply_ops, step) steps, all')
