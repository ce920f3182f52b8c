-- ===== src/Cluster/Durable/Keys.antt =====
-- Each way in which an operation is staged, at any key.
use crabgresql.Prelude.{
  ℕ, ◌≡◌, ◌≢◌, ◌<◌, ◌^◌, ◌∙◌, refl, sym, ap, inl, inr, Bool, true, false, Option, Bool-cases,
  if◌then◌else◌,
}
use crabgresql.Prelude.HashMap.{insert, lookup-insert}
use crabgresql.Bytes.{Bytes, bytes_eq}
use crabgresql.Bytes.Equality.{bytes_eq_iff}
use crabgresql.Bytes.BigEndian.{be_bytes}
use crabgresql.Kv.Map
use crabgresql.Kv.Map.{Entries}
use crabgresql.Kv.Map.Lookup.{get-insert}
use crabgresql.Kv.Store
use crabgresql.Kv.Store.{WriteOp, put, delete, after_batch}
use crabgresql.Mvcc.Clog.{is_terminal}
use crabgresql.Cluster.StateMachine.{is_counter_key, is_clog_key, keeps}
use crabgresql.Cluster.Durable.{Staged, stage, rows, ops_in}
use crabgresql.Cluster.Durable.Stages.{Counted, Decided, Tracks, stage-value}

-- A property of two choices by the same test.
if_both {ℓ κ μ} :
    {A : Type ℓ} {B : Type κ} (P : A → B → Type μ) (b : Bool) {x y : A} {v w : B}
    → (b ≡ true → P x v)
    → (b ≡ false → P y w)
    → P (if b then x else y) (if b then v else w)
if_both P true h g = h refl
if_both P false h g = g refl

module _ (k j : Bytes) (st : Staged) (old : Option Bytes) (m : Entries) where
  -- Nothing of the key `j` holds of another key that has a test which `j` fails.
  apart : {a b : Bool} (f : Bytes → Bool) → f j ≡ a → f k ≡ b → a ≢ b → bytes_eq k j ≡ true → ⊥
  apart f fj fk n same = n (sym fj ∙ ap f (sym ((bytes_eq_iff k j).0 same)) ∙ fk)

  value-put :
      (v : Bytes) (st1 : Staged)
      → st1.batch ≡ st.batch
      → Tracks k st old (Map.get k m)
      → after_batch k (ops_in rows (stage (put j v) st1).batch) old ≡ Map.get k (Map.insert j v m)
  value-put v st1 same t =
      stage-value k (put j v) st1 old (ap (λ b. after_batch k (ops_in rows b) old) same ∙ t.value)
      ∙ sym (get-insert k j v m)

  pub counter-Tracks :
      (c : ℕ)
      → is_counter_key j ≡ true
      → c < 2 ^ 64
      → Tracks k st old (Map.get k m)
      → Tracks k
          (stage (put j (be_bytes 8 c)) (record st { counters = insert bytes_eq j c st.counters }))
          old
          (Map.get k (Map.insert j (be_bytes 8 c) m))
  unfolding stage Counted
  counter-Tracks c counter small t = record {
    value =
        value-put (be_bytes 8 c) (record st { counters = insert bytes_eq j c st.counters }) refl t;
    counter = λ h.
        rw (lookup-insert bytes_eq bytes_eq_iff k j c st.counters, get-insert k j (be_bytes 8 c) m)
          (if_both (λ x v. Counted x old v) (bytes_eq k j) (λ e. (refl, small)) (λ e. t.counter h));
    decision = λ p h. rw (get-insert k j (be_bytes 8 c) m) (elim (Bool-cases (bytes_eq k j)) [
      | inl e ↦ absurd (apart is_counter_key counter p (λ x. cc) e)
      | inr e ↦ rw e (t.decision p h)
    ]);
  }

  pub final-Tracks :
      is_counter_key j ≡ false
      → keeps (Map.get j m) ≡ true
      → Tracks k st old (Map.get k m)
      → Tracks k (record st { decided = insert bytes_eq j true st.decided }) old (Map.get k m)
  unfolding Decided
  final-Tracks plain kept t = record {
    value = t.value;
    counter = t.counter;
    decision = λ p h.
        rw (lookup-insert bytes_eq bytes_eq_iff k j true st.decided)
          (elim (Bool-cases (bytes_eq k j)) [
            | inl e ↦ rw e (rw ((bytes_eq_iff k j).0 e) kept)
            | inr e ↦ rw e (t.decision p h)
          ]);
  }

  pub open-Tracks :
      (v : Bytes)
      → is_counter_key j ≡ false
      → Tracks k st old (Map.get k m)
      → Tracks k
          (stage (put j v) (record st { decided = insert bytes_eq j (is_terminal v) st.decided }))
          old
          (Map.get k (Map.insert j v m))
  unfolding stage Decided keeps
  open-Tracks v plain t = record {
    value =
        value-put v (record st { decided = insert bytes_eq j (is_terminal v) st.decided }) refl t;
    counter = λ h. rw (get-insert k j v m) (elim (Bool-cases (bytes_eq k j)) [
      | inl e ↦ absurd (apart is_counter_key plain h (λ x. cc) e)
      | inr e ↦ rw e (t.counter h)
    ]);
    decision = λ p h.
        rw (lookup-insert bytes_eq bytes_eq_iff k j (is_terminal v) st.decided, get-insert k j v m)
          (if_both (λ x w. Decided x old w) (bytes_eq k j) (λ e. refl) (λ e. t.decision p h));
  }

  -- A key that is neither a counter nor a decision has nothing pending.
  pub plain-Tracks :
      (op : WriteOp) (m' : Entries)
      → is_counter_key j ≡ false
      → is_clog_key j ≡ false
      → Map.get k m' ≡ Store.after_op k op (Map.get k m)
      → (bytes_eq k j ≡ false → Map.get k m' ≡ Map.get k m)
      → Tracks k st old (Map.get k m)
      → Tracks k (stage op st) old (Map.get k m')
  unfolding stage
  plain-Tracks op m' plain row now other t = record {
    value = stage-value k op st old t.value ∙ sym now;
    counter = λ h. elim (Bool-cases (bytes_eq k j)) [
      | inl e ↦ absurd (apart is_counter_key plain h (λ x. cc) e)
      | inr e ↦ rw (other e) (t.counter h)
    ];
    decision = λ p h. elim (Bool-cases (bytes_eq k j)) [
      | inl e ↦ absurd (apart is_clog_key row h (λ x. cc) e)
      | inr e ↦ rw (other e) (t.decision p h)
    ];
  }
