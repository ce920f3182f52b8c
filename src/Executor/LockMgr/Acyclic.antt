-- ===== src/Executor/LockMgr/Acyclic.antt =====
-- Cycles of the wait-for graph and the edges that waits add and remove.
use crabgresql.Prelude.{
  ℕ, zero, suc, ◌+◌, ◌≡◌, ◌≢◌, refl, sym, ◌∙◌, subst, ap, ◌⊎◌, inl, inr, false, [], none, some,
  arith, ◌==◌, Bool-cases, Option-cases, if◌then◌else◌, ==_iff,
}
use crabgresql.Prelude.HashMap.{lookup, insert, remove, lookup-insert, lookup-remove}
use crabgresql.Executor.LockMgr.{
  Edges, same_xid, Inner, Acquire, acquired, conflict, Round, after_attempt, stop_waiting,
  start_waiting,
}
use crabgresql.Executor.LockMgr.Cycles.{walk, walk-step, walk-last, check_cycle_exact, Verdict}

-- No transaction waits for itself, however many steps on.
unfoldable pub IsAcyclic : Edges → Type 0
IsAcyclic es = (x n : ℕ) → walk es (suc n) x ≢ some x

walk-add : (es : Edges) (k n x : ℕ) {y : ℕ} → walk es k x ≡ some y → walk es (k + n) x ≡ walk es n y
unfolding walk
walk-add es zero n x h = ground arith
walk-add es (suc k) n x {y} h = elim (Option-cases (lookup same_xid x es)) [
  | inl last ↦ absurd (ground (arith, walk-last es k x last))
  | inr (z, edge) ↦
      let rest : walk es k z ≡ some y = sym (walk-step es k x edge) ∙ h in
      let same : suc k + n ≡ suc (k + n) = omega arith in
      rw same (walk-step es (k + n) x edge ∙ walk-add es k n z rest)
]

lookup-removed :
    (x my : ℕ) (es : Edges)
    → lookup same_xid x (remove same_xid my es) ≡ (if x == my then none else lookup same_xid x es)
lookup-removed x my es = lookup-remove same_xid ==_iff x my es

lookup-inserted :
    (x my h : ℕ) (es : Edges)
    → lookup same_xid x (insert same_xid my h es)
      ≡ (if x == my then some h else lookup same_xid x es)
lookup-inserted x my h es = lookup-insert same_xid ==_iff x my h es

-- Walks without an edge are walks with it.
walk-remove :
    (es : Edges) (my n x : ℕ) {y : ℕ}
    → walk (remove same_xid my es) n x ≡ some y
    → walk es n x ≡ some y
unfolding walk
walk-remove es my zero x h = h
walk-remove es my (suc n) x {y} h =
    elim (Option-cases (lookup same_xid x (remove same_xid my es))) [
      | inl last ↦ absurd (ground (arith, walk-last (remove same_xid my es) n x last))
      | inr (z, edge) ↦
          let kept : lookup same_xid x es ≡ some z = ground (arith, edge, lookup-removed x my es) in
          let rest : walk (remove same_xid my es) n z ≡ some y =
            sym (walk-step (remove same_xid my es) n x edge) ∙ h in
          walk-step es n x kept ∙ walk-remove es my n z rest
    ]

pub empty-IsAcyclic : IsAcyclic []
unfolding IsAcyclic lookup
empty-IsAcyclic x n e = absurd (ground (arith, e, walk-last [] n x refl))

-- Giving up an edge closes no cycle.
pub remove-IsAcyclic : (es : Edges) (my : ℕ) → IsAcyclic es → IsAcyclic (remove same_xid my es)
unfolding IsAcyclic
remove-IsAcyclic es my acyclic x n h = acyclic x n (walk-remove es my (suc n) x h)

-- A walk with the new edge of `my` is an old one, or an old one comes to `my` and it goes on there.
Splits : Edges → ℕ → ℕ → ℕ → ℕ → ℕ → Type 0
Splits es my h n x y =
    (walk es n x ≡ some y)
    ⊎ ((k m : ℕ) × (walk es k x ≡ some my)
        × (walk (insert same_xid my h es) m my ≡ some y)
        × (k + m ≡ n))

walk-insert :
    (es : Edges) (my h n x : ℕ) {y : ℕ}
    → walk (insert same_xid my h es) n x ≡ some y
    → Splits es my h n x y
unfolding walk Splits
walk-insert es my h zero x e = inl e
walk-insert es my h (suc n) x {y} e = elim (Bool-cases (x == my)) [
  | inl mine ↦
      let same : x ≡ my = ground (arith, mine) in
      inr (
        0,
        suc n,
        ap some same,
        subst (λ z. walk (insert same_xid my h es) (suc n) z ≡ some y) same e,
        omega arith,
      )
  | inr other ↦ elim (Option-cases (lookup same_xid x es)) [
    | inl last ↦
        let kept : lookup same_xid x (insert same_xid my h es) ≡ none =
          ground (arith, last, other, lookup-inserted x my h es) in
        absurd (ground (arith, walk-last (insert same_xid my h es) n x kept))
    | inr (z, edge) ↦
        let kept : lookup same_xid x (insert same_xid my h es) ≡ some z =
          ground (arith, edge, other, lookup-inserted x my h es) in
        elim (walk-insert es my h n z (sym (walk-step (insert same_xid my h es) n x kept) ∙ e)) [
          | inl old ↦ inl (walk-step es n x edge ∙ old)
          | inr (k, m, here, on, total) ↦
              inr (suc k, m, walk-step es k x edge ∙ here, on, omega arith)
        ]
  ]
]

-- An edge to a transaction whose waits do not come back closes no cycle.
insert-IsAcyclic :
    (es : Edges) (my h : ℕ)
    → IsAcyclic es
    → ((n : ℕ) → walk es n h ≢ some my)
    → IsAcyclic (insert same_xid my h es)
unfolding IsAcyclic Splits walk
insert-IsAcyclic es my h acyclic free x n cycle = elim (Bool-cases (x == my)) [
  | inl mine ↦
      let same : x ≡ my = ground (arith, mine) in
      from_my n (subst (λ z. walk (insert same_xid my h es) (suc n) z ≡ some z) same cycle)
  | inr other ↦ elim (walk-insert es my h (suc n) x cycle) [
    | inl old ↦ acyclic x n old
    | inr (k, m, here, on, total) ↦ back k m here on other
  ]
]
  where
    edge : lookup same_xid my (insert same_xid my h es) ≡ some h
    edge = ground (arith, lookup-inserted my my h es)

    from_my : (m : ℕ) → walk (insert same_xid my h es) (suc m) my ≢ some my
    from_my m e =
        elim (walk-insert es my h m h (sym (walk-step (insert same_xid my h es) m my edge) ∙ e)) [
          | inl old ↦ free m old
          | inr (k, j, here, on, total) ↦ free k here
        ]

    back :
        (k m : ℕ)
        → walk es k x ≡ some my
        → walk (insert same_xid my h es) m my ≡ some x
        → (x == my) ≡ false
        → ⊥
    back k zero here on other = ground (arith, on)
    back k (suc m) here on other =
        elim (walk-insert es my h m h (sym (walk-step (insert same_xid my h es) m my edge) ∙ on)) [
          | inl old ↦ free (m + k) (walk-add es m k h old ∙ here)
          | inr (j, i, to_my, rest, total) ↦ free j to_my
        ]

pub after_attempt-IsAcyclic :
    (my notify : ℕ) (a : Acquire) (inner : Inner) {r : Round} {inner' : Inner}
    → IsAcyclic inner.wait_for
    → after_attempt my notify (some (a, inner)) ≡ some (r, inner')
    → IsAcyclic inner'.wait_for
unfolding Verdict
after_attempt-IsAcyclic my notify acquired inner {r} {inner'} acyclic h =
    let same : stop_waiting my inner ≡ inner' = cc in
    subst (λ i. IsAcyclic i.wait_for) same (remove-IsAcyclic inner.wait_for my acyclic)
after_attempt-IsAcyclic my notify (conflict holder) inner {r} {inner'} acyclic h =
    elim (check_cycle_exact inner.wait_for my holder) [
      | inl (verdict, reach) ↦
          let same : stop_waiting my inner ≡ inner' = cc in
          subst (λ i. IsAcyclic i.wait_for) same (remove-IsAcyclic inner.wait_for my acyclic)
      | inr (verdict, free) ↦
          let same : start_waiting my holder notify inner ≡ inner' = cc in
          subst (λ i. IsAcyclic i.wait_for) same
            (insert-IsAcyclic inner.wait_for my holder acyclic free)
    ]
