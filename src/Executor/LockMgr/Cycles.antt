-- ===== src/Executor/LockMgr/Cycles.antt =====
-- The check for cycles against walks in the wait-for graph, and its fuel.
use crabgresql.Prelude.{
  ℕ, zero, suc, ◌≤◌, ◌<◌, ◌≡◌, ◌≢◌, refl, ◌∙◌, ◌⊎◌, inl, inr, true, false, List, [], ◌∷◌, Option,
  none, some, arith, ◌==◌, length, Bool-cases, Option-cases, if◌then◌else◌,
}
use crabgresql.Prelude.HashMap.{lookup, has}
use crabgresql.Executor.LockMgr.{
  Edges, same_xid, CycleCheck, deadlock, no_cycle, check_cycle_from, check_cycle,
}

-- Following `n` edges from `x`.
unfoldable pub walk : Edges → ℕ → ℕ → Option ℕ
walk wait_for zero x = some x
walk wait_for (suc n) x = elim (lookup same_xid x wait_for) [
  | none ↦ none
  | some y ↦ walk wait_for n y
]

pub walk-step :
    (es : Edges) (n x : ℕ) {y : ℕ} → lookup same_xid x es ≡ some y → walk es (suc n) x ≡ walk es n y
unfolding walk
walk-step es n x edge = rw (walk, edge) refl

pub walk-last : (es : Edges) (n x : ℕ) → lookup same_xid x es ≡ none → walk es (suc n) x ≡ none
unfolding walk
walk-last es n x last = rw (walk, last) refl

-- The edges of transactions that the check has not seen.
unseen : List ℕ → Edges → ℕ
unseen seen [] = 0
unseen seen ((x, y) ∷ es) = if has x seen then unseen seen es else suc (unseen seen es)

unseen-le : (seen : List ℕ) (c : ℕ) (es : Edges) → unseen (c ∷ seen) es ≤ unseen seen es
unfolding unseen
unseen-le seen c [] = omega arith
unseen-le seen c ((x, y) ∷ es) = ground (arith, unseen-le seen c es)

unseen-lt :
    (seen : List ℕ) (c : ℕ) {next : ℕ} (es : Edges)
    → has c seen ≡ false
    → lookup same_xid c es ≡ some next
    → unseen (c ∷ seen) es < unseen seen es
unfolding unseen lookup
unseen-lt seen c [] new h = absurd cc
unseen-lt seen c {next} ((x, y) ∷ es) new h = elim (Bool-cases (c == x)) [
  | inl same ↦ let e : c ≡ x = ground (arith, same) in ground (arith, unseen-le seen c es, e, new)
  | inr other ↦
      let rest : lookup same_xid c es ≡ some next = ground (arith, other) in
      ground (arith, unseen-lt seen c es new rest, other)
]

unseen-length : (es : Edges) → unseen [] es ≤ length es
unfolding unseen
unseen-length [] = omega arith
unseen-length ((x, y) ∷ es) = ground (arith, unseen-length es)

module _ (wait_for : Edges) (my_xid : ℕ) where
  -- The waits from `x` on come to `my_xid`.
  unfoldable pub Reaches : ℕ → Type 0
  Reaches x = (n : ℕ) × (walk wait_for n x ≡ some my_xid)

  -- Some seen transaction is one whose waits come to `my_xid` if those of `cur` do.
  SeenWait : List ℕ → ℕ → Type 0
  SeenWait seen cur =
      (x : ℕ)
      → has x seen ≡ true
      → (x ≢ my_xid)
        × (y : ℕ) × (lookup same_xid x wait_for ≡ some y)
        × ((has y seen ≡ true) ⊎ (y ≡ cur))

  -- Walks from a closed set of seen transactions stay in it.
  closed_walk :
      (seen : List ℕ) (cur : ℕ)
      → SeenWait seen cur
      → has cur seen ≡ true
      → (n x : ℕ) → has x seen ≡ true
      → walk wait_for n x ≢ some my_xid
  unfolding SeenWait walk
  closed_walk seen cur w c zero x hx e = (w x hx).0 (ground arith)
  closed_walk seen cur w c (suc n) x hx e =
      let (apart, y, edge, place) = w x hx in
      elim place [
        | inl again ↦ closed_walk seen cur w c n y again (ground (arith, edge, e))
        | inr back ↦
            closed_walk seen cur w c n y (ground (arith, back, c)) (ground (arith, edge, e))
      ]

  SeenWait-step :
      (seen : List ℕ) (cur next : ℕ)
      → SeenWait seen cur
      → cur ≢ my_xid
      → lookup same_xid cur wait_for ≡ some next
      → SeenWait (cur ∷ seen) next
  unfolding SeenWait
  SeenWait-step seen cur next w apart edge x hx = elim (Bool-cases (x == cur)) [
    | inl same ↦ let e : x ≡ cur = ground (arith, same) in rw e (apart, next, edge, inr refl)
    | inr other ↦
        let (apart', y, edge', place) = w x (ground (arith, other, hx)) in
        (
          apart',
          y,
          edge',
          elim place [
            | inl again ↦ inl (ground (arith, again))
            | inr here ↦ inl (ground (arith, here))
          ],
        )
  ]

  -- What the check may answer.
  unfoldable pub Verdict : ℕ → Option CycleCheck → Type 0
  Verdict x r =
      ((r ≡ some deadlock) × Reaches x)
      ⊎ ((r ≡ some no_cycle) × ((n : ℕ) → walk wait_for n x ≢ some my_xid))

  Verdict-step :
      (cur next : ℕ) (r : Option CycleCheck)
      → cur ≢ my_xid
      → lookup same_xid cur wait_for ≡ some next
      → Verdict next r
      → Verdict cur r
  unfolding Verdict Reaches walk
  Verdict-step cur next r apart edge (inl (d, (n, reach))) =
      inl (d, (suc n, walk-step wait_for n cur edge ∙ reach))
  Verdict-step cur next r apart edge (inr (o, never)) = inr (o, λ n e. go n e)
    where
      go : (n : ℕ) → walk wait_for n cur ≢ some my_xid
      go zero e = apart (ground arith)
      go (suc n) e = never n (ground (arith, edge, e))

  never :
      (x : ℕ)
      → x ≢ my_xid
      → lookup same_xid x wait_for ≡ none
      → (n : ℕ) → walk wait_for n x ≢ some my_xid
  unfolding walk
  never x apart last zero e = apart (ground arith)
  never x apart last (suc n) e = absurd (ground (arith, last, e))

  check_cycle_from_exact :
      (fuel cur : ℕ) (seen : List ℕ)
      → unseen seen wait_for < fuel
      → SeenWait seen cur
      → Verdict cur (check_cycle_from fuel wait_for cur seen my_xid)
  unfolding check_cycle_from Verdict Reaches walk SeenWait
  check_cycle_from_exact zero cur seen h w = absurd (omega arith)
  check_cycle_from_exact (suc fuel) cur seen h w = elim (Bool-cases (cur == my_xid)) [
    | inl mine ↦ rw mine (inl (refl, (0, ground (arith, mine))))
    | inr other ↦ elim (Bool-cases (has cur seen)) [
      | inl again ↦ rw other (rw again (inr (refl, λ n. closed_walk seen cur w again n cur again)))
      | inr new ↦ elim (Option-cases (lookup same_xid cur wait_for)) [
        | inl last ↦
            rw other (rw new (rw last (inr (refl, never cur (ground (arith, other)) last))))
        | inr (next, edge) ↦
            let apart : cur ≢ my_xid = ground (arith, other) in
            rw other (
              rw new (
                rw edge (
                  Verdict-step cur next _ apart edge (
                    check_cycle_from_exact fuel next (cur ∷ seen)
                      (ground (arith, unseen-lt seen cur wait_for new edge))
                      (SeenWait-step seen cur next w apart edge)))))
      ]
    ]
  ]

  -- The check always answers, a deadlock exactly where the waits of the holder come to the asking
  -- transaction.
  pub check_cycle_exact : (holder : ℕ) → Verdict holder (check_cycle wait_for holder my_xid)
  unfolding check_cycle SeenWait
  check_cycle_exact holder =
      check_cycle_from_exact (suc (length wait_for)) holder []
        (ground (arith, unseen-length wait_for)) (λ x hx. absurd cc)
