-- ===== src/Mvcc/Visibility/Verdict.antt =====
-- What the visibility test decides.
use crabgresql.Prelude.{
  ℕ, ◌≡◌, ◌↔◌, ◌⊎◌, inl, inr, refl, Bool, true, false, Option, none, some, Result, ok, err, arith,
  ◌==◌, Bool-cases, >>=-eq-ok, ◌>>=◌, not,
}
use crabgresql.Kv.Error.{KvError}
use crabgresql.Mvcc.Clog.{XidStatus, committed, aborted, in_progress, prepared}
use crabgresql.Mvcc.Visibility.{
  Snapshot, is_running, is_own, is_committed, committed_visible, not_deleted, satisfies_mvcc,
  invalid_xid,
}

-- The effects of a transaction that a snapshot sees: the reader's own, and those of a transaction
-- that was not running and that the log calls committed.
unfoldable pub Sees : Snapshot → Option ℕ → (ℕ → Result KvError XidStatus) → ℕ → Type 0
Sees snapshot own status xid =
    (own ≡ some xid) ⊎ ((is_running snapshot xid ≡ false) × (status xid ≡ ok committed))

pub is_own_iff : (own : Option ℕ) (xid : ℕ) → (is_own own xid ≡ true) ↔ (own ≡ some xid)
is_own_iff none xid = (λ h. absurd cc, λ h. absurd cc)
is_own_iff (some o) xid = ((λ h. ground arith), λ h. ground arith)

-- What the log is asked about.
committed_iff : (st : XidStatus) → (is_committed st ≡ true) ↔ (st ≡ committed)
committed_iff committed = ((λ h. refl), λ h. refl)
committed_iff aborted = ((λ h. absurd cc), λ h. absurd cc)
committed_iff in_progress = ((λ h. absurd cc), λ h. absurd cc)
committed_iff (prepared g) = ((λ h. absurd cc), λ h. absurd cc)

settled_iff :
    (r : Result KvError XidStatus)
    → ((do st ← r; ok (is_committed st)) ≡ ok true) ↔ (r ≡ ok committed)
settled_iff (ok st) =
    ((λ h. ground (arith, committed_iff st)), λ h. ground (arith, committed_iff st))
settled_iff (err e) = ((λ h. absurd cc), λ h. absurd cc)

unseen : (r : Result KvError Bool) → ((do d ← r; ok (not d)) ≡ ok true) → r ≡ ok false
unseen (ok true) h = absurd cc
unseen (ok false) h = refl
unseen (err e) h = absurd cc

pub committed_visible→Sees :
    (xid : ℕ) (snapshot : Snapshot) (own : Option ℕ) (status : ℕ → Result KvError XidStatus)
    → committed_visible xid snapshot own status ≡ ok true
    → Sees snapshot own status xid
unfolding Sees committed_visible
committed_visible→Sees xid snapshot own status h = elim (Bool-cases (is_own own xid)) [
  | inl mine ↦ inl ((is_own_iff own xid).0 mine)
  | inr other ↦ elim (Bool-cases (is_running snapshot xid)) [
    | inl runs ↦ absurd (ground arith)
    | inr done ↦ inr (done, (settled_iff (status xid)).0 (ground arith))
  ]
]

pub Sees→committed_visible :
    (xid : ℕ) (snapshot : Snapshot) (own : Option ℕ) (status : ℕ → Result KvError XidStatus)
    → Sees snapshot own status xid
    → committed_visible xid snapshot own status ≡ ok true
unfolding Sees committed_visible
Sees→committed_visible xid snapshot own status (inl mine) = rw ((is_own_iff own xid).1 mine) refl
Sees→committed_visible xid snapshot own status (inr (done, st)) =
    elim (Bool-cases (is_own own xid)) [
      | inl mine ↦ rw mine refl
      | inr other ↦ rw other (rw done (rw st refl))
    ]

sees :
    (xmin xmax : ℕ) (snapshot : Snapshot) (own : Option ℕ) (status : ℕ → Result KvError XidStatus)
    → satisfies_mvcc xmin xmax snapshot own status ≡ ok true
    → Sees snapshot own status xmin
      × ((xmax ≡ invalid_xid) ⊎ (committed_visible xmax snapshot own status ≡ ok false))
unfolding satisfies_mvcc not_deleted
sees xmin xmax snapshot own status h =
    let (created, made, rest) = >>=-eq-ok (committed_visible xmin snapshot own status) _ h in
    elim (Bool-cases created) [
      | inl sees_it ↦ (
        committed_visible→Sees xmin snapshot own status (ground (arith, made, sees_it)),
        elim (Bool-cases (xmax == invalid_xid)) [
          | inl never ↦ inl (ground (arith, never))
          | inr some_xid ↦ inr (
              unseen (committed_visible xmax snapshot own status)
                (ground (arith, some_xid, sees_it, rest)))
        ],
      )
      | inr hidden ↦ absurd (ground (arith, hidden, rest))
    ]

-- A reader sees a version when it sees its creator, and when no deleter is recorded or the
-- recorded one is decidedly not seen: the test answers `true` for that, with no error from the log.
pub satisfies_mvcc_iff :
    (xmin xmax : ℕ) (snapshot : Snapshot) (own : Option ℕ) (status : ℕ → Result KvError XidStatus)
    → (satisfies_mvcc xmin xmax snapshot own status ≡ ok true) ↔ (
        Sees snapshot own status xmin
        × ((xmax ≡ invalid_xid) ⊎ (committed_visible xmax snapshot own status ≡ ok false)))
unfolding satisfies_mvcc not_deleted
satisfies_mvcc_iff xmin xmax snapshot own status = (
  (λ h. sees xmin xmax snapshot own status h),
  λ (made, kept).
      rw (Sees→committed_visible xmin snapshot own status made)
        (elim kept [ inl never ↦ ground arith | inr unseen ↦ ground (arith, unseen) ]),
)
