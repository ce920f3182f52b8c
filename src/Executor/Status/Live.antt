-- ===== src/Executor/Status/Live.antt =====
-- The version of a row that a statement works on.
use crabgresql.Prelude.{
  ℕ, ◌≤◌, ◌≡◌, refl, ◌⊎◌, true, List, [], ◌∷◌, Option, none, some, Result, ok, All, arith,
  Bool-cases, >>=-eq-ok, inl, inr, ltb,
}
use mathlib.Core.List.{Memᴰ}
use mathlib.Core.List.Memᴰ.{head, tail}
use crabgresql.Kv.Error.{KvError}
use crabgresql.Mvcc.Clog.{XidStatus}
use crabgresql.Mvcc.Visibility.{Snapshot, satisfies_mvcc}
use crabgresql.Executor.Status.{keep_greatest, find_visible_from, find_visible_one}

module _ {Row : Type 0} where
  -- The version found is at least as young as one created by `x`.
  pub Bounds : Option (ℕ × Row) → ℕ → Type 0
  Bounds none x = ⊥
  Bounds (some (y, row)) x = x ≤ y

  Bounds-keep_greatest :
      (x : ℕ) (row : Row) (acc : Option (ℕ × Row)) → Bounds (keep_greatest x row acc) x
  unfolding Bounds keep_greatest
  Bounds-keep_greatest x row none = omega arith
  Bounds-keep_greatest x row (some (y, old)) = elim (Bool-cases (ltb y x)) [
    | inl lt ↦ rw lt (omega arith)
    | inr ge ↦ rw ge (ground arith)
  ]

  Bounds-keep_greatest_old :
      (x : ℕ) (row : Row) (acc : Option (ℕ × Row)) (z : ℕ)
      → Bounds acc z
      → Bounds (keep_greatest x row acc) z
  unfolding Bounds keep_greatest
  Bounds-keep_greatest_old x row none z h = absurd h
  Bounds-keep_greatest_old x row (some (y, old)) z h = elim (Bool-cases (ltb y x)) [
    | inl lt ↦ rw lt (ground arith)
    | inr ge ↦ rw ge h
  ]

  keep_greatest_choice :
      (x : ℕ) (row : Row) (acc : Option (ℕ × Row))
      → (keep_greatest x row acc ≡ acc) ⊎ (keep_greatest x row acc ≡ some (x, row))
  unfolding keep_greatest
  keep_greatest_choice x row none = inr refl
  keep_greatest_choice x row (some (y, old)) = elim (Bool-cases (ltb y x)) [
    | inl lt ↦ inr (rw lt refl)
    | inr ge ↦ inl (rw ge refl)
  ]

module _ {Row : Type 0} (snap : Snapshot) (own : Option ℕ)
    (status : ℕ → Result KvError XidStatus) where
  pub IsLive : ℕ × ℕ × Row → Type 0
  IsLive v = satisfies_mvcc v.0 v.1 snap own status ≡ ok true

  -- What was found is one of the versions, and it is live.
  pub Found : List (ℕ × ℕ × Row) → Option (ℕ × Row) → Type 0
  Found versions r =
      (x : ℕ) × (xmax : ℕ) × (row : Row) × (r ≡ some (x, row))
      × Memᴰ (x, xmax, row) versions
      × IsLive (x, xmax, row)

  -- Where the loop comes to, from what it had.
  Outcome : List (ℕ × ℕ × Row) → Option (ℕ × Row) → Option (ℕ × Row) → Type 0
  Outcome versions acc r =
      ((z : ℕ) → Bounds acc z → Bounds r z)
      × All (λ v. IsLive v → Bounds r v.0) versions
      × ((r ≡ acc) ⊎ Found versions r)

  Found-tail :
      (x xmax : ℕ) (row : Row) (versions : List (ℕ × ℕ × Row)) (r : Option (ℕ × Row))
      → Found versions r
      → Found ((x, xmax, row) ∷ versions) r
  unfolding Found
  Found-tail x xmax row versions r (y, ymax, found, e, m, l) = (y, ymax, found, e, tail m, l)

  find_visible_from-Outcome :
      (versions : List (ℕ × ℕ × Row)) (acc r : Option (ℕ × Row))
      → find_visible_from snap own status versions acc ≡ ok r
      → Outcome versions acc r
  unfolding Outcome find_visible_from Found IsLive
  find_visible_from-Outcome [] acc r h =
      let same : r ≡ acc = cc in (rw same (λ z b. b), tt, inl same)
  find_visible_from-Outcome ((x, xmax, row) ∷ versions) acc r h =
      let (live, e, rest) = >>=-eq-ok (satisfies_mvcc x xmax snap own status) _ h in
      elim (Bool-cases live) [
        | inl shows ↦
            let (below, each, source) =
              find_visible_from-Outcome versions (keep_greatest x row acc) r
                (ground (arith, shows, rest)) in
            (
              λ z b. below z (Bounds-keep_greatest_old x row acc z b),
              (λ l. below x (Bounds-keep_greatest x row acc), each),
              elim source [
                | inl kept ↦ elim (keep_greatest_choice x row acc) [
                  | inl old ↦ inl cc
                  | inr new ↦ inr (x, xmax, row, cc, head refl, cc)
                ]
                | inr later ↦ inr (Found-tail x xmax row versions r later)
              ],
            )
        | inr hides ↦
            let (below, each, source) =
              find_visible_from-Outcome versions acc r (ground (arith, hides, rest)) in
            (
              below,
              (λ l. absurd (ground (arith, hides, e, l)), each),
              elim source [
                | inl kept ↦ inl kept
                | inr later ↦ inr (Found-tail x xmax row versions r later)
              ],
            )
      ]

  -- Where the search returns, the version found is a live one of the versions and no live version is
  -- younger; where none is found, none is live (`Bounds none` holds of nothing).
  pub find_visible_one_greatest :
      (versions : List (ℕ × ℕ × Row)) (r : Option (ℕ × Row))
      → find_visible_one snap own status versions ≡ ok r
      → All (λ v. IsLive v → Bounds r v.0) versions × ((r ≡ none) ⊎ Found versions r)
  unfolding Outcome find_visible_one
  find_visible_one_greatest versions r h =
      let (below, each, source) = find_visible_from-Outcome versions none r h in (each, source)
