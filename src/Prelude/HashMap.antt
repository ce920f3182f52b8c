-- ===== src/Prelude/HashMap.antt =====
-- `HashMap` of Rust's standard library as the list of its entries, given the equality test of the
-- keys; `HashSet<u64>` as the list of its members.
use Prim.Native.Nat.{ℕ}
use mathlib.Core.Path.{◌≡◌, refl}
use mathlib.Core.Logic.{◌↔◌, inl, inr}
use mathlib.Core.Bool.{Bool, true, false, not, ◌||◌}
use mathlib.Core.Option.{Option, none, some}
use mathlib.Core.List.{List, [], ◌∷◌}
use native.Mathlib.Omega.{arith}
use crabgresql.Prelude.Tests.{if◌then◌else◌, ◌==◌, Bool-cases}
use crabgresql.Prelude.Lists.{filter, All}

module _ {K : Type 0} {V : Type 0} (eq : K → K → Bool) where
  unfoldable pub lookup : K → List (K × V) → Option V
  lookup k [] = none
  lookup k ((j, v) ∷ m) = if eq k j then some v else lookup k m

  unfoldable pub insert : K → V → List (K × V) → List (K × V)
  insert k v [] = (k, v) ∷ []
  insert k v ((j, w) ∷ m) = if eq k j then (k, v) ∷ m else (j, w) ∷ insert k v m

  unfoldable pub remove : K → List (K × V) → List (K × V)
  remove k = filter (λ e. not (eq k e.0))

  pub lookup-insert :
      ((a b : K) → (eq a b ≡ true) ↔ (a ≡ b))
      → (j k : K) (v : V) (m : List (K × V))
      → lookup j (insert k v m) ≡ (if eq j k then some v else lookup j m)
  unfolding lookup insert
  lookup-insert iff j k v [] = refl
  lookup-insert iff j k v ((i, w) ∷ m) =
      ground (arith, iff k i, iff j k, iff j i, lookup-insert iff j k v m)

  pub lookup-remove :
      ((a b : K) → (eq a b ≡ true) ↔ (a ≡ b))
      → (j k : K) (m : List (K × V)) → lookup j (remove k m) ≡ (if eq j k then none else lookup j m)
  unfolding lookup remove
  lookup-remove iff j k [] = ground arith
  lookup-remove iff j k ((i, w) ∷ m) =
      ground (arith, iff k i, iff j k, iff j i, lookup-remove iff j k m)

  -- What holds of every entry holds of the one that a lookup finds.
  pub All-lookup {κ} :
      (P : K × V → Type κ) (iff : (a b : K) → (eq a b ≡ true) ↔ (a ≡ b)) (k : K) (m : List (K × V))
      {v : V}
      → All P m
      → lookup k m ≡ some v
      → P (k, v)
  unfolding lookup
  All-lookup P iff k [] all h = absurd cc
  All-lookup P iff k ((j, w) ∷ m) {v} all h = elim (Bool-cases (eq k j)) [
    | inl same ↦
        let key : k ≡ j = (iff k j).0 same in
        let value : w ≡ v = ground (arith, same) in rw key (rw (← value) all.0)
    | inr other ↦ All-lookup P iff k m all.1 (ground (arith, other))
  ]

  pub All-insert {κ} :
      (P : K × V → Type κ) (k : K) (v : V) (m : List (K × V))
      → P (k, v)
      → All P m
      → All P (insert k v m)
  unfolding insert
  All-insert P k v [] p all = (p, tt)
  All-insert P k v ((j, w) ∷ m) p all =
      elim (eq k j) as (λ b. All P (if b then (k, v) ∷ m else (j, w) ∷ insert k v m)) [
        | true ↦ (p, all.1)
        | false ↦ (all.0, All-insert P k v m p all.1)
      ]

-- `HashSet<u64>`: membership, insertion and removal.
abbrev pub has : ℕ → List ℕ → Bool
has x [] = false
has x (y ∷ ys) = x == y || has x ys

abbrev pub add : ℕ → List ℕ → List ℕ
add x ys = if has x ys then ys else x ∷ ys

abbrev pub discard : ℕ → List ℕ → List ℕ
discard x = filter (λ y. not (x == y))

-- No member is listed twice.
abbrev pub Distinct : List ℕ → Type 0
Distinct [] = Unit
Distinct (x ∷ xs) = (has x xs ≡ false) × Distinct xs

pub has-discard :
    (x y : ℕ) (ys : List ℕ) → has x (discard y ys) ≡ (if x == y then false else has x ys)
has-discard x y [] = ground arith
has-discard x y (z ∷ zs) = ground (arith, has-discard x y zs)

pub discard-Distinct : (x : ℕ) (ys : List ℕ) → Distinct ys → Distinct (discard x ys)
discard-Distinct x [] d = tt
discard-Distinct x (y ∷ ys) d =
    elim (x == y)
      as (λ b. Distinct (elim (not b) [ true ↦ y ∷ discard x ys | false ↦ discard x ys ])) [
        | true ↦ discard-Distinct x ys d.1
        | false ↦ (ground (arith, has-discard y x ys, d.0), discard-Distinct x ys d.1)
      ]
