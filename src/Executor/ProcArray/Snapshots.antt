-- ===== src/Executor/ProcArray/Snapshots.antt =====
-- The order of the running ids, and the snapshots of the registry.
use crabgresql.Prelude.{
  ℕ, suc, ◌+◌, ◌^◌, ◌<◌, ◌≤◌, ◌≡◌, refl, inl, inr, true, false, ◌||◌, List, [], ◌∷◌, arith, ltb,
  ◌==◌, Bool-cases, if◌then◌else◌,
}
use crabgresql.Mvcc.Visibility.{contains, is_running}
use crabgresql.Executor.ProcArray.Restart.{next_after-small}
use crabgresql.Executor.ProcArray.{Inner, set_insert, set_remove, snapshot, finish, register}

-- Strictly ascending from `low` on, and below `high`.
abbrev pub Ascends : ℕ → ℕ → List ℕ → Type 0
Ascends low high [] = Unit
Ascends low high (x ∷ xs) = (low ≤ x) × (x < high) × Ascends (suc x) high xs

unfoldable pub IsRegistry : Inner → Type 0
IsRegistry g = (1 ≤ g.next_xid) × Ascends 1 g.next_xid g.running

Ascends-wider :
    (low low' high high' : ℕ) (xs : List ℕ)
    → low' ≤ low
    → high ≤ high'
    → Ascends low high xs
    → Ascends low' high' xs
Ascends-wider low low' high high' [] l h a = tt
Ascends-wider low low' high high' (x ∷ xs) l h a =
    (omega arith, omega arith, Ascends-wider (suc x) (suc x) high high' xs (omega arith) h a.2)

-- The counter's value goes to the end.
insert-Ascends :
    (low next : ℕ) (xs : List ℕ)
    → low ≤ next
    → Ascends low next xs
    → Ascends low (next + 1) (set_insert next xs)
unfolding set_insert
insert-Ascends low next [] l a = (l, omega arith, tt)
insert-Ascends low next (x ∷ xs) l a =
    let above : ltb next x ≡ false = ground arith in
    let apart : (next == x) ≡ false = ground arith in
    rw (set_insert, above, apart)
      (a.0, omega arith, insert-Ascends (suc x) next xs (omega arith) a.2)

remove-Ascends :
    (low high y : ℕ) (xs : List ℕ) → Ascends low high xs → Ascends low high (set_remove y xs)
unfolding set_remove
remove-Ascends low high y [] a = tt
remove-Ascends low high y (x ∷ xs) a = elim (Bool-cases (y == x)) [
  | inl same ↦
      rw (set_remove, same) (Ascends-wider (suc x) low high high xs (omega arith) (omega arith) a.2)
  | inr other ↦ rw (set_remove, other) (a.0, a.1, remove-Ascends (suc x) high y xs a.2)
]

contains-insert : (x y : ℕ) (xs : List ℕ) → contains (set_insert y xs) x ≡ (x == y || contains xs x)
unfolding set_insert
contains-insert x y [] = refl
contains-insert x y (z ∷ zs) = ground (arith, contains-insert x y zs)

not-contains :
    (low high x : ℕ) (xs : List ℕ) → Ascends low high xs → x < low → contains xs x ≡ false
not-contains low high x [] a h = refl
not-contains low high x (y ∷ ys) a h =
    ground (arith, not-contains (suc y) high x ys a.2 (omega arith))

contains-remove :
    (low high x y : ℕ) (xs : List ℕ)
    → Ascends low high xs
    → contains (set_remove y xs) x ≡ (if x == y then false else contains xs x)
unfolding set_remove
contains-remove low high x y [] a = ground arith
contains-remove low high x y (z ∷ zs) a = ground (
  arith,
  contains-remove (suc z) high x y zs a.2,
  not-contains (suc z) high z zs a.2 (omega arith),
)

-- Where the successor of its next id fits 64 bits, a well-formed registry stays so, and the id that it hands out is one that the snapshot just
-- before takes for running and that the snapshot just after takes for running.
pub register-IsRegistry :
    (g : Inner)
    → IsRegistry g
    → g.next_xid + 1 < 2 ^ 64
    → IsRegistry (register g).1
      × (is_running (snapshot g) (register g).0 ≡ true)
      × (is_running (snapshot (register g).1) (register g).0 ≡ true)
unfolding IsRegistry register snapshot is_running
register-IsRegistry g (positive, ordered) small =
    let bump = next_after-small g.next_xid small in
    (
      rw bump (omega arith, insert-Ascends 1 g.next_xid g.running positive ordered),
      ground arith,
      ground (arith, bump, contains-insert g.next_xid g.next_xid g.running),
    )

-- Finishing a transaction takes exactly it out of the running ones of later snapshots.
pub is_running-finish :
    (g : Inner) (xid other : ℕ)
    → IsRegistry g
    → xid < g.next_xid
    → IsRegistry (finish xid g)
      × (is_running (snapshot (finish xid g)) other
          ≡ (if other == xid then false else is_running (snapshot g) other))
unfolding IsRegistry finish snapshot is_running
is_running-finish g xid other (positive, ordered) issued = (
  (positive, remove-Ascends 1 g.next_xid xid g.running ordered),
  ground (arith, contains-remove 1 g.next_xid other xid g.running ordered),
)
