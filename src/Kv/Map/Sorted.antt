-- ===== src/Kv/Map/Sorted.antt =====
-- The operations keep the entries sorted, and on sorted entries a prefix scan reads what it should.
use crabgresql.Prelude.{
  ◌≡◌, refl, true, false, [], ◌∷◌, arith, Bool, Bool-cases, inl, inr, filter, All-filter,
}
use crabgresql.Bytes.{Bytes, bytes_eq, lex_lt, starts_with}
use crabgresql.Bytes.Equality.{bytes_eq_iff}
use crabgresql.Bytes.Order.{lex_lt_trans, lex_lt_connex, starts_with→ge, starts_with_convex}
use crabgresql.Kv.Map.{Entries, Above, IsSorted, insert, remove, range_from, take_while}

Above-trans : (j k : Bytes) (m : Entries) → lex_lt j k ≡ true → Above k m → Above j m
Above-trans j k [] h a = tt
Above-trans j k ((i, w) ∷ m) h a = (lex_lt_trans j k i h a.0, Above-trans j k m h a.1)

Above-insert :
    (j k v : Bytes) (m : Entries) → lex_lt j k ≡ true → Above j m → Above j (insert k v m)
unfolding insert
Above-insert j k v [] h a = (h, tt)
Above-insert j k v ((i, w) ∷ m) h a = elim (Bool-cases (lex_lt k i)) [
  | inl lt ↦ rw lt (h, a)
  | inr ge ↦ rw ge (elim (Bool-cases (bytes_eq k i)) [
    | inl same ↦ rw same (h, a.1)
    | inr other ↦ rw other (a.0, Above-insert j k v m h a.1)
  ])
]

lt_of_ge_ne : (j k : Bytes) → lex_lt k j ≡ false → bytes_eq k j ≡ false → lex_lt j k ≡ true
lt_of_ge_ne j k ge other = ground (arith, lex_lt_connex k j ge, bytes_eq_iff k j)

pub insert-IsSorted : (k v : Bytes) (m : Entries) → IsSorted m → IsSorted (insert k v m)
unfolding insert
insert-IsSorted k v [] s = (tt, tt)
insert-IsSorted k v ((j, w) ∷ m) s = elim (Bool-cases (lex_lt k j)) [
  | inl lt ↦ rw lt ((lt, Above-trans k j m lt s.0), s)
  | inr ge ↦ rw ge (elim (Bool-cases (bytes_eq k j)) [
    | inl same ↦ rw same (rw ((bytes_eq_iff k j).0 same) s.0, s.1)
    | inr other ↦
        rw other (Above-insert j k v m (lt_of_ge_ne j k ge other) s.0, insert-IsSorted k v m s.1)
  ])
]

pub filter-IsSorted : (p : Bytes × Bytes → Bool) (m : Entries) → IsSorted m → IsSorted (filter p m)
filter-IsSorted p [] s = tt
filter-IsSorted p (e ∷ m) s =
    elim (p e) as (λ b. IsSorted (elim b [ true ↦ e ∷ filter p m | false ↦ filter p m ])) [
      | true ↦ (All-filter _ p m s.0, filter-IsSorted p m s.1)
      | false ↦ filter-IsSorted p m s.1
    ]

pub remove-IsSorted : (k : Bytes) (m : Entries) → IsSorted m → IsSorted (remove k m)
unfolding remove
remove-IsSorted k m s = filter-IsSorted _ m s

-- Above a key that lies past the prefix nothing has the prefix.
none_past :
    (p k : Bytes) (m : Entries)
    → Above k m
    → lex_lt k p ≡ false
    → starts_with p k ≡ false
    → filter (λ e. starts_with p e.0) m ≡ []
none_past p k [] a ge out = refl
none_past p k ((j, w) ∷ m) a ge out =
    ground (arith, starts_with_convex p k j ge out a.0, none_past p k m a.1 ge out)

-- On sorted entries the scan from `p` on, ended at the first key without the prefix, reads every
-- entry whose key has the prefix.
pub take_while-range_from :
    (p : Bytes) (m : Entries)
    → IsSorted m
    → take_while (λ e. starts_with p e.0) (range_from p m) ≡ filter (λ e. starts_with p e.0) m
unfolding take_while range_from
take_while-range_from p [] s = refl
take_while-range_from p ((k, v) ∷ m) s =
    let rest = take_while-range_from p m s.1 in
    elim (Bool-cases (starts_with p k)) [
      | inl inside ↦ ground (arith, starts_with→ge p k inside, rest)
      | inr outside ↦ elim (Bool-cases (lex_lt k p)) [
        | inl below ↦ ground (arith, rest)
        | inr past ↦ ground (arith, none_past p k m s.0 past outside)
      ]
    ]
