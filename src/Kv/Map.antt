-- ===== src/Kv/Map.antt =====
-- `BTreeMap<Vec<u8>, Vec<u8>>` of Rust's standard library, as the list of its entries in key order.
pub mod Sorted
pub mod Lookup
use crabgresql.Prelude.{
  ◌≡◌, Bool, true, false, not, ◌&&◌, List, [], ◌∷◌, Option, some, none, if◌then◌else◌, All, filter,
}
use crabgresql.Bytes.{Bytes, bytes_eq, lex_lt}

abbrev pub Entries : Type 0
Entries = List (Bytes × Bytes)

unfoldable pub get : Bytes → Entries → Option Bytes
get k [] = none
get k ((j, w) ∷ m) = if bytes_eq k j then some w else get k m

unfoldable pub insert : Bytes → Bytes → Entries → Entries
insert k v [] = (k, v) ∷ []
insert k v ((j, w) ∷ m) =
    if lex_lt k j
    then (k, v) ∷ (j, w) ∷ m
    else if bytes_eq k j
    then (k, v) ∷ m
    else (j, w) ∷ insert k v m

unfoldable pub remove : Bytes → Entries → Entries
remove k = filter (λ e. not (bytes_eq k e.0))

-- `range(start..)` and `range(start..end)`.
unfoldable pub range_from : Bytes → Entries → Entries
range_from start = filter (λ e. not (lex_lt e.0 start))

unfoldable pub range : Bytes → Bytes → Entries → Entries
range start end = filter (λ e. not (lex_lt e.0 start) && lex_lt e.0 end)

-- `Iterator::take_while`.
unfoldable pub take_while : (Bytes × Bytes → Bool) → Entries → Entries
take_while p [] = []
take_while p (e ∷ m) = elim (p e) [ true ↦ e ∷ take_while p m | false ↦ [] ]

-- Every key of the entries lies above `k`.
abbrev pub Above : Bytes → Entries → Type 0
Above k = All (λ e. lex_lt k e.0 ≡ true)

-- The keys increase strictly.
abbrev pub IsSorted : Entries → Type 0
IsSorted [] = Unit
IsSorted (e ∷ m) = Above e.0 m × IsSorted m
