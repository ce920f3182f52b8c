-- ===== src/Executor/Scope/Resolved.antt =====
-- A column reference against the number of the columns that it fits.
use crabgresql.Prelude.{
  ℕ, suc, ◌+◌, ◌<◌, ◌≡◌, refl, not, [], ◌∷◌, Option, some, none, ok, err, arith, length, ◌==◌,
  if◌then◌else◌,
}
use crabgresql.Bytes.{Bytes}
use crabgresql.Executor.Error.{undefined_column, ambiguous_column, missing_from_entry}
use crabgresql.Executor.Scope.{
  Scope, is_named, any_qualified, search, or_undefined, find_column, resolve,
}

-- The number of the columns of this name, and the index of the first.
unfoldable pub count : Option Bytes → Bytes → Scope → ℕ
count q name [] = 0
count q name (c ∷ cs) = if is_named q name c then suc (count q name cs) else count q name cs

unfoldable pub index : Option Bytes → Bytes → Scope → ℕ
index q name [] = 0
index q name (c ∷ cs) = if is_named q name c then 0 else suc (index q name cs)

search-some :
    (q : Option Bytes) (name : Bytes) (i j : ℕ) (cs : Scope)
    → search q name i (some j) cs
      ≡ (if count q name cs == 0 then ok (some j) else err (ambiguous_column name))
unfolding search count
search-some q name i j [] = refl
search-some q name i j (c ∷ cs) = ground (arith, search-some q name (suc i) j cs)

search-none :
    (q : Option Bytes) (name : Bytes) (i : ℕ) (cs : Scope)
    → search q name i none cs ≡ (
        if count q name cs == 0
        then ok none
        else if count q name cs == 1
        then ok (some (i + index q name cs))
        else err (ambiguous_column name))
unfolding search count index
search-none q name i [] = refl
search-none q name i (c ∷ cs) =
    ground (arith, search-none q name (suc i) cs, search-some q name (suc i) i cs)

-- A reference is an error where its qualifier stands at no column, where no column fits it and where
-- several do; else it is the index of the one column that fits it.
pub resolve-Unique :
    (scope : Scope) (name : Bytes)
    → (resolve scope none name ≡ (
        if count none name scope == 0
        then err (undefined_column name)
        else if count none name scope == 1
        then ok (index none name scope)
        else err (ambiguous_column name)))
      × ((q : Bytes)
          → resolve scope (some q) name ≡ (
              if not (any_qualified q scope)
              then err (missing_from_entry q)
              else if count (some q) name scope == 0
              then err (undefined_column name)
              else if count (some q) name scope == 1
              then ok (index (some q) name scope)
              else err (ambiguous_column name)))
unfolding resolve find_column or_undefined
resolve-Unique scope name = (
  ground (arith, search-none none name 0 scope),
  λ q. ground (arith, search-none (some q) name 0 scope),
)

-- The index is that of a column of the scope.
pub index-lt :
    (q : Option Bytes) (name : Bytes) (cs : Scope)
    → 0 < count q name cs
    → index q name cs < length cs
unfolding count index
index-lt q name [] h = omega arith
index-lt q name (c ∷ cs) h = ground (arith, index-lt q name cs, h)
