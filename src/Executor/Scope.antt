-- ===== src/Executor/Scope.antt =====
-- crates/executor/src/scope.rs
pub mod Resolved
use crabgresql.Prelude.{
  ℕ, zero, suc, ◌+◌, Bool, true, false, not, ◌&&◌, ◌||◌, List, [], ◌∷◌, map, Option, some, none,
  Result, ok, err, length, if◌then◌else◌,
}
use crabgresql.Bytes.{Bytes, bytes_eq}
use crabgresql.Pgtypes.ColumnType.{ColumnType}
use crabgresql.Catalog.Serde.{Column}
use crabgresql.Executor.Error.{ExecError, undefined_column, ambiguous_column, missing_from_entry}

pub record ColumnBinding : Type 0 where
  pub qualifier : Option Bytes
  pub name : Bytes
  pub ty : ColumnType

abbrev pub Scope : Type 0
Scope = List ColumnBinding

-- `Scope::single`, on the columns of a table.
unfoldable pub single : List Column → Bytes → Scope
single columns q = map (λ c. record { qualifier = some q; name = c.name; ty = c.ty }) columns

-- `ty_at`; `none` is a panic.
unfoldable pub ty_at : Scope → ℕ → Option ColumnType
ty_at [] i = none
ty_at (c ∷ cs) zero = some c.ty
ty_at (c ∷ cs) (suc i) = ty_at cs i

-- `c.qualifier.as_deref() == Some(q)`.
unfoldable pub qualified_by : Bytes → ColumnBinding → Bool
qualified_by q c = elim c.qualifier [ none ↦ false | some p ↦ bytes_eq p q ]

-- `qualifier.is_none_or(..) && c.name == name`.
unfoldable pub is_named : Option Bytes → Bytes → ColumnBinding → Bool
is_named none name c = bytes_eq c.name name
is_named (some q) name c = qualified_by q c && bytes_eq c.name name

-- `columns.iter().any(..)`.
unfoldable pub any_qualified : Bytes → Scope → Bool
any_qualified q [] = false
any_qualified q (c ∷ cs) = qualified_by q c || any_qualified q cs

-- The loop over the columns, from index `i`, with the index found so far.
unfoldable pub search : Option Bytes → Bytes → ℕ → Option ℕ → Scope → Result ExecError (Option ℕ)
search q name i found [] = ok found
search q name i none (c ∷ cs) =
    search q name (suc i) (if is_named q name c then some i else none) cs
search q name i (some j) (c ∷ cs) =
    let rest = search q name (suc i) (some j) cs in
    if is_named q name c then err (ambiguous_column name) else rest

-- `found.ok_or_else(..)`.
unfoldable pub or_undefined : Bytes → Result ExecError (Option ℕ) → Result ExecError ℕ
or_undefined name (err e) = err e
or_undefined name (ok none) = err (undefined_column name)
or_undefined name (ok (some i)) = ok i

unfoldable pub find_column : Option Bytes → Bytes → Scope → Result ExecError ℕ
find_column q name scope = or_undefined name (search q name 0 none scope)

unfoldable pub resolve : Scope → Option Bytes → Bytes → Result ExecError ℕ
resolve scope none name = find_column none name scope
resolve scope (some q) name =
    if not (any_qualified q scope)
    then err (missing_from_entry q)
    else find_column (some q) name scope
