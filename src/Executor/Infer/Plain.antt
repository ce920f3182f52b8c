-- ===== src/Executor/Infer/Plain.antt =====
-- The expressions whose values have their static types.
use crabgresql.Prelude.{ℕ, ◌≡◌, Bool, true, List, ◌⊎◌, some, ok, arith}
use crabgresql.Pgtypes.ColumnType.{ColumnType}
use crabgresql.Pgtypes.Datum
use crabgresql.Pgtypes.Datum.{Datum}
use crabgresql.Pgtypes.Crates.{Crates}
use crabgresql.Pgtypes.Ops.{Value}
use crabgresql.Pgparser.Ast.{
  Expr, unary, binary, func, case_of, cast, const, Whens, no_when, when, MaybeExpr, absent, present,
}
use crabgresql.Executor.Scope.{Scope, ty_at}
use crabgresql.Executor.Eval.Tree.{value_at}
use crabgresql.Executor.Infer.{TypeHost, same_type, is_null_literal, infer_type}
use crabgresql.Executor.Infer.Values.{has_type}

-- Two types of the same values: modifiers of `numeric` aside, the same.
unfoldable pub alike : ColumnType → ColumnType → Bool
alike (ColumnType.numeric _) (ColumnType.numeric _) = true
alike s t = same_type s t

pub alike-has_type :
    (S : Datum.Scalars) (s t : ColumnType) (v : Datum S)
    → alike s t ≡ true
    → has_type s v ≡ true
    → has_type t v ≡ true
unfolding alike same_type has_type
alike-has_type S s t v a f = ground (arith, a, f)

module _ (C : Crates) {Query : Type 0} (types : TypeHost C.scalars Query) (scope : Scope) where
  abbrev Tree : Type 0
  Tree = Expr C.scalars Query

  -- A branch of a CASE of this type: a bare NULL, or plain and of this type.
  abbrev pub Branch : Type 0 → ColumnType → Tree → Type 0
  Branch IsPlain t e =
      (is_null_literal e ≡ true)
      ⊎ IsPlain × (s : ColumnType) × (infer_type C types scope e ≡ ok s) × (alike s t ≡ true)

  -- An expression without functions and casts, those in the operands of predicates and the conditions
  -- of CASE aside, whose constants have their declared types, and in whose CASE each branch is a bare
  -- NULL or has the type that the branches unify to.
  unfoldable mutual
    pub Plain : Tree → Type 0
    Plain (unary op e) = Plain e
    Plain (binary op l r) = Plain l × Plain r
    Plain (func name distinct args) = ⊥
    Plain (cast e ty) = ⊥
    Plain (const value ty) = has_type ty value ≡ true
    Plain (case_of operand whens otherwise) =
        (t : ColumnType)
        → infer_type C types scope (case_of operand whens otherwise) ≡ ok t
        → PlainWhens t whens × PlainElse t otherwise
    Plain _ = Unit

    pub PlainWhens : ColumnType → Whens C.scalars Query → Type 0
    PlainWhens t no_when = Unit
    PlainWhens t (when cond result whens) = Branch (Plain result) t result × PlainWhens t whens

    pub PlainElse : ColumnType → MaybeExpr C.scalars Query → Type 0
    PlainElse t absent = Unit
    PlainElse t (present e) = Branch (Plain e) t e

-- The values of a row have the types of their columns.
abbrev pub RowTyped : (C : Crates) → Scope → List (Value C) → Type 0
RowTyped C scope values =
    (i : ℕ) (t : ColumnType) (v : Value C)
    → ty_at scope i ≡ some t
    → value_at values i ≡ some v
    → has_type t v ≡ true
