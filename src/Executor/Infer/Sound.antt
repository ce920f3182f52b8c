-- ===== src/Executor/Infer/Sound.antt =====
-- The static type of an expression and the value of its evaluation.
use crabgresql.Prelude.{
  ℕ, zero, suc, ◌≡◌, refl, true, List, Option, Result, ok, err, arith, ok-inj, ok_or-eq-ok, ◌>>=◌,
  >>=-eq-ok, Bool-cases, inl, inr,
}
use crabgresql.Pgtypes.ColumnType.{ColumnType}
use crabgresql.Pgtypes.Crates.{Crates}
use crabgresql.Pgtypes.Ops.{Value}
use crabgresql.Pgtypes.Ops.Literals
use crabgresql.Pgtypes.Ops.Logic
use crabgresql.Pgparser.Ast.{
  logical_not, neg, BinaryOp, Expr, int_literal, numeric_literal, string_literal, bool_literal,
  null_literal, column, param, unary, binary, func, is_null, in_list, between, like, case_of, cast,
  scalar_subquery, exists, in_subquery, quantified, const, Whens, no_when, when, MaybeExpr, absent,
  present,
}
use crabgresql.Executor.Error.{ExecError, panics}
use crabgresql.Executor.Scope.{Scope, resolve, ty_at}
use crabgresql.Executor.Eval.{exec, lift, Host}
use crabgresql.Executor.Eval.Operators.{apply_unary, apply_binary}
use crabgresql.Executor.Eval.Tree.{value_at, max_eval_depth, eval_depth, eval}
use crabgresql.Executor.Infer.{TypeHost, literal_type, types_operands, is_null_literal, infer_type}
use crabgresql.Executor.Infer.Values.{has_type}
use crabgresql.Executor.Infer.Numbers.{has_type-null}
use crabgresql.Executor.Infer.Applied.{
  lift-eq-ok, not_typed, neg_typed, apply_binary_typed, apply_binary_bool,
}
use crabgresql.Executor.Infer.Branches.{
  Gives, GiveWhens, GivesElse, eval_in_list_typed, eval_between_typed, eval_like_typed,
  eval_case_typed,
}
use crabgresql.Executor.Infer.Plain.{alike-has_type, Branch, Plain, PlainWhens, PlainElse, RowTyped}

exec-eq-ok {ℓ} :
    {A : Type ℓ} (r : Result ExecError A) {a : A}
    → exec r ≡ ok a
    → ◌≡◌ {A = Result ExecError A} r (ok a)
unfolding exec
exec-eq-ok (ok b) h = cc
exec-eq-ok (err e) h = absurd cc

module _ (C : Crates) {Query : Type 0} (host : Host C Query) (types : TypeHost C.scalars Query)
    (scope : Scope) (values : List (Value C)) where
  -- What is proved of the evaluation with so much room.
  abbrev SoundAt : ℕ → Type 0
  SoundAt room =
      (e : Expr C.scalars Query) (t : ColumnType)
      → Plain C types scope e
      → infer_type C types scope e ≡ ok t
      → Gives C (eval_depth C host scope values room) t e

  null_sound :
      (room : ℕ) (t : ColumnType) (e : Expr C.scalars Query)
      → is_null_literal e ≡ true
      → Gives C (eval_depth C host scope values room) t e
  unfolding eval_depth is_null_literal
  null_sound zero t e n v h = absurd cc
  null_sound (suc room) t null_literal n v h = rw (← ok-inj h) (has_type-null C.scalars t)
  null_sound (suc room) t _ n v h = absurd cc

  arm_sound :
      (room : ℕ)
      → SoundAt room
      → (t : ColumnType) (e : Expr C.scalars Query)
      → Branch C types scope (Plain C types scope e) t e
      → Gives C (eval_depth C host scope values room) t e
  arm_sound room sound t e (inl n) = null_sound room t e n
  arm_sound room sound t e (inr (p, s, i, a)) =
      λ v h. alike-has_type C.scalars s t v a (sound e s p i v h)

  arms_sound :
      (room : ℕ)
      → SoundAt room
      → (t : ColumnType) (whens : Whens C.scalars Query) → PlainWhens C types scope t whens
      → GiveWhens C (eval_depth C host scope values room) t whens
  unfolding PlainWhens GiveWhens
  arms_sound room sound t no_when p = tt
  arms_sound room sound t (when cond result whens) (p, ps) =
      (arm_sound room sound t result p, arms_sound room sound t whens ps)

  default_sound :
      (room : ℕ)
      → SoundAt room
      → (t : ColumnType) (otherwise : MaybeExpr C.scalars Query)
      → PlainElse C types scope t otherwise
      → GivesElse C (eval_depth C host scope values room) t otherwise
  unfolding PlainElse GivesElse
  default_sound room sound t absent p = tt
  default_sound room sound t (present e) p = arm_sound room sound t e p

  int_literal_sound :
      (s : List ℕ) (t : ColumnType) (v : Value C)
      → (lift (Literals.int_literal C s) >>= λ w. literal_type w) ≡ ok t
      → lift (Literals.int_literal C s) ≡ ok v
      → has_type t v ≡ true
  unfolding literal_type has_type
  int_literal_sound s t v i h =
      let (w, h1, h2) = >>=-eq-ok (lift (Literals.int_literal C s)) _ i in ground (arith, h2, h, h1)

  column_sound :
      RowTyped C scope values
      → (table : Option (List ℕ)) (name : List ℕ) (t : ColumnType) (v : Value C)
      → infer_type C types scope (column table name) ≡ ok t
      → eval_depth C host scope values 1 (column table name) ≡ ok v
      → has_type t v ≡ true
  unfolding infer_type eval_depth exec
  column_sound row table name t v i h =
      let (n, a1, a2) = >>=-eq-ok (exec (resolve scope table name)) _ i in
      let found = exec-eq-ok (resolve scope table name) a1 in
      let (m, b1, b2) = >>=-eq-ok (exec (resolve scope table name)) _ h in
      let same : n ≡ m = ok-inj (rw (found, exec) at b1) in
      row n t v (ok_or-eq-ok (ty_at scope n) panics a2)
        (ok_or-eq-ok (value_at values n) panics (rw (← same) at b2))

  logical_not_typed :
      (w : Value C) {v : Value C}
      → apply_unary C logical_not w ≡ ok v
      → has_type ColumnType.bool v ≡ true
  unfolding apply_unary
  logical_not_typed w h = not_typed C w (lift-eq-ok (Logic.not C w) h)

  binary_sound :
      (op : BinaryOp) (l r : Expr C.scalars Query) (t : ColumnType) (a b : Value C) {v : Value C}
      → infer_type C types scope (binary op l r) ≡ ok t
      → ((s : ColumnType) → infer_type C types scope l ≡ ok s → has_type s a ≡ true)
      → ((s : ColumnType) → infer_type C types scope r ≡ ok s → has_type s b ≡ true)
      → apply_binary C host op a b ≡ ok v
      → has_type t v ≡ true
  unfolding infer_type
  binary_sound op l r t a b i f g h = elim (Bool-cases (types_operands op)) [
    | inl e ↦
        let (s, h1, h2) = >>=-eq-ok (infer_type C types scope l) _ (rw (infer_type, e) at i) in
        let (s', h3, h4) = >>=-eq-ok (infer_type C types scope r) _ h2 in
        apply_binary_typed C host s s' op a b h (f s h1) (g s' h3) h4
    | inr e ↦ rw (← ok-inj (rw (infer_type, e) at i)) (apply_binary_bool C host op a b e h)
  ]

  sound : RowTyped C scope values → (room : ℕ) → SoundAt room
  unfolding Plain infer_type eval_depth has_type
  sound row zero e t p i v h = absurd cc
  sound row (suc room) (int_literal s) t p i v h = int_literal_sound s t v i h
  sound row (suc room) (numeric_literal s) t p i v h = ground (arith, i, h)
  sound row (suc room) (string_literal s) t p i v h = ground (arith, i, h)
  sound row (suc room) (bool_literal b) t p i v h = ground (arith, i, h)
  sound row (suc room) null_literal t p i v h = ground (arith, i, h)
  sound row (suc room) (param n) t p i v h = absurd cc
  sound row (suc room) (column table name) t p i v h = column_sound row table name t v i h
  sound row (suc room) (unary logical_not e) t p i v h =
      let (w, h1, h2) = >>=-eq-ok (eval_depth C host scope values room e) _ h in
      rw (← ok-inj i) (logical_not_typed w h2)
  sound row (suc room) (unary neg e) t p i v h =
      let (w, h1, h2) = >>=-eq-ok (eval_depth C host scope values room e) _ h in
      neg_typed C t w h2 (sound row room e t p i w h1)
  sound row (suc room) (binary op l r) t (p, q) i v h =
      let (a, h1, h2) = >>=-eq-ok (eval_depth C host scope values room l) _ h in
      let (b, h3, h4) = >>=-eq-ok (eval_depth C host scope values room r) _ h2 in
      binary_sound op l r t a b i (λ s k. sound row room l s p k a h1)
        (λ s k. sound row room r s q k b h3) h4
  sound row (suc room) (func name distinct args) t p i v h = absurd p
  sound row (suc room) (is_null e negated) t p i v h =
      let (w, h1, h2) = >>=-eq-ok (eval_depth C host scope values room e) _ h in
      rw (← ok-inj i, ← ok-inj h2) refl
  sound row (suc room) (in_list e list negated) t p i v h =
      let (x, h1, h2) = >>=-eq-ok (eval_depth C host scope values room e) _ h in
      rw (← ok-inj i) (eval_in_list_typed C x list negated _ h2)
  sound row (suc room) (between e low high negated) t p i v h =
      let (x, h1, h2) = >>=-eq-ok (eval_depth C host scope values room e) _ h in
      let (lo, h3, h4) = >>=-eq-ok (eval_depth C host scope values room low) _ h2 in
      let (hi, h5, h6) = >>=-eq-ok (eval_depth C host scope values room high) _ h4 in
      rw (← ok-inj i) (eval_between_typed C host x lo hi negated h6)
  sound row (suc room) (like e pattern_text negated ci) t p i v h =
      let (s, h1, h2) = >>=-eq-ok (eval_depth C host scope values room e) _ h in
      let (q, h3, h4) = >>=-eq-ok (eval_depth C host scope values room pattern_text) _ h2 in
      rw (← ok-inj i) (eval_like_typed C host s q negated ci h4)
  sound row (suc room) (case_of operand whens otherwise) t p i v h =
      let (ws, ow) = p t i in
      eval_case_typed C (eval_depth C host scope values room) t operand whens otherwise
        (default_sound room (sound row room) t otherwise ow)
        (arms_sound room (sound row room) t whens ws) h
  sound row (suc room) (cast e ty) t p i v h = absurd p
  sound row (suc room) (const value ty) t p i v h = rw (← ok-inj i, ← ok-inj h) p
  sound row (suc room) (scalar_subquery q) t p i v h = absurd cc
  sound row (suc room) (exists q) t p i v h = absurd cc
  sound row (suc room) (in_subquery e q negated) t p i v h = absurd cc
  sound row (suc room) (quantified e op all q) t p i v h = absurd cc

  -- Type soundness: on a row whose values have the types of their columns, an expression that is
  -- inferred to have a type evaluates, where it returns a value, to NULL or a value of that type,
  -- modifiers of `numeric` aside. The expression is plain: it calls no function and no cast outside
  -- the operands of predicates and the conditions of CASE, its constants have their declared types,
  -- and each branch of a CASE is a bare NULL or has the type that the branches unify to.
  pub eval-HasType :
      (e : Expr C.scalars Query) {t : ColumnType} {v : Value C}
      → RowTyped C scope values
      → Plain C types scope e
      → infer_type C types scope e ≡ ok t
      → eval C host scope values e ≡ ok v
      → has_type t v ≡ true
  unfolding eval
  eval-HasType e {t} {v} row p i h = sound row (suc max_eval_depth) e t p i v h
