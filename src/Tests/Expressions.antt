-- ===== src/Tests/Expressions.antt =====
-- An expression on a row: `-a / 2`, where `a` is an `int4` column that holds 7.
use crabgresql.Prelude.{zero, suc, ◌≡◌, refl, true, List, [], ◌∷◌, none, ok, err, arith}
use crabgresql.Prelude.Int.{pos, negsuc, ◌-ℤ◌}
use crabgresql.Prelude.Int.Checked
use crabgresql.Bytes.{bytes_eq}
use crabgresql.Bytes.Decimal
use crabgresql.Pgtypes.ColumnType
use crabgresql.Pgtypes.ColumnType.{ColumnType}
use crabgresql.Pgtypes.Datum
use crabgresql.Pgtypes.Datum.{int4}
use crabgresql.Pgtypes.Ops
use crabgresql.Pgtypes.Ops.{Value}
use crabgresql.Pgtypes.Ops.Operators
use crabgresql.Pgtypes.Ops.Literals
use crabgresql.Pgparser.Ast.{Expr, column, unary, neg, binary, over, int_literal}
use crabgresql.Executor.Error.{panics}
use crabgresql.Executor.Scope
use crabgresql.Executor.Scope.{Scope, ty_at}
use crabgresql.Executor.Eval
use crabgresql.Executor.Eval.{Host}
use crabgresql.Executor.Eval.Operators.{apply_unary, apply_binary, is_add_or_sub, apply_plain}
use crabgresql.Executor.Eval.Tree.{value_at, eval_depth, eval}
use crabgresql.Executor.Infer
use crabgresql.Executor.Infer.{TypeHost, infer_type}
use crabgresql.Executor.Infer.Values.{has_type}
use crabgresql.Executor.Infer.Plain.{Plain, RowTyped}
use crabgresql.Executor.Infer.Sound.{eval-HasType}
use crabgresql.Tests.Values.{small}

abbrev one_column : Scope
one_column = record { qualifier = none; name = 97 ∷ []; ty = ColumnType.int4 } ∷ []

abbrev seven_row : List (Value small)
seven_row = int4 (pos 7) ∷ []

-- No function and no cast is called.
abbrev no_functions : Host small Unit
no_functions = record {
  time_zone = tt;
  text_of = λ v. [];
  chars = λ s. s;
  cast = λ v t. ok v;
  call = λ name distinct args child. err panics;
}

abbrev no_types : TypeHost small.scalars Unit
no_types = record { call_type = λ name distinct args. err panics; cast_allowed = λ s t. true }

abbrev half_of_minus_a : Expr small.scalars Unit
half_of_minus_a = binary over (unary neg (column none (97 ∷ []))) (int_literal (50 ∷ []))

seven_row-RowTyped : RowTyped small one_column seven_row
unfolding ty_at value_at has_type
seven_row-RowTyped zero t v p q = ground (arith, p, q)
seven_row-RowTyped (suc i) t v p q = absurd cc

plain : Plain small no_types one_column half_of_minus_a
unfolding Plain
plain = (tt, tt)

two : Literals.int_literal small (50 ∷ []) ≡ ok (int4 (pos 2))
unfolding Literals.int_literal Literals.parse_int Literals.is_digit Literals.all_digits
    Literals.digits Decimal.parse_digits Decimal.parse_onto Checked.fits
two = refl

found : Scope.resolve one_column none (97 ∷ []) ≡ ok 0
unfolding Scope.resolve Scope.find_column Scope.or_undefined Scope.search Scope.is_named bytes_eq
found = refl

inferred : infer_type small no_types one_column half_of_minus_a ≡ ok ColumnType.int4
unfolding infer_type Infer.types_operands Infer.binary_type Infer.result_type
    Infer.datetime_result_type Infer.is_temporal Infer.numeric_result_type Infer.same_type
    Infer.literal_type Eval.lift Eval.exec ty_at ColumnType.is_numeric
inferred = rw (found, two) refl

evaluated : eval small no_functions one_column seven_row half_of_minus_a ≡ ok (int4 (negsuc 2))
unfolding eval eval_depth Eval.lift Eval.exec apply_unary apply_binary is_add_or_sub apply_plain
    value_at Operators.sub Operators.div Datum.is_null Ops.is_temporal Ops.arith Ops.int_arith
    Ops.as_i64 Ops.is_float Ops.is_numeric Ops.both Ops.is_int_zero Checked.checked_sub
    Checked.checked Checked.checked_div Checked.fits Checked.quot Checked.is_zero ◌-ℤ◌
evaluated = rw (found, two) refl

eval-HasType_example : has_type {S = small.scalars} ColumnType.int4 (int4 (negsuc 2)) ≡ true
eval-HasType_example =
    eval-HasType small no_functions no_types one_column seven_row half_of_minus_a seven_row-RowTyped
      plain inferred evaluated
