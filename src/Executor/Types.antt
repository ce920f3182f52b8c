-- ===== src/Executor/Types.antt =====
-- crates/executor/src/eval.rs: the types of dates and numbers under operators, and the common type
-- of the branches of an expression.
use crabgresql.Prelude.{
  Bool, true, false, not, ◌&&◌, ◌||◌, [], ◌∷◌, ◌==◌, Option, some, none, Result, ok, err,
  if◌then◌else◌,
}
use crabgresql.Pgtypes.ColumnType
use crabgresql.Pgtypes.ColumnType.{
  ColumnType, Typmod, bool, int4, int8, text, float8, date, time, timestamp, timestamptz, interval,
  bytea, numeric, is_numeric,
}
use crabgresql.Pgparser.Ast.{BinaryOp, plus, minus, times, over}
use crabgresql.Executor.Error.{ExecError, type_mismatch}

unfoldable pub same_typmod : Option Typmod → Option Typmod → Bool
same_typmod none none = true
same_typmod (some a) (some b) = a.precision == b.precision && a.scale == b.scale
same_typmod _ _ = false

-- `==` of column types.
unfoldable pub same_type : ColumnType → ColumnType → Bool
same_type bool bool = true
same_type int4 int4 = true
same_type int8 int8 = true
same_type text text = true
same_type float8 float8 = true
same_type date date = true
same_type time time = true
same_type timestamp timestamp = true
same_type timestamptz timestamptz = true
same_type interval interval = true
same_type bytea bytea = true
same_type (numeric a) (numeric b) = same_typmod a b
same_type _ _ = false

unfoldable pub is_int : ColumnType → Bool
is_int int4 = true
is_int int8 = true
is_int _ = false

unfoldable pub is_number : ColumnType → Bool
is_number int4 = true
is_number int8 = true
is_number float8 = true
is_number (numeric _) = true
is_number _ = false

unfoldable pub is_temporal : ColumnType → Bool
is_temporal date = true
is_temporal time = true
is_temporal timestamp = true
is_temporal timestamptz = true
is_temporal interval = true
is_temporal _ = false

-- The arms of `datetime_result_type`.
unfoldable pub datetime_arms : BinaryOp → ColumnType → ColumnType → Option ColumnType
datetime_arms plus date interval = some timestamp
datetime_arms plus interval date = some timestamp
datetime_arms plus timestamp interval = some timestamp
datetime_arms plus interval timestamp = some timestamp
datetime_arms plus timestamptz interval = some timestamptz
datetime_arms plus interval timestamptz = some timestamptz
datetime_arms plus interval interval = some interval
datetime_arms plus time interval = some time
datetime_arms plus interval time = some time
datetime_arms plus date time = some timestamp
datetime_arms plus time date = some timestamp
datetime_arms plus date r = if is_int r then some date else none
datetime_arms plus l date = if is_int l then some date else none
datetime_arms minus date date = some int4
datetime_arms minus date interval = some timestamp
datetime_arms minus date r = if is_int r then some date else none
datetime_arms minus timestamp interval = some timestamp
datetime_arms minus timestamptz interval = some timestamptz
datetime_arms minus timestamp timestamp = some interval
datetime_arms minus timestamptz timestamptz = some interval
datetime_arms minus interval interval = some interval
datetime_arms minus time interval = some time
datetime_arms times interval r = if is_number r then some interval else none
datetime_arms times l interval = if is_number l then some interval else none
datetime_arms over interval r = if is_number r then some interval else none
datetime_arms _ _ _ = none

unfoldable pub datetime_result_type : BinaryOp → ColumnType → ColumnType → Option ColumnType
datetime_result_type op l r =
    if not (is_temporal l) && not (is_temporal r) then none else datetime_arms op l r

unfoldable pub numeric_result_type : ColumnType → ColumnType → ColumnType
numeric_result_type l r =
    if same_type l float8 || same_type r float8
    then float8
    else if is_numeric l || is_numeric r
    then numeric none
    else if same_type l int4 && same_type r int4
    then int4
    else int8

-- `datetime_result_type(..).unwrap_or_else(..)`.
unfoldable pub result_type : BinaryOp → ColumnType → ColumnType → ColumnType
result_type op l r = elim (datetime_result_type op l r) [
  | some t ↦ t
  | none ↦ numeric_result_type l r
]

-- `unify_types`.
unfoldable pub unify_types : ColumnType → ColumnType → Result ExecError ColumnType
unify_types a b =
    if same_type a b
    then ok a
    else if (same_type a int4 && same_type b int8) || (same_type a int8 && same_type b int4)
    then ok int8
    else if same_type a float8 || same_type b float8
    then ok float8
    else if is_number a && is_number b
    then ok (numeric none)
    else err (
        type_mismatch "types {} and {} cannot be matched"
          (ColumnType.name a ∷ ColumnType.name b ∷ []))
