-- ===== src/Pgparser/Ast.antt =====
-- crates/pgparser/src/ast.rs: expressions. A query is a parameter, as is a value of a third-party
-- type; a name is its bytes.
use crabgresql.Prelude.{ℕ, Bool, Option}
use crabgresql.Bytes.{Bytes}
use crabgresql.Pgtypes.ColumnType.{ColumnType}
use crabgresql.Pgtypes.Datum.{Scalars, Datum}

pub data UnaryOp : Type 0 where
  logical_not neg : UnaryOp

pub data BinaryOp : Type 0 where
  plus minus times over concat equal unequal less at_most greater at_least both either : BinaryOp

-- `whens` and the lists of arguments and of elements stand beside the expressions, as does an
-- expression that may be missing.
mutual
  pub data Expr (S : Scalars) (Query : Type 0) : Type 0 where
    int_literal : Bytes → Expr S Query
    numeric_literal : Bytes → Expr S Query
    string_literal : Bytes → Expr S Query
    bool_literal : Bool → Expr S Query
    null_literal : Expr S Query
    column : Option Bytes → Bytes → Expr S Query
    param : ℕ → Expr S Query
    unary : UnaryOp → Expr S Query → Expr S Query
    binary : BinaryOp → Expr S Query → Expr S Query → Expr S Query
    func : Bytes → Bool → FuncArgs S Query → Expr S Query
    is_null : Expr S Query → Bool → Expr S Query
    in_list : Expr S Query → Exprs S Query → Bool → Expr S Query
    between : Expr S Query → Expr S Query → Expr S Query → Bool → Expr S Query
    like : Expr S Query → Expr S Query → Bool → Bool → Expr S Query
    case_of : MaybeExpr S Query → Whens S Query → MaybeExpr S Query → Expr S Query
    cast : Expr S Query → ColumnType → Expr S Query
    scalar_subquery : Query → Expr S Query
    exists : Query → Expr S Query
    in_subquery : Expr S Query → Query → Bool → Expr S Query
    quantified : Expr S Query → BinaryOp → Bool → Query → Expr S Query
    const : Datum S → ColumnType → Expr S Query

  pub data Exprs (S : Scalars) (Query : Type 0) : Type 0 where
    end : Exprs S Query
    next : Expr S Query → Exprs S Query → Exprs S Query

  pub data Whens (S : Scalars) (Query : Type 0) : Type 0 where
    no_when : Whens S Query
    when : Expr S Query → Expr S Query → Whens S Query → Whens S Query

  pub data MaybeExpr (S : Scalars) (Query : Type 0) : Type 0 where
    absent : MaybeExpr S Query
    present : Expr S Query → MaybeExpr S Query

  pub data FuncArgs (S : Scalars) (Query : Type 0) : Type 0 where
    star : FuncArgs S Query
    exprs : Exprs S Query → FuncArgs S Query
