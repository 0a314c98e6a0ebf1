-- ===== src/Frontend/Ast.antt =====
-- include/frontend/ast.hpp: the expressions of a statement, as far as their evaluation reads them.
-- Children are never null pointers here. A subquery is the rows that the executor stored in it.
use prqlite.Base.{ℤ, Bool, Bytes, List}
use prqlite.Vm.Values.{Doubles}
use prqlite.Vm.Tuples.{DataType}

pub data ComparisonOp : Type 0 where
  eq neq lt leq gt geq : ComparisonOp

pub data LogicalOp : Type 0 where
  and_op or_op : LogicalOp

pub data ArithmeticOp : Type 0 where
  add sub mul div : ArithmeticOp

pub data SubqueryKind : Type 0 where
  scalar exists : SubqueryKind

-- `CallExpr` without its arguments.
pub record CallHead : Type 0 where
  pub name : Bytes
  pub cast_type : DataType
  pub is_cast : Bool

module _ (d : Doubles) where
  -- `CachedValue`, by its kind.
  pub data CachedValue : Type 0 where
    null_value : CachedValue
    int_value : ℤ → CachedValue
    bool_value : Bool → CachedValue
    text_value : Bytes → CachedValue
    float_value : d.Double → CachedValue

  -- `LiteralExpr`, by its kind.
  pub data LiteralExpr : Type 0 where
    integer : ℤ → LiteralExpr
    string : Bytes → LiteralExpr
    boolean : Bool → LiteralExpr
    null_literal : LiteralExpr
    float_literal : d.Double → LiteralExpr

  pub record ColumnRef : Type 0 where
    pub column_index : ℤ
    pub outer_ref : Bool
    pub bound : Bool
    pub bound_value : CachedValue

  -- `FunctionExpr` and `WindowExpr` are evaluated elsewhere.
  mutual
    pub data Expression : Type 0 where
      literal : LiteralExpr → Expression
      column : ColumnRef → Expression
      binary : ComparisonOp → Expression → Expression → Expression
      logical : LogicalOp → Expression → Expression → Expression
      arithmetic : ArithmeticOp → Expression → Expression → Expression
      unary : Expression → Expression
      is_null : Expression → Bool → Expression
      in_items : Expression → Expressions → Bool → Expression
      in_subquery : Expression → List CachedValue → Bool → Expression
      between : Expression → Expression → Expression → Bool → Expression
      like : Expression → Expression → Bool → Expression
      call : CallHead → Expressions → Expression
      case_of : Branches → Expression
      subquery : SubqueryKind → List CachedValue → Expression
      function : Expression
      window : Expression

    pub data Expressions : Type 0 where
      nil : Expressions
      cons : Expression → Expressions → Expressions

    -- The branches of a CASE, with its ELSE at the end where it has one.
    pub data Branches : Type 0 where
      no_else : Branches
      else_of : Expression → Branches
      when_then : Expression → Expression → Branches → Branches
