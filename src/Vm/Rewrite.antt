-- ===== src/Vm/Rewrite.antt =====
-- src/vm/rewrite.cpp: the rewriting of expressions before they are run.
pub mod Constants
pub mod Arithmetic
pub mod Sound
pub mod Widening
use mathlib.Core.Option
use prqlite.Base.{
  ℕ, ℤ, pos, Bool, true, false, not, ◌&&◌, ◌||◌, [], Option, none, some, map, List, if◌then◌else◌,
}
use prqlite.Vm.Values.{
  Doubles, Value, ValueType, null_type, int_type, bool_type, text_type, double_type,
}
use prqlite.Vm.Eval.{eval_expression}
use prqlite.Frontend.Ast.{
  LogicalOp, and_op, or_op, ArithmeticOp, add, sub, mul, div, LiteralExpr, Expression, Expressions,
  Branches,
}

module _ (d : Doubles) where
  unfoldable pub is_foldable : Expression d → Bool
  is_foldable (Expression.literal l) = true
  is_foldable (Expression.arithmetic op l r) = is_foldable l && is_foldable r
  is_foldable (Expression.binary op l r) = is_foldable l && is_foldable r
  is_foldable (Expression.logical op l r) = is_foldable l && is_foldable r
  is_foldable (Expression.unary e) = is_foldable e
  is_foldable _ = false

  unfoldable pub literal_of : ValueType → Value d → LiteralExpr d
  literal_of int_type v = LiteralExpr.integer v.int_value
  literal_of double_type v = LiteralExpr.float_literal v.double_value
  literal_of bool_type v = LiteralExpr.boolean v.bool_value
  literal_of text_type v = LiteralExpr.string v.text_value
  literal_of null_type v = LiteralExpr.null_literal

  unfoldable pub make_literal : Value d → Expression d
  unfolding literal_of
  make_literal v = Expression.literal (literal_of v.type v)

  unfoldable pub make_bool_literal : Bool → Expression d
  make_bool_literal b = Expression.literal (LiteralExpr.boolean b)

  unfoldable pub is_numeric_literal : Expression d → d.Double → Bool
  is_numeric_literal (Expression.literal (LiteralExpr.integer n)) want = d.equal (d.of_int n) want
  is_numeric_literal (Expression.literal (LiteralExpr.float_literal x)) want = d.equal x want
  is_numeric_literal _ want = false

  unfoldable pub is_bool_literal : Expression d → Bool → Bool
  is_bool_literal (Expression.literal (LiteralExpr.boolean b)) want = if want then b else not b
  is_bool_literal _ want = false

  -- The constant 1.0 of the source.
  abbrev pub one : d.Double
  one = d.of_int (pos 1)

  -- The identities, on operands that are rewritten.
  unfoldable pub simplify_arithmetic : ArithmeticOp → Expression d → Expression d → Expression d
  unfolding is_numeric_literal
  simplify_arithmetic add l r =
      if is_numeric_literal r d.zero_double
      then l
      else if is_numeric_literal l d.zero_double
      then r
      else Expression.arithmetic add l r
  simplify_arithmetic sub l r =
      if is_numeric_literal r d.zero_double then l else Expression.arithmetic sub l r
  simplify_arithmetic mul l r =
      if is_numeric_literal r one
      then l
      else if is_numeric_literal l one
      then r
      else Expression.arithmetic mul l r
  simplify_arithmetic div l r =
      if is_numeric_literal r one then l else Expression.arithmetic div l r

  unfoldable pub simplify_logical : LogicalOp → Expression d → Expression d → Expression d
  unfolding is_bool_literal make_bool_literal
  simplify_logical and_op l r =
      if is_bool_literal l false || is_bool_literal r false
      then make_bool_literal false
      else if is_bool_literal l true
      then r
      else if is_bool_literal r true
      then l
      else Expression.logical and_op l r
  simplify_logical or_op l r =
      if is_bool_literal l true || is_bool_literal r true
      then make_bool_literal true
      else if is_bool_literal l false
      then r
      else if is_bool_literal r false
      then l
      else Expression.logical or_op l r

  -- The cases behind the folding.
  unfoldable pub rewrite_expression : Expression d → Expression d
  unfolding is_foldable make_literal simplify_arithmetic simplify_logical
  rewrite_expression (Expression.arithmetic op l r) =
      let inner = simplify_arithmetic op (rewrite_expression l) (rewrite_expression r) in
      let e = Expression.arithmetic op l r in
      if is_foldable e then make_literal (eval_expression d e []) else inner
  rewrite_expression (Expression.logical op l r) =
      let inner = simplify_logical op (rewrite_expression l) (rewrite_expression r) in
      let e = Expression.logical op l r in
      if is_foldable e then make_literal (eval_expression d e []) else inner
  rewrite_expression (Expression.binary op l r) =
      let inner = Expression.binary op (rewrite_expression l) (rewrite_expression r) in
      let e = Expression.binary op l r in
      if is_foldable e then make_literal (eval_expression d e []) else inner
  rewrite_expression (Expression.unary o) =
      let inner = Expression.unary (rewrite_expression o) in
      let e = Expression.unary o in
      if is_foldable e then make_literal (eval_expression d e []) else inner
  rewrite_expression (Expression.literal l) =
      make_literal (eval_expression d (Expression.literal l) [])
  rewrite_expression e = e

  -- The parts of a SELECT that `optimizeSelect` rewrites: `none` for a missing expression.
  pub record SelectStatement : Type 0 where
    pub where_clause : Option (Expression d)
    pub having : Option (Expression d)
    pub computed : List (Option (Expression d))

  unfoldable pub optimize_select : SelectStatement → SelectStatement
  unfolding rewrite_expression
  optimize_select node = record {
    where_clause = Option.map rewrite_expression node.where_clause;
    having = Option.map rewrite_expression node.having;
    computed = map (Option.map rewrite_expression) node.computed;
  }
