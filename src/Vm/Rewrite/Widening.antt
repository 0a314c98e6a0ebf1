-- ===== src/Vm/Rewrite/Widening.antt =====
-- src/vm/rewrite.cpp: adding the double zero to an integer.
use prqlite.Base.{ℤ, true, ◌≡◌, ap}
use prqlite.Vm.Values.{Doubles, make_int, make_double}
use prqlite.Vm.Eval.{Row, eval_expression, eval_column, arithmetic_op}
use prqlite.Vm.Rewrite.{rewrite_expression}
use prqlite.Frontend.Ast.{add, LiteralExpr, ColumnRef, Expression}

module _ (d : Doubles) where
  -- `x + 0.0` on a column that holds an integer is a double, and the column itself, an integer,
  -- once it is rewritten, given that 0.0 equals itself.
  pub rewrite_drops_widening :
      (c : ColumnRef d) (tuple : Row d) (n : ℤ)
      → d.equal d.zero_double d.zero_double ≡ true
      → eval_column d c tuple ≡ make_int d n
      → let e =
          Expression.arithmetic add
            (Expression.column c)
            (Expression.literal (LiteralExpr.float_literal d.zero_double)) in
        (eval_expression d e tuple ≡ make_double d (d.add (d.of_int n) d.zero_double))
        × (eval_expression d (rewrite_expression d e) tuple ≡ make_int d n)
  unfolding eval_expression rewrite_expression
  rewrite_drops_widening c tuple n zero int =
      (ap (λ v. arithmetic_op d add v (make_double d d.zero_double)) int, rw zero int)
