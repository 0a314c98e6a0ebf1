-- ===== src/Tests/Expressions.antt =====
-- src/vm/expression_eval.cpp and src/vm/rewrite.cpp at concrete expressions, with doubles that are
-- whole numbers.
use prqlite.Base.{
  ℕ, ℤ, pos, negsuc, is_neg, int_beq, int_beq_iff, get_elem?, ◌+ℤ◌, true, false, [], ◌∷◌, none,
  some, Bytes, ◌≡◌, refl, arith, inl, inr,
}
use prqlite.Vm.Values.{Value, null, make_int, make_bool, make_double, compare_values}
use prqlite.Vm.Tuples.{int, text}
use prqlite.Vm.Eval.{Row, eval_expression, compare_op, logical_op, not_op, in_op, between_op}
use prqlite.Vm.Eval.Like.{like_match}
use prqlite.Vm.Eval.Like.Spec.{like_spec}
use prqlite.Vm.Eval.Like.Loop.{like_match_lem, like_match_percent}
use prqlite.Vm.Eval.Calls.{cast_value}
use prqlite.Vm.Eval.Calls.Casts.{cast-cast}
use prqlite.Vm.Eval.Logic.{equals_some, in_op-equals_some, between_op_and}
use prqlite.Vm.Rewrite.{rewrite_expression}
use prqlite.Vm.Rewrite.Arithmetic.{KeepsUnits}
use prqlite.Vm.Rewrite.Sound.{rewrite_sound}
use prqlite.Vm.Rewrite.Widening.{rewrite_drops_widening}
use prqlite.Frontend.Ast.{
  ComparisonOp, and_op, add, LiteralExpr, ColumnRef, Expression, CachedValue,
}
use prqlite.Tests.Rows.{whole}

abbrev two_letters : Bytes
two_letters = b'a' ∷ b'b' ∷ []

like_match_lem_example :
    like_match two_letters (b'%' ∷ b'b' ∷ []) ≡ some (like_spec (b'%' ∷ b'b' ∷ []) two_letters)
like_match_lem_example =
    like_match_lem two_letters (b'%' ∷ b'b' ∷ []) (omega arith, (omega arith, tt))

like_match_percent_example : like_match (b'%' ∷ two_letters) (b'%' ∷ []) ≡ some false
like_match_percent_example = like_match_percent b'a' (b'b' ∷ [])

cast-cast_example :
    cast_value whole (cast_value whole (make_int whole (negsuc 41)) text) int
    ≡ make_int whole (negsuc 41)
cast-cast_example = cast-cast whole (negsuc 41) (omega arith)

abbrev number : ℕ → Value whole
number n = make_int whole (pos n)

-- `2 IN (1, NULL, 2)`.
in_op-equals_some_example :
    (in_op whole (number 2) (number 1 ∷ null whole ∷ number 2 ∷ []) false
      ≡ equals_some whole (number 2) (number 1 ∷ null whole ∷ number 2 ∷ []))
    × (in_op whole (number 2) (number 1 ∷ null whole ∷ number 2 ∷ []) true
        ≡ not_op whole (equals_some whole (number 2) (number 1 ∷ null whole ∷ number 2 ∷ [])))
unfolding compare_values
in_op-equals_some_example =
    in_op-equals_some whole (number 2) (number 1 ∷ null whole ∷ number 2 ∷ []) refl
      (inr (refl, pos 1, refl), (inl refl, (inr (refl, pos 0, refl), tt)))

-- `1 BETWEEN 2 AND NULL`.
between_op_and_example :
    let expanded =
      logical_op whole and_op
        (compare_op whole ComparisonOp.geq (number 1) (number 2))
        (compare_op whole ComparisonOp.leq (number 1) (null whole)) in
    ((ch : ℤ)
      → compare_values whole (number 1) (null whole) ≡ some ch
      → between_op whole (number 1) (number 2) (null whole) false ≡ expanded)
    × (is_neg (negsuc 0) ≡ true
        → compare_values whole (number 1) (null whole) ≡ none
        → (between_op whole (number 1) (number 2) (null whole) false ≡ null whole)
          × (expanded ≡ make_bool whole false))
unfolding compare_values
between_op_and_example = between_op_and whole (number 1) (number 2) (null whole) (negsuc 0) refl

whole-KeepsUnits : KeepsUnits whole
whole-KeepsUnits = record {
  zero = λ n. (int_beq_iff n (pos 0)).0;
  one = λ n. (int_beq_iff n (pos 1)).0;
}

abbrev first_column : ColumnRef whole
first_column = record {
  column_index = pos 0;
  outer_ref = false;
  bound = false;
  bound_value = CachedValue.null_value;
}

abbrev literal_int : ℕ → Expression whole
literal_int n = Expression.literal (LiteralExpr.integer (pos n))

-- `c + 0 = 7` on the row `7`.
abbrev condition : Expression whole
condition =
    Expression.binary ComparisonOp.eq
      (Expression.arithmetic add (Expression.column first_column) (literal_int 0)) (literal_int 7)

abbrev row_of_7 : Row whole
row_of_7 = number 7 ∷ []

rewrite_sound_example :
    eval_expression whole (rewrite_expression whole condition) row_of_7
    ≡ eval_expression whole condition row_of_7
unfolding eval_expression get_elem?
rewrite_sound_example =
    rewrite_sound whole whole-KeepsUnits condition row_of_7
      ((tt, tt, inl (inr (pos 7, refl, omega arith), inr (pos 0, refl, omega arith))), tt)

rewrite_drops_widening_example :
    let e =
      Expression.arithmetic add
        (Expression.column first_column)
        (Expression.literal (LiteralExpr.float_literal (pos 0))) in
    (eval_expression whole e row_of_7 ≡ make_double whole (pos 7))
    × (eval_expression whole (rewrite_expression whole e) row_of_7 ≡ make_int whole (pos 7))
unfolding eval_expression get_elem? int_beq rewrite_expression ◌+ℤ◌
rewrite_drops_widening_example =
    rewrite_drops_widening whole first_column row_of_7 (pos 7) refl refl
