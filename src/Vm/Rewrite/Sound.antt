-- ===== src/Vm/Rewrite/Sound.antt =====
-- src/vm/rewrite.cpp: a rewritten expression has the value of the expression.
use prqlite.Base.{
  Bool, true, false, not, ◌||◌, if◌then◌else◌, ◌≡◌, refl, ap, ap₂, sym, subst, ◌∙◌, arith,
  Bool-cases, inl, inr, ◌⊎◌,
}
use prqlite.Vm.Values.{Doubles, Value, make_bool}
use prqlite.Vm.Eval.{Row, eval_expression, arithmetic_op, logical_op, compare_op, not_op}
use prqlite.Vm.Rewrite.{
  is_foldable, is_bool_literal, make_bool_literal, simplify_arithmetic, simplify_logical,
  rewrite_expression,
}
use prqlite.Vm.Rewrite.Constants.{fold_sound}
use prqlite.Frontend.Ast.{LogicalOp, and_op, or_op, ArithmeticOp, Expression}
use prqlite.Vm.Rewrite.Arithmetic.{
  simplify_arithmetic_int, KeepsUnits, IntOrNull, BoolOrNull, NoUnit, IsTyped, eval_bool_literal,
  eval_logical, eval_binary, eval_unary, if_eval, simplify_arithmetic_plain, bool_value,
}

module _ (d : Doubles) where
  abbrev absorbing : LogicalOp → Bool
  absorbing and_op = false
  absorbing or_op = true

  absorb_left :
      (op : LogicalOp) (v : Value d)
      → logical_op d op (make_bool d (absorbing op)) v ≡ make_bool d (absorbing op)
  unfolding logical_op
  absorb_left and_op v = refl
  absorb_left or_op v = refl

  absorb_right :
      (op : LogicalOp) (v : Value d)
      → logical_op d op v (make_bool d (absorbing op)) ≡ make_bool d (absorbing op)
  unfolding logical_op
  absorb_right and_op v = ground arith
  absorb_right or_op v = ground arith

  neutral_left :
      (op : LogicalOp) (v : Value d)
      → BoolOrNull d v
      → logical_op d op (make_bool d (not (absorbing op))) v ≡ v
  unfolding logical_op
  neutral_left and_op v (inl e) = rw e
  neutral_left and_op v (inr (true, e)) = rw e
  neutral_left and_op v (inr (false, e)) = rw e
  neutral_left or_op v (inl e) = rw e
  neutral_left or_op v (inr (true, e)) = rw e
  neutral_left or_op v (inr (false, e)) = rw e

  neutral_right :
      (op : LogicalOp) (v : Value d)
      → BoolOrNull d v
      → logical_op d op v (make_bool d (not (absorbing op))) ≡ v
  unfolding logical_op
  neutral_right and_op v (inl e) = rw e
  neutral_right and_op v (inr (true, e)) = rw e
  neutral_right and_op v (inr (false, e)) = rw e
  neutral_right or_op v (inl e) = rw e
  neutral_right or_op v (inr (true, e)) = rw e
  neutral_right or_op v (inr (false, e)) = rw e

  simplify_logical_lem :
      (op : LogicalOp) (l r : Expression d)
      → simplify_logical d op l r ≡ (
          if is_bool_literal d l (absorbing op) || is_bool_literal d r (absorbing op)
          then make_bool_literal d (absorbing op)
          else if is_bool_literal d l (not (absorbing op))
          then r
          else if is_bool_literal d r (not (absorbing op))
          then l
          else Expression.logical op l r)
  unfolding simplify_logical
  simplify_logical_lem and_op l r = refl
  simplify_logical_lem or_op l r = refl

  absorbed :
      (op : LogicalOp) (l r : Expression d) (tuple : Row d)
      → (is_bool_literal d l (absorbing op) || is_bool_literal d r (absorbing op)) ≡ true
      → logical_op d op (eval_expression d l tuple) (eval_expression d r tuple)
        ≡ make_bool d (absorbing op)
  absorbed op l r tuple h = elim (Bool-cases (is_bool_literal d l (absorbing op))) [
    | inl left ↦ rw (bool_value d l (absorbing op) tuple left) (absorb_left op _)
    | inr other ↦
        rw (bool_value d r (absorbing op) tuple (ground (arith, other, h))) (absorb_right op _)
  ]

  simplify_logical_sound :
      (op : LogicalOp) (l r : Expression d) (tuple : Row d)
      → BoolOrNull d (eval_expression d l tuple)
      → BoolOrNull d (eval_expression d r tuple)
      → eval_expression d (simplify_logical d op l r) tuple
        ≡ logical_op d op (eval_expression d l tuple) (eval_expression d r tuple)
  simplify_logical_sound op l r tuple tyl tyr =
      let a = absorbing op in
      ap (λ e. eval_expression d e tuple) (simplify_logical_lem op l r)
      ∙ if_eval d (is_bool_literal d l a || is_bool_literal d r a) _ _ tuple _
          (λ h. eval_bool_literal d a tuple ∙ sym (absorbed op l r tuple h))
          (λ _.
            if_eval d (is_bool_literal d l (not a)) r _ tuple _
              (λ h.
                sym (neutral_left op (eval_expression d r tuple) tyr)
                ∙ ap (λ v. logical_op d op v (eval_expression d r tuple))
                    (sym (bool_value d l (not a) tuple h)))
              (λ _.
                if_eval d (is_bool_literal d r (not a)) l _ tuple _
                  (λ h.
                    sym (neutral_right op (eval_expression d l tuple) tyl)
                    ∙ ap (logical_op d op (eval_expression d l tuple))
                        (sym (bool_value d r (not a) tuple h)))
                  (λ _. eval_logical d op l r tuple)))

  arithmetic_sound :
      KeepsUnits d
      → (op : ArithmeticOp) (l r : Expression d) (tuple : Row d)
      → eval_expression d (rewrite_expression d l) tuple ≡ eval_expression d l tuple
      → eval_expression d (rewrite_expression d r) tuple ≡ eval_expression d r tuple
      → (IntOrNull d (eval_expression d l tuple) × IntOrNull d (eval_expression d r tuple))
        ⊎ (NoUnit d (rewrite_expression d l) × NoUnit d (rewrite_expression d r))
      → eval_expression d
          (simplify_arithmetic d op (rewrite_expression d l) (rewrite_expression d r))
          tuple
        ≡ eval_expression d (Expression.arithmetic op l r) tuple
  arithmetic_sound units op l r tuple il ir (inl (tyl, tyr)) =
      simplify_arithmetic_int d units op (rewrite_expression d l) (rewrite_expression d r) tuple
        (subst (IntOrNull d) (sym il) tyl) (subst (IntOrNull d) (sym ir) tyr)
      ∙ ap₂ (arithmetic_op d op) il ir
      ∙ (unfold eval_expression in refl)
  arithmetic_sound units op l r tuple il ir (inr (nl, nr)) =
      ap (λ e. eval_expression d e tuple)
        (simplify_arithmetic_plain d op (rewrite_expression d l) (rewrite_expression d r) nl nr)
      ∙ (unfold eval_expression in ap₂ (arithmetic_op d op) il ir)

  -- Rewriting an expression does not change its value on a row where its operands have the types
  -- above, given that the cast from integers to doubles is exact at 0 and 1.
  pub rewrite_sound :
      KeepsUnits d
      → (e : Expression d) (tuple : Row d) → IsTyped d tuple e
      → eval_expression d (rewrite_expression d e) tuple ≡ eval_expression d e tuple
  unfolding rewrite_expression
  rewrite_sound units (Expression.arithmetic op l r) tuple (wl, wr, types) =
      let il = rewrite_sound units l tuple wl in
      let ir = rewrite_sound units r tuple wr in
      if_eval d _ _ _ tuple _ (fold_sound d (Expression.arithmetic op l r) tuple)
        (λ _. arithmetic_sound units op l r tuple il ir types)
  rewrite_sound units (Expression.logical op l r) tuple (wl, wr, tyl, tyr) =
      let il = rewrite_sound units l tuple wl in
      let ir = rewrite_sound units r tuple wr in
      if_eval d _ _ _ tuple _ (fold_sound d (Expression.logical op l r) tuple) (λ _.
        simplify_logical_sound op (rewrite_expression d l) (rewrite_expression d r) tuple
          (subst (BoolOrNull d) (sym il) tyl) (subst (BoolOrNull d) (sym ir) tyr)
        ∙ ap₂ (logical_op d op) il ir
        ∙ sym (eval_logical d op l r tuple))
  rewrite_sound units (Expression.binary op l r) tuple (wl, wr) =
      if_eval d _ _ _ tuple _ (fold_sound d (Expression.binary op l r) tuple) (λ _.
        eval_binary d op (rewrite_expression d l) (rewrite_expression d r) tuple
        ∙ ap₂ (compare_op d op) (rewrite_sound units l tuple wl) (rewrite_sound units r tuple wr)
        ∙ sym (eval_binary d op l r tuple))
  rewrite_sound units (Expression.unary e) tuple w =
      if_eval d _ _ _ tuple _ (fold_sound d (Expression.unary e) tuple) (λ _.
        eval_unary d (rewrite_expression d e) tuple
        ∙ ap (not_op d) (rewrite_sound units e tuple w)
        ∙ sym (eval_unary d e tuple))
  rewrite_sound units (Expression.literal l) tuple w =
      fold_sound d (Expression.literal l) tuple (unfold is_foldable in refl)
  rewrite_sound units (Expression.column c) tuple w = refl
  rewrite_sound units _ tuple w = refl
