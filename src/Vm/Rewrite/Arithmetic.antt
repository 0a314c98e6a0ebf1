-- ===== src/Vm/Rewrite/Arithmetic.antt =====
-- src/vm/rewrite.cpp: the identities of arithmetic.
use prqlite.Base.{
  ℤ, pos, InRange, wrap-InRange, int_beq, +ℤ-zero, zero-+ℤ, -ℤ-zero, *ℤ-one, one-*ℤ, quot-one, Bool,
  true, false, if◌then◌else◌, ◌≡◌, refl, ap, sym, ◌∙◌, arith, inl, inr, ◌⊎◌,
}
use prqlite.Vm.Values.{Doubles, Value, null, make_int, make_bool}
use prqlite.Vm.Tuples.{long_half}
use prqlite.Vm.Eval.{Row, eval_expression, arithmetic_op, logical_op, compare_op, not_op}
use prqlite.Vm.Rewrite.{
  is_numeric_literal, is_bool_literal, one, make_bool_literal, simplify_arithmetic,
  rewrite_expression,
}
use prqlite.Frontend.Ast.{
  ComparisonOp, LogicalOp, ArithmeticOp, add, sub, mul, div, LiteralExpr, Expression,
}

-- The cast to a double is exact at 0 and 1.
pub record KeepsUnits (d : Doubles) : Type 0 where
  pub zero : (n : ℤ) → d.equal (d.of_int n) d.zero_double ≡ true → n ≡ pos 0
  pub one : (n : ℤ) → d.equal (d.of_int n) (d.of_int (pos 1)) ≡ true → n ≡ pos 1

module _ (d : Doubles) where
  abbrev pub IntOrNull : Value d → Type 0
  IntOrNull v = (v ≡ null d) ⊎ ((n : ℤ) × (v ≡ make_int d n) × InRange long_half n)

  abbrev pub BoolOrNull : Value d → Type 0
  BoolOrNull v = (v ≡ null d) ⊎ ((b : Bool) × (v ≡ make_bool d b))

  -- The expression is no literal 0 or 1.
  abbrev pub NoUnit : Expression d → Type 0
  NoUnit e =
      (is_numeric_literal d e d.zero_double ≡ false) × (is_numeric_literal d e (one d) ≡ false)

  -- The types of operands on a row: arithmetic is on integers, or on operands that rewrite to no
  -- literal 0 or 1, and the connectives are on Booleans, each of which may be NULL.
  abbrev pub IsTyped : Row d → Expression d → Type 0
  IsTyped tuple (Expression.arithmetic op l r) =
      IsTyped tuple l
      × IsTyped tuple r
      × ((IntOrNull (eval_expression d l tuple) × IntOrNull (eval_expression d r tuple))
          ⊎ (NoUnit (rewrite_expression d l) × NoUnit (rewrite_expression d r)))
  IsTyped tuple (Expression.logical op l r) =
      IsTyped tuple l
      × IsTyped tuple r
      × BoolOrNull (eval_expression d l tuple)
      × BoolOrNull (eval_expression d r tuple)
  IsTyped tuple (Expression.binary op l r) = IsTyped tuple l × IsTyped tuple r
  IsTyped tuple (Expression.unary e) = IsTyped tuple e
  IsTyped tuple _ = Unit

  int_literal :
      (e : Expression d) (want : d.Double) (tuple : Row d)
      → is_numeric_literal d e want ≡ true
      → IntOrNull (eval_expression d e tuple)
      → (n : ℤ) × (eval_expression d e tuple ≡ make_int d n) × (d.equal (d.of_int n) want ≡ true)
  unfolding is_numeric_literal eval_expression
  int_literal (Expression.literal (LiteralExpr.integer n)) want tuple h t = (n, refl, h)
  int_literal (Expression.literal (LiteralExpr.float_literal x)) want tuple h t =
      absurd (ground (arith, t))
  int_literal (Expression.literal (LiteralExpr.string s)) want tuple h t =
      absurd (ground (arith, h))
  int_literal _ want tuple h t = absurd (ground (arith, h))

  add_zero : (v : Value d) → IntOrNull v → arithmetic_op d add v (make_int d (pos 0)) ≡ v
  unfolding arithmetic_op
  add_zero v (inl e) = rw e
  add_zero v (inr (n, e, r)) = rw (e, +ℤ-zero n, wrap-InRange long_half n r)

  zero_add : (v : Value d) → IntOrNull v → arithmetic_op d add (make_int d (pos 0)) v ≡ v
  unfolding arithmetic_op
  zero_add v (inl e) = rw e
  zero_add v (inr (n, e, r)) = rw (e, zero-+ℤ n, wrap-InRange long_half n r)

  sub_zero : (v : Value d) → IntOrNull v → arithmetic_op d sub v (make_int d (pos 0)) ≡ v
  unfolding arithmetic_op
  sub_zero v (inl e) = rw e
  sub_zero v (inr (n, e, r)) = rw (e, -ℤ-zero n, wrap-InRange long_half n r)

  mul_one : (v : Value d) → IntOrNull v → arithmetic_op d mul v (make_int d (pos 1)) ≡ v
  unfolding arithmetic_op
  mul_one v (inl e) = rw e
  mul_one v (inr (n, e, r)) = rw (e, *ℤ-one n, wrap-InRange long_half n r)

  one_mul : (v : Value d) → IntOrNull v → arithmetic_op d mul (make_int d (pos 1)) v ≡ v
  unfolding arithmetic_op
  one_mul v (inl e) = rw e
  one_mul v (inr (n, e, r)) = rw (e, one-*ℤ n, wrap-InRange long_half n r)

  div_one : (v : Value d) → IntOrNull v → arithmetic_op d div v (make_int d (pos 1)) ≡ v
  unfolding arithmetic_op int_beq
  div_one v (inl e) = rw e
  div_one v (inr (n, e, r)) = rw (e, quot-one n, wrap-InRange long_half n r)

  -- A literal that is tested against 0 or 1 has that value, where it is an integer.
  unit_value :
      (e : Expression d) (want : d.Double) (k : ℤ) (tuple : Row d)
      → ((n : ℤ) → d.equal (d.of_int n) want ≡ true → n ≡ k)
      → IntOrNull (eval_expression d e tuple)
      → is_numeric_literal d e want ≡ true
      → eval_expression d e tuple ≡ make_int d k
  unit_value e want k tuple exact t h =
      let (n, value, same) = int_literal e want tuple h t in value ∙ ap (make_int d) (exact n same)

  -- The two identities of an operation are right where the operands are integers, if those are
  -- literals.
  identity_right :
      (op : ArithmeticOp) (l r : Expression d) (want : d.Double) (k : ℤ) (tuple : Row d)
      → ((n : ℤ) → d.equal (d.of_int n) want ≡ true → n ≡ k)
      → ((v : Value d) → IntOrNull v → arithmetic_op d op v (make_int d k) ≡ v)
      → IntOrNull (eval_expression d l tuple)
      → IntOrNull (eval_expression d r tuple)
      → is_numeric_literal d r want ≡ true
      → eval_expression d l tuple
        ≡ arithmetic_op d op (eval_expression d l tuple) (eval_expression d r tuple)
  identity_right op l r want k tuple exact law tyl tyr h =
      sym (law (eval_expression d l tuple) tyl)
      ∙ ap (arithmetic_op d op (eval_expression d l tuple))
          (sym (unit_value r want k tuple exact tyr h))

  identity_left :
      (op : ArithmeticOp) (l r : Expression d) (want : d.Double) (k : ℤ) (tuple : Row d)
      → ((n : ℤ) → d.equal (d.of_int n) want ≡ true → n ≡ k)
      → ((v : Value d) → IntOrNull v → arithmetic_op d op (make_int d k) v ≡ v)
      → IntOrNull (eval_expression d l tuple)
      → IntOrNull (eval_expression d r tuple)
      → is_numeric_literal d l want ≡ true
      → eval_expression d r tuple
        ≡ arithmetic_op d op (eval_expression d l tuple) (eval_expression d r tuple)
  identity_left op l r want k tuple exact law tyl tyr h =
      sym (law (eval_expression d r tuple) tyr)
      ∙ ap (λ v. arithmetic_op d op v (eval_expression d r tuple))
          (sym (unit_value l want k tuple exact tyl h))

  -- One step of the evaluation.
  pub eval_bool_literal :
      (b : Bool) (tuple : Row d) → eval_expression d (make_bool_literal d b) tuple ≡ make_bool d b
  unfolding eval_expression make_bool_literal
  eval_bool_literal b tuple = refl

  pub eval_logical :
      (op : LogicalOp) (l r : Expression d) (tuple : Row d)
      → eval_expression d (Expression.logical op l r) tuple
        ≡ logical_op d op (eval_expression d l tuple) (eval_expression d r tuple)
  unfolding eval_expression
  eval_logical op l r tuple = refl

  pub eval_binary :
      (op : ComparisonOp) (l r : Expression d) (tuple : Row d)
      → eval_expression d (Expression.binary op l r) tuple
        ≡ compare_op d op (eval_expression d l tuple) (eval_expression d r tuple)
  unfolding eval_expression
  eval_binary op l r tuple = refl

  pub eval_unary :
      (e : Expression d) (tuple : Row d)
      → eval_expression d (Expression.unary e) tuple ≡ not_op d (eval_expression d e tuple)
  unfolding eval_expression
  eval_unary e tuple = refl

  pub if_eval :
      (b : Bool) (x y : Expression d) (tuple : Row d) (v : Value d)
      → (b ≡ true → eval_expression d x tuple ≡ v)
      → (b ≡ false → eval_expression d y tuple ≡ v)
      → eval_expression d (if b then x else y) tuple ≡ v
  if_eval true x y tuple v h k = h refl
  if_eval false x y tuple v h k = k refl

  module _ (units : KeepsUnits d) where
    pub simplify_arithmetic_int :
        (op : ArithmeticOp) (l r : Expression d) (tuple : Row d)
        → IntOrNull (eval_expression d l tuple)
        → IntOrNull (eval_expression d r tuple)
        → eval_expression d (simplify_arithmetic d op l r) tuple
          ≡ arithmetic_op d op (eval_expression d l tuple) (eval_expression d r tuple)
    unfolding simplify_arithmetic eval_expression
    simplify_arithmetic_int add l r tuple tyl tyr =
        if_eval _ l _ tuple _
          (identity_right add l r d.zero_double (pos 0) tuple units.zero add_zero tyl tyr)
          (λ _.
            if_eval _ r _ tuple _
              (identity_left add l r d.zero_double (pos 0) tuple units.zero zero_add tyl tyr)
              (λ _. refl))
    simplify_arithmetic_int sub l r tuple tyl tyr =
        if_eval _ l _ tuple _
          (identity_right sub l r d.zero_double (pos 0) tuple units.zero sub_zero tyl tyr)
          (λ _. refl)
    simplify_arithmetic_int mul l r tuple tyl tyr =
        if_eval _ l _ tuple _
          (identity_right mul l r (one d) (pos 1) tuple units.one mul_one tyl tyr)
          (λ _.
            if_eval _ r _ tuple _
              (identity_left mul l r (one d) (pos 1) tuple units.one one_mul tyl tyr) (λ _. refl))
    simplify_arithmetic_int div l r tuple tyl tyr =
        if_eval _ l _ tuple _
          (identity_right div l r (one d) (pos 1) tuple units.one div_one tyl tyr) (λ _. refl)

  pub simplify_arithmetic_plain :
      (op : ArithmeticOp) (l r : Expression d)
      → NoUnit l
      → NoUnit r
      → simplify_arithmetic d op l r ≡ Expression.arithmetic op l r
  unfolding simplify_arithmetic
  simplify_arithmetic_plain add l r (l0, l1) (r0, r1) = rw (r0, l0)
  simplify_arithmetic_plain sub l r (l0, l1) (r0, r1) = rw r0
  simplify_arithmetic_plain mul l r (l0, l1) (r0, r1) = rw (r1, l1)
  simplify_arithmetic_plain div l r (l0, l1) (r0, r1) = rw r1

  pub bool_value :
      (e : Expression d) (b : Bool) (tuple : Row d)
      → is_bool_literal d e b ≡ true
      → eval_expression d e tuple ≡ make_bool d b
  unfolding is_bool_literal eval_expression
  bool_value (Expression.literal (LiteralExpr.boolean c)) b tuple h =
      ap (make_bool d) (ground (arith, h))
  bool_value (Expression.literal (LiteralExpr.integer n)) b tuple h = cc
  bool_value _ b tuple h = absurd (ground (arith, h))
