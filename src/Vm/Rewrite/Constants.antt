-- ===== src/Vm/Rewrite/Constants.antt =====
-- src/vm/rewrite.cpp: constant subtrees and the literals that stand for their values.
use prqlite.Base.{
  ℤ, pos, Bool, true, false, not, ◌&&◌, [], none, some, if◌then◌else◌, ◌≡◌, refl, ap, ap₂, ◌∙◌,
  Bytes, int_beq, arith,
}
use prqlite.Vm.Values.{
  Doubles, Value, null, make_int, make_bool, make_text, make_double, compare_values,
}
use prqlite.Vm.Eval.{
  Row, holds_op, eval_expression, eval_literal, compare_op, arithmetic_op, double_op, int_op,
  logical_op, not_op,
}
use prqlite.Vm.Rewrite.{is_foldable, make_literal}
use prqlite.Frontend.Ast.{
  ComparisonOp, LogicalOp, and_op, or_op, ArithmeticOp, add, sub, mul, div, LiteralExpr, Expression,
}

module _ (d : Doubles) where
  -- A value made by one of the `make` functions: the fields of the other types are at their
  -- defaults.
  pub data IsMade : Value d → Type 0 where
    of_null : IsMade (null d)
    of_int : (n : ℤ) → IsMade (make_int d n)
    of_bool : (b : Bool) → IsMade (make_bool d b)
    of_text : (s : Bytes) → IsMade (make_text d s)
    of_double : (x : d.Double) → IsMade (make_double d x)

  pub eval-make_literal :
      {v : Value d} (tuple : Row d) → IsMade v → eval_expression d (make_literal d v) tuple ≡ v
  unfolding eval_expression make_literal
  eval-make_literal tuple of_null = refl
  eval-make_literal tuple (of_int n) = refl
  eval-make_literal tuple (of_bool b) = refl
  eval-make_literal tuple (of_text s) = refl
  eval-make_literal tuple (of_double x) = refl

  if_IsMade : (b : Bool) {x y : Value d} → IsMade x → IsMade y → IsMade (if b then x else y)
  if_IsMade true h k = h
  if_IsMade false h k = k

  literal-IsMade : (l : LiteralExpr d) → IsMade (eval_literal d l)
  unfolding eval_literal
  literal-IsMade (LiteralExpr.integer n) = of_int n
  literal-IsMade (LiteralExpr.float_literal x) = of_double x
  literal-IsMade (LiteralExpr.string s) = of_text s
  literal-IsMade (LiteralExpr.boolean b) = of_bool b
  literal-IsMade LiteralExpr.null_literal = of_null

  compare-IsMade : (op : ComparisonOp) (l r : Value d) → IsMade (compare_op d op l r)
  unfolding compare_op
  compare-IsMade op l r =
      elim (compare_values d l r)
        as (λ o. IsMade (elim o [ none ↦ null d | some c ↦ make_bool d (holds_op op c) ])) [
          | none ↦ of_null
          | some c ↦ of_bool (holds_op op c)
        ]

  double-IsMade : (op : ArithmeticOp) (a b : d.Double) → IsMade (double_op d op a b)
  unfolding double_op
  double-IsMade add a b = of_double (d.add a b)
  double-IsMade sub a b = of_double (d.subtract a b)
  double-IsMade mul a b = of_double (d.multiply a b)
  double-IsMade div a b = if_IsMade (d.equal b d.zero_double) of_null (of_double (d.divide a b))

  int-IsMade : (op : ArithmeticOp) (a b : ℤ) → IsMade (int_op d op a b)
  unfolding int_op
  int-IsMade add a b = of_int _
  int-IsMade sub a b = of_int _
  int-IsMade mul a b = of_int _
  int-IsMade div a b = if_IsMade (int_beq b (pos 0)) of_null (of_int _)

  arithmetic-IsMade : (op : ArithmeticOp) (l r : Value d) → IsMade (arithmetic_op d op l r)
  unfolding arithmetic_op
  arithmetic-IsMade op l r =
      if_IsMade _ of_null
        (if_IsMade _ (double-IsMade op _ _) (int-IsMade op l.int_value r.int_value))

  logical-IsMade : (op : LogicalOp) (l r : Value d) → IsMade (logical_op d op l r)
  unfolding logical_op
  logical-IsMade and_op l r = if_IsMade _ (of_bool false) (if_IsMade _ (of_bool true) of_null)
  logical-IsMade or_op l r = if_IsMade _ (of_bool true) (if_IsMade _ (of_bool false) of_null)

  not-IsMade : (v : Value d) → IsMade (not_op d v)
  unfolding not_op
  not-IsMade v = if_IsMade _ (of_bool (not v.bool_value)) of_null

  both : {a b : Bool} → (a && b) ≡ true → (a ≡ true) × (b ≡ true)
  both {a} {b} h = ground arith

  -- The value of a constant is made, and the same on every row.
  pub foldable-IsMade :
      (e : Expression d)
      → is_foldable d e ≡ true
      → (tuple : Row d) → IsMade (eval_expression d e tuple)
  unfolding eval_expression is_foldable
  foldable-IsMade (Expression.literal l) h tuple = literal-IsMade l
  foldable-IsMade (Expression.arithmetic op l r) h tuple =
      arithmetic-IsMade op (eval_expression d l tuple) (eval_expression d r tuple)
  foldable-IsMade (Expression.binary op l r) h tuple =
      compare-IsMade op (eval_expression d l tuple) (eval_expression d r tuple)
  foldable-IsMade (Expression.logical op l r) h tuple =
      logical-IsMade op (eval_expression d l tuple) (eval_expression d r tuple)
  foldable-IsMade (Expression.unary e) h tuple = not-IsMade (eval_expression d e tuple)
  foldable-IsMade _ h tuple = absurd (ground (arith, h))

  pub foldable_constant :
      (e : Expression d)
      → is_foldable d e ≡ true
      → (s t : Row d) → eval_expression d e s ≡ eval_expression d e t
  unfolding eval_expression is_foldable
  foldable_constant (Expression.literal l) h s t = refl
  foldable_constant (Expression.arithmetic op l r) h s t =
      let (a, b) = both h in
      ap₂ (arithmetic_op d op) (foldable_constant l a s t) (foldable_constant r b s t)
  foldable_constant (Expression.binary op l r) h s t =
      let (a, b) = both h in
      ap₂ (compare_op d op) (foldable_constant l a s t) (foldable_constant r b s t)
  foldable_constant (Expression.logical op l r) h s t =
      let (a, b) = both h in
      ap₂ (logical_op d op) (foldable_constant l a s t) (foldable_constant r b s t)
  foldable_constant (Expression.unary e) h s t = ap (not_op d) (foldable_constant e h s t)
  foldable_constant _ h s t = absurd (ground (arith, h))

  -- Folding a constant keeps its value.
  pub fold_sound :
      (e : Expression d) (tuple : Row d)
      → is_foldable d e ≡ true
      → eval_expression d (make_literal d (eval_expression d e [])) tuple
        ≡ eval_expression d e tuple
  fold_sound e tuple h =
      eval-make_literal tuple (foldable-IsMade e h []) ∙ foldable_constant e h [] tuple
