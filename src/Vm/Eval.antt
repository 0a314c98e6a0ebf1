-- ===== src/Vm/Eval.antt =====
-- src/vm/expression_eval.cpp: the value of an expression on a row.
pub mod Like
pub mod Calls
pub mod Logic
use prqlite.Base.{
  ℕ, ◌+◌, ◌*◌, leb, ltb, ℤ, pos, negsuc, is_neg, magnitude, wrap, quot, ◌+ℤ◌, ◌-ℤ◌, ◌*ℤ◌, int_beq,
  Bool, true, false, not, ◌&&◌, ◌||◌, map, List, [], ◌∷◌, Option, none, some, if◌then◌else◌, Bytes,
  length, get_elem?,
}
use prqlite.Vm.Values.{
  Doubles, Value, ValueType, text_type, bool_type, null, make_int, make_bool, make_text,
  make_double, is_null, is_numeric, is_int_type, is_double_type, as_double, compare_values,
}
use prqlite.Vm.Tuples.{long_half}
use prqlite.Vm.Eval.Like.{like_match}
use prqlite.Vm.Eval.Calls.{eval_call, is_zero}
use prqlite.Frontend.Ast.{
  ComparisonOp, LogicalOp, and_op, or_op, ArithmeticOp, add, sub, mul, div, SubqueryKind, scalar,
  exists, CachedValue, LiteralExpr, ColumnRef, Expression, Expressions, Branches,
}

-- The `switch` on a comparison, by the sign of what `compareValues` gave.
unfoldable pub holds_op : ComparisonOp → ℤ → Bool
holds_op ComparisonOp.eq c = int_beq c (pos 0)
holds_op ComparisonOp.neq c = not (int_beq c (pos 0))
holds_op ComparisonOp.lt c = is_neg c
holds_op ComparisonOp.leq c = is_neg c || int_beq c (pos 0)
holds_op ComparisonOp.gt c = not (is_neg c) && not (int_beq c (pos 0))
holds_op ComparisonOp.geq c = not (is_neg c)

abbrev pub is_bool_type : ValueType → Bool
is_bool_type bool_type = true
is_bool_type _ = false

abbrev pub is_text_type : ValueType → Bool
is_text_type text_type = true
is_text_type _ = false

abbrev pub Row : Doubles → Type 0
Row d = List (Value d)

module _ (d : Doubles) where
  unfoldable pub cached_to_value : CachedValue d → Value d
  cached_to_value (CachedValue.int_value n) = make_int d n
  cached_to_value (CachedValue.float_value x) = make_double d x
  cached_to_value (CachedValue.bool_value b) = make_bool d b
  cached_to_value (CachedValue.text_value s) = make_text d s
  cached_to_value CachedValue.null_value = null d

  unfoldable pub eval_literal : LiteralExpr d → Value d
  eval_literal (LiteralExpr.integer n) = make_int d n
  eval_literal (LiteralExpr.float_literal x) = make_double d x
  eval_literal (LiteralExpr.string s) = make_text d s
  eval_literal (LiteralExpr.boolean b) = make_bool d b
  eval_literal LiteralExpr.null_literal = null d

  unfoldable pub eval_column : ColumnRef d → Row d → Value d
  unfolding cached_to_value
  eval_column col tuple =
      if col.outer_ref
      then (if col.bound then cached_to_value col.bound_value else null d)
      else if is_neg col.column_index
      then null d
      else elim (get_elem? tuple (magnitude col.column_index)) [ none ↦ null d | some v ↦ v ]

  unfoldable pub compare_op : ComparisonOp → Value d → Value d → Value d
  unfolding holds_op
  compare_op op l r = elim (compare_values d l r) [
    | none ↦ null d
    | some c ↦ make_bool d (holds_op op c)
  ]

  unfoldable pub double_op : ArithmeticOp → d.Double → d.Double → Value d
  double_op add a b = make_double d (d.add a b)
  double_op sub a b = make_double d (d.subtract a b)
  double_op mul a b = make_double d (d.multiply a b)
  double_op div a b = if d.equal b d.zero_double then null d else make_double d (d.divide a b)

  -- Where the result does not fit 64 bits, which C++ leaves undefined, it wraps here.
  unfoldable pub int_op : ArithmeticOp → ℤ → ℤ → Value d
  int_op add a b = make_int d (wrap long_half (a +ℤ b))
  int_op sub a b = make_int d (wrap long_half (a -ℤ b))
  int_op mul a b = make_int d (wrap long_half (a *ℤ b))
  int_op div a b = if int_beq b (pos 0) then null d else make_int d (wrap long_half (quot a b))

  unfoldable pub arithmetic_op : ArithmeticOp → Value d → Value d → Value d
  unfolding is_numeric is_double_type as_double double_op int_op
  arithmetic_op op l r =
      if not (is_numeric l.type) || not (is_numeric r.type)
      then null d
      else if is_double_type l.type || is_double_type r.type
      then double_op op (as_double d l) (as_double d r)
      else int_op op l.int_value r.int_value

  -- `asBool`, for one value and a Boolean that it has to be.
  unfoldable pub is_bool : Bool → Value d → Bool
  is_bool b v = is_bool_type v.type && (if b then v.bool_value else not v.bool_value)

  unfoldable pub logical_op : LogicalOp → Value d → Value d → Value d
  unfolding is_bool
  logical_op and_op l r =
      if is_bool false l || is_bool false r
      then make_bool d false
      else if is_bool_type l.type && is_bool_type r.type
      then make_bool d true
      else null d
  logical_op or_op l r =
      if is_bool true l || is_bool true r
      then make_bool d true
      else if is_bool_type l.type && is_bool_type r.type
      then make_bool d false
      else null d

  unfoldable pub not_op : Value d → Value d
  not_op v = if is_bool_type v.type then make_bool d (not v.bool_value) else null d

  -- The loop of `IN`: whether the value was found, and whether a NULL was seen before.
  unfoldable pub find_in : Value d → List (Value d) → Bool × Bool
  unfolding is_zero
  find_in v [] = (false, false)
  find_in v (item ∷ items) =
      let (found, saw_null) = find_in v items in
      if is_null d item
      then (found, true)
      else if is_zero (compare_values d v item)
      then (true, false)
      else (found, saw_null)

  unfoldable pub in_op : Value d → List (Value d) → Bool → Value d
  unfolding find_in
  in_op v items negated =
      let (found, saw_null) = find_in v items in
      if is_null d v
      then null d
      else if found
      then make_bool d (not negated)
      else if saw_null
      then null d
      else make_bool d negated

  unfoldable pub between_op : Value d → Value d → Value d → Bool → Value d
  between_op v lo hi negated = elim (compare_values d v lo) [
    | none ↦ null d
    | some cl ↦ elim (compare_values d v hi) [
      | none ↦ null d
      | some ch ↦
          let in_range = not (is_neg cl) && (is_neg ch || int_beq ch (pos 0)) in
          make_bool d (if negated then not in_range else in_range)
    ]
  ]

  -- NULL stands for an answer that the fuel of `like_match` does not reach.
  unfoldable pub like_op : Value d → Value d → Bool → Value d
  like_op v p negated =
      if is_text_type v.type && is_text_type p.type
      then elim (like_match v.text_value p.text_value) [
        | none ↦ null d
        | some m ↦ make_bool d (if negated then not m else m)
      ]
      else null d

  unfoldable pub first_result : List (CachedValue d) → Value d
  first_result [] = null d
  first_result (v ∷ vs) = cached_to_value v

  unfoldable pub eval_subquery : SubqueryKind → List (CachedValue d) → Value d
  unfolding first_result
  eval_subquery exists [] = make_bool d false
  eval_subquery exists (v ∷ vs) = make_bool d true
  eval_subquery scalar vs = first_result vs

  unfoldable mutual
    unfolding eval_literal eval_column compare_op arithmetic_op logical_op not_op in_op between_op
        like_op eval_call eval_subquery

    pub eval_expression : Expression d → Row d → Value d
    eval_expression (Expression.literal l) tuple = eval_literal l
    eval_expression (Expression.column c) tuple = eval_column c tuple
    eval_expression (Expression.binary op l r) tuple =
        compare_op op (eval_expression l tuple) (eval_expression r tuple)
    eval_expression (Expression.arithmetic op l r) tuple =
        arithmetic_op op (eval_expression l tuple) (eval_expression r tuple)
    eval_expression (Expression.logical op l r) tuple =
        logical_op op (eval_expression l tuple) (eval_expression r tuple)
    eval_expression (Expression.unary e) tuple = not_op (eval_expression e tuple)
    eval_expression (Expression.is_null e negated) tuple =
        let result = is_null d (eval_expression e tuple) in
        make_bool d (if negated then not result else result)
    eval_expression (Expression.in_items e items negated) tuple =
        in_op (eval_expression e tuple) (eval_all items tuple) negated
    eval_expression (Expression.in_subquery e results negated) tuple =
        in_op (eval_expression e tuple) (map cached_to_value results) negated
    eval_expression (Expression.between e lo hi negated) tuple =
        between_op (eval_expression e tuple) (eval_expression lo tuple) (eval_expression hi tuple)
          negated
    eval_expression (Expression.like e p negated) tuple =
        like_op (eval_expression e tuple) (eval_expression p tuple) negated
    eval_expression (Expression.call head args) tuple = eval_call d head (eval_all args tuple)
    eval_expression (Expression.case_of branches) tuple = eval_case branches tuple
    eval_expression (Expression.subquery kind results) tuple = eval_subquery kind results
    eval_expression Expression.function tuple = null d
    eval_expression Expression.window tuple = null d

    pub eval_all : Expressions d → Row d → List (Value d)
    eval_all Expressions.nil tuple = []
    eval_all (Expressions.cons e es) tuple = eval_expression e tuple ∷ eval_all es tuple

    pub eval_case : Branches d → Row d → Value d
    eval_case Branches.no_else tuple = null d
    eval_case (Branches.else_of e) tuple = eval_expression e tuple
    eval_case (Branches.when_then when then' rest) tuple =
        let taken = eval_expression then' tuple in
        let other = eval_case rest tuple in
        if is_bool true (eval_expression when tuple) then taken else other

  unfoldable pub predicate_true : Expression d → Row d → Bool
  unfolding eval_expression
  predicate_true e tuple = is_bool true (eval_expression e tuple)
