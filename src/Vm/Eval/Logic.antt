-- ===== src/Vm/Eval/Logic.antt =====
-- src/vm/expression_eval.cpp: IN, BETWEEN and NOT against the comparisons and connectives that
-- they stand for, in the logic of three values.
use prqlite.Base.{
  ℤ, pos, is_neg, int_beq, Bool, true, false, not, ◌&&◌, ◌||◌, List, [], ◌∷◌, Option, none, some,
  if◌then◌else◌, ◌≡◌, refl, ap, ap₂, sym, ◌∙◌, ◌⊎◌, inl, inr, arith,
}
use prqlite.Vm.Values.{Doubles, Value, null, make_bool, is_null, compare_values}
use prqlite.Vm.Eval.Calls.{is_zero}
use prqlite.Vm.Eval.{compare_op, holds_op, logical_op, not_op, find_in, in_op, between_op}
use prqlite.Frontend.Ast.{ComparisonOp, and_op, or_op}

module _ (d : Doubles) where
  -- `v = a OR (v = b OR …)`.
  abbrev pub equals_some : Value d → List (Value d) → Value d
  equals_some v [] = make_bool d false
  equals_some v (item ∷ items) =
      logical_op d or_op (compare_op d ComparisonOp.eq v item) (equals_some v items)

  -- Each item is NULL, or of a type that the value can be compared with.
  abbrev pub AllComparable : Value d → List (Value d) → Type 0
  AllComparable v [] = Unit
  AllComparable v (item ∷ items) =
      ((is_null d item ≡ true)
        ⊎ ((is_null d item ≡ false) × (c : ℤ) × (compare_values d v item ≡ some c)))
      × AllComparable v items

  abbrev answer : Bool × Bool → Value d
  answer (found, saw_null) =
      if found then make_bool d true else if saw_null then null d else make_bool d false

  compare_null : (v item : Value d) → is_null d item ≡ true → compare_values d v item ≡ none
  unfolding compare_values
  compare_null v item h = ground (arith, h)

  or_null : (p : Bool × Bool) → logical_op d or_op (null d) (answer p) ≡ answer (p.0, true)
  unfolding logical_op
  or_null (true, s) = refl
  or_null (false, true) = refl
  or_null (false, false) = refl

  or_true : (v : Value d) → logical_op d or_op (make_bool d true) v ≡ make_bool d true
  unfolding logical_op
  or_true v = refl

  or_false : (p : Bool × Bool) → logical_op d or_op (make_bool d false) (answer p) ≡ answer p
  unfolding logical_op
  or_false (true, s) = refl
  or_false (false, true) = refl
  or_false (false, false) = refl

  in_plain :
      (p : Bool × Bool)
      → (if p.0 then make_bool d (not false) else if p.1 then null d else make_bool d false)
        ≡ answer p
  in_plain (true, s) = refl
  in_plain (false, s) = refl

  in_negated :
      (p : Bool × Bool)
      → (if p.0 then make_bool d (not true) else if p.1 then null d else make_bool d true)
        ≡ not_op d (answer p)
  unfolding not_op
  in_negated (true, s) = refl
  in_negated (false, true) = refl
  in_negated (false, false) = refl

  find_in_null :
      (v item : Value d) (items : List (Value d))
      → is_null d item ≡ true
      → find_in d v (item ∷ items) ≡ ((find_in d v items).0, true)
  unfolding find_in
  find_in_null v item items h = rw h

  find_in_value :
      (v item : Value d) (items : List (Value d)) (c : ℤ)
      → is_null d item ≡ false
      → compare_values d v item ≡ some c
      → find_in d v (item ∷ items)
        ≡ (if int_beq c (pos 0) then (true, false) else find_in d v items)
  unfolding find_in
  find_in_value v item items c h e = rw (h, ap is_zero e)

  compare_op_value :
      (op : ComparisonOp) (v item : Value d) (c : ℤ)
      → compare_values d v item ≡ some c
      → compare_op d op v item ≡ make_bool d (holds_op op c)
  unfolding compare_op
  compare_op_value op v item c e =
      ap
        (λ (o : Option ℤ). elim o as (λ _. Value d) [
          | none ↦ null d
          | some k ↦ make_bool d (holds_op op k)
        ])
        e

  compare_op-none :
      (op : ComparisonOp) (v item : Value d)
      → compare_values d v item ≡ none
      → compare_op d op v item ≡ null d
  unfolding compare_op
  compare_op-none op v item e =
      ap
        (λ (o : Option ℤ). elim o as (λ _. Value d) [
          | none ↦ null d
          | some k ↦ make_bool d (holds_op op k)
        ])
        e

  or_item :
      (b : Bool) (p : Bool × Bool)
      → logical_op d or_op (make_bool d b) (answer p) ≡ answer (if b then (true, false) else p)
  or_item true p = or_true (answer p)
  or_item false p = or_false p

  equals_some_lem :
      (v : Value d) (items : List (Value d))
      → AllComparable v items
      → equals_some v items ≡ answer (find_in d v items)
  unfolding holds_op find_in
  equals_some_lem v [] h = refl
  equals_some_lem v (item ∷ items) (inl gone, h) =
      let p = find_in d v items in
      ap₂ (logical_op d or_op) (compare_op-none ComparisonOp.eq v item (compare_null v item gone))
        (equals_some_lem v items h)
      ∙ or_null p
      ∙ ap answer (sym (find_in_null v item items gone))
  equals_some_lem v (item ∷ items) (inr (here, c, e), h) =
      let p = find_in d v items in
      ap₂ (logical_op d or_op) (compare_op_value ComparisonOp.eq v item c e)
        (equals_some_lem v items h)
      ∙ or_item (int_beq c (pos 0)) p
      ∙ ap answer (sym (find_in_value v item items c here e))

  -- For a value that is not NULL and items that are NULL or of a type to compare it with, `IN` is
  -- the chain of `=` joined by OR, and `NOT IN` is its negation.
  pub in_op-equals_some :
      (v : Value d) (items : List (Value d))
      → is_null d v ≡ false
      → AllComparable v items
      → (in_op d v items false ≡ equals_some v items)
        × (in_op d v items true ≡ not_op d (equals_some v items))
  unfolding in_op
  in_op-equals_some v items n h =
      let p = find_in d v items in
      let e = equals_some_lem v items h in
      (rw n (in_plain p ∙ sym e), rw n (in_negated p ∙ ap (not_op d) (sym e)))

  and_bools :
      (a b : Bool) → logical_op d and_op (make_bool d a) (make_bool d b) ≡ make_bool d (a && b)
  unfolding logical_op
  and_bools true true = refl
  and_bools true false = refl
  and_bools false true = refl
  and_bools false false = refl

  and_below :
      (c : ℤ)
      → is_neg c ≡ true
      → logical_op d and_op (make_bool d (holds_op ComparisonOp.geq c)) (null d) ≡ make_bool d false
  unfolding logical_op holds_op
  and_below c h = rw h

  abbrev between_of : Bool → Option ℤ → Option ℤ → Value d
  between_of negated o p = elim o as (λ _. Value d) [
    | none ↦ null d
    | some cl ↦ elim p as (λ _. Value d) [
      | none ↦ null d
      | some ch ↦
          let in_range = not (is_neg cl) && (is_neg ch || int_beq ch (pos 0)) in
          make_bool d (if negated then not in_range else in_range)
    ]
  ]

  between_op_lem :
      (v lo hi : Value d) (negated : Bool) (o p : Option ℤ)
      → compare_values d v lo ≡ o
      → compare_values d v hi ≡ p
      → between_op d v lo hi negated ≡ between_of negated o p
  unfolding between_op
  between_op_lem v lo hi negated o p h k = ap₂ (between_of negated) h k

  -- BETWEEN is `v >= lo AND v <= hi` where the value can be compared with both bounds. Where it is
  -- below the lower bound and cannot be compared with the upper one, such as NULL, BETWEEN is NULL
  -- and the two comparisons are false.
  pub between_op_and :
      (v lo hi : Value d) (cl : ℤ)
      → compare_values d v lo ≡ some cl
      → let expanded =
          logical_op d and_op
            (compare_op d ComparisonOp.geq v lo)
            (compare_op d ComparisonOp.leq v hi) in
        ((ch : ℤ) → compare_values d v hi ≡ some ch → between_op d v lo hi false ≡ expanded)
        × (is_neg cl ≡ true
            → compare_values d v hi ≡ none
            → (between_op d v lo hi false ≡ null d) × (expanded ≡ make_bool d false))
  unfolding holds_op
  between_op_and v lo hi cl h = (
    (λ ch k.
        between_op_lem v lo hi false (some cl) (some ch) h k
        ∙ sym (and_bools (not (is_neg cl)) (is_neg ch || int_beq ch (pos 0)))
        ∙ sym (
            ap₂ (logical_op d and_op) (compare_op_value ComparisonOp.geq v lo cl h)
              (compare_op_value ComparisonOp.leq v hi ch k))),
    (λ low k. (
      between_op_lem v lo hi false (some cl) none h k,
      ap₂ (logical_op d and_op) (compare_op_value ComparisonOp.geq v lo cl h)
            (compare_op-none ComparisonOp.leq v hi k)
          ∙ and_below cl low,
    )),
  )
