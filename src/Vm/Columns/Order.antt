-- ===== src/Vm/Columns/Order.antt =====
-- src/vm/value.cpp: `compareValues` of a literal with the values of a column as an order. The values
-- of a column have one type, the literal any.
use prqlite.Base.{
  ℤ, pos, is_neg, int_beq, Bool, true, false, not, ◌&&◌, [], ◌∷◌, some, if◌then◌else◌, Bytes, ◌≡◌,
  refl, arith,
}
use prqlite.Vm.Values.{
  Doubles, Value, int_less, compare_text, is_numeric, is_int_type, is_double_type, bool_difference,
  is_negative, three_way, as_double, compare_same, compare_values,
}
use prqlite.Vm.Columns.{is_positive}

-- What IEEE 754 says of `<` where the value in between is a number, which a NaN is not, and of the
-- cast from integers, which gives numbers and is monotone.
pub record RanksDoubles (d : Doubles) : Type 0 where
  pub is_number : d.Double → Bool
  pub asymmetric : (x y : d.Double) → d.less x y ≡ true → d.less y x ≡ false
  pub weak :
      (x y z : d.Double)
      → is_number y ≡ true
      → d.less x z ≡ true
      → d.less x y ≡ false
      → d.less y z ≡ true
  pub of_int_number : (a : ℤ) → is_number (d.of_int a) ≡ true
  pub of_int_less : (a b : ℤ) → d.less (d.of_int a) (d.of_int b) ≡ true → int_less a b ≡ true

int_less_asym : (a b : ℤ) → int_less a b ≡ true → int_less b a ≡ false
unfolding int_less
int_less_asym a b h = ground arith

int_less_weak : (a b c : ℤ) → int_less a c ≡ true → int_less a b ≡ false → int_less b c ≡ true
unfolding int_less
int_less_weak a b c h k = ground arith

-- The two ways round to compare two texts.
text_sides :
    (a b : Bytes)
    → some (compare_text a b) ≡ three_way (is_neg (compare_text a b)) (is_neg (compare_text b a))
unfolding compare_text three_way
text_sides [] [] = refl
text_sides [] (y ∷ b) = refl
text_sides (x ∷ a) [] = refl
text_sides (x ∷ a) (y ∷ b) = ground (arith, text_sides a b)

text_weak :
    (a b c : Bytes)
    → is_neg (compare_text a c) ≡ true
    → is_neg (compare_text a b) ≡ false
    → is_neg (compare_text b c) ≡ true
unfolding compare_text
text_weak [] [] [] h k = cc
text_weak [] [] (z ∷ c) h k = refl
text_weak [] (y ∷ b) c h k = cc
text_weak (x ∷ a) b [] h k = cc
text_weak (x ∷ a) [] (z ∷ c) h k = refl
text_weak (x ∷ a) (y ∷ b) (z ∷ c) h k = ground (arith, text_weak a b c)

text_asym : (a b : Bytes) → is_neg (compare_text a b) ≡ true → is_neg (compare_text b a) ≡ false
unfolding compare_text
text_asym [] [] h = refl
text_asym [] (y ∷ b) h = refl
text_asym (x ∷ a) [] h = cc
text_asym (x ∷ a) (y ∷ b) h = ground (arith, text_asym a b)

module _ (d : Doubles) where
  abbrev pub less : Value d → Value d → Bool
  less a b = is_negative (compare_values d a b)

  -- `compareValues`, where it compares, is the sign that `<` has each way round.
  compare_values_sides :
      (a b : Value d) (c : ℤ)
      → compare_values d a b ≡ some c
      → some c ≡ three_way (less a b) (less b a)
  unfolding compare_values compare_same bool_difference three_way is_negative is_numeric is_int_type
  compare_values_sides a b c h = ground (arith, h, text_sides a.text_value b.text_value)

  module _ (o : RanksDoubles d) where
    abbrev pub is_number_value : Value d → Bool
    is_number_value v = if is_double_type v.type then o.is_number v.double_value else true

    pub less_asym : (a b : Value d) → less a b ≡ true → less b a ≡ false
    unfolding compare_values compare_same bool_difference three_way is_negative is_numeric
        is_int_type as_double is_double_type
    less_asym a b h = ground (
      arith,
      h,
      text_asym a.text_value b.text_value,
      int_less_asym a.int_value b.int_value,
      o.asymmetric (as_double d a) (as_double d b),
    )

    pub less_weak :
        (a b literal : Value d)
        → a.type ≡ b.type
        → is_number_value b ≡ true
        → less a literal ≡ true
        → less a b ≡ false
        → less b literal ≡ true
    unfolding compare_values compare_same bool_difference three_way is_negative is_numeric
        is_int_type as_double is_double_type
    less_weak a b literal t n h k = ground (
      arith,
      t,
      n,
      h,
      k,
      text_weak a.text_value b.text_value literal.text_value,
      int_less_weak a.int_value b.int_value literal.int_value,
      o.weak (as_double d a) (as_double d b) (as_double d literal),
      o.of_int_number b.int_value,
      o.of_int_less a.int_value b.int_value,
    )

    pub less_weak_above :
        (a b literal : Value d)
        → a.type ≡ b.type
        → is_number_value b ≡ true
        → less literal a ≡ true
        → less b a ≡ false
        → less literal b ≡ true
    unfolding compare_values compare_same bool_difference three_way is_negative is_numeric
        is_int_type as_double is_double_type
    less_weak_above a b literal t n h k = ground (
      arith,
      t,
      n,
      h,
      k,
      text_weak literal.text_value b.text_value a.text_value,
      text_asym b.text_value a.text_value,
      int_less_weak literal.int_value b.int_value a.int_value,
      o.weak (as_double d literal) (as_double d b) (as_double d a),
      o.of_int_number b.int_value,
      o.of_int_less b.int_value a.int_value,
    )

    -- What the sign of a comparison says.
    pub compare_values_signs :
        (a b : Value d) (c : ℤ)
        → compare_values d a b ≡ some c
        → (is_neg c ≡ less a b)
          × (is_positive (some c) ≡ less b a)
          × (int_beq c (pos 0) ≡ (not (less a b) && not (less b a)))
    unfolding three_way is_positive int_beq
    compare_values_signs a b c h =
        let e = compare_values_sides a b c h in ground (arith, e, less_asym a b)

    pub is_positive-less : (a b : Value d) → is_positive (compare_values d a b) ≡ less b a
    unfolding compare_values compare_same bool_difference three_way is_negative is_positive
        is_numeric is_int_type
    is_positive-less a b = ground (
      arith,
      text_sides a.text_value b.text_value,
      text_sides b.text_value a.text_value,
      text_asym a.text_value b.text_value,
      int_less_asym a.int_value b.int_value,
      o.asymmetric (as_double d a) (as_double d b),
    )
