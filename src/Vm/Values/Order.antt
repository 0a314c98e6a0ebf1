-- ===== src/Vm/Values/Order.antt =====
-- src/vm/value.cpp: `valueLess` as the order that sorting and the keys of a map rely on.
use prqlite.Base.{
  ℤ, pos, negsuc, Bool, true, false, not, ◌&&◌, ◌||◌, [], ◌∷◌, some, if◌then◌else◌, Bytes,
  Bool-cases, ◌≡◌, ◌⊎◌, inl, inr, refl, arith,
}
use prqlite.Vm.Values.{
  Doubles, null_type, int_type, bool_type, text_type, double_type, type_number, int_less,
  compare_text, is_numeric, is_int_type, is_double_type, bool_difference, is_negative, three_way,
  Value, make_int, make_bool, make_double, is_null, as_double, compare_same, compare_values,
  value_less,
}

-- What IEEE 754 says of `<` and of the rounding cast from integers, which is monotone.
pub record OrdersDoubles (d : Doubles) : Type 0 where
  pub irreflexive : (x : d.Double) → d.less x x ≡ false
  pub transitive : (x y z : d.Double) → d.less x y ≡ true → d.less y z ≡ true → d.less x z ≡ true
  pub below :
      (a b : ℤ) (z : d.Double)
      → int_less a b ≡ true
      → d.less (d.of_int b) z ≡ true
      → d.less (d.of_int a) z ≡ true
  pub above :
      (z : d.Double) (a b : ℤ)
      → d.less z (d.of_int a) ≡ true
      → int_less a b ≡ true
      → d.less z (d.of_int b) ≡ true
  pub between :
      (a b : ℤ) (y : d.Double)
      → d.less (d.of_int a) y ≡ true
      → d.less y (d.of_int b) ≡ true
      → int_less a b ≡ true

pub int_less_irrefl : (a : ℤ) → int_less a a ≡ false
unfolding int_less
int_less_irrefl (pos a) = ground arith
int_less_irrefl (negsuc a) = ground arith

pub int_less_trans : (a b c : ℤ) → int_less a b ≡ true → int_less b c ≡ true → int_less a c ≡ true
unfolding int_less
int_less_trans (pos a) (pos b) (pos c) h k = ground arith
int_less_trans (pos a) (pos b) (negsuc c) h k = cc
int_less_trans (pos a) (negsuc b) c h k = cc
int_less_trans (negsuc a) (pos b) (pos c) h k = refl
int_less_trans (negsuc a) (pos b) (negsuc c) h k = cc
int_less_trans (negsuc a) (negsuc b) (pos c) h k = refl
int_less_trans (negsuc a) (negsuc b) (negsuc c) h k = ground arith

text_less : Bytes → Bytes → Bool
unfolding compare_text is_negative
text_less a b = is_negative (some (compare_text a b))

text_less_irrefl : (a : Bytes) → text_less a a ≡ false
unfolding text_less
text_less_irrefl [] = refl
text_less_irrefl (x ∷ a) = ground (arith, text_less_irrefl a)

text_less_trans :
    (a b c : Bytes) → text_less a b ≡ true → text_less b c ≡ true → text_less a c ≡ true
unfolding text_less
text_less_trans [] [] c h k = cc
text_less_trans [] (y ∷ b) [] h k = cc
text_less_trans [] (y ∷ b) (z ∷ c) h k = refl
text_less_trans (x ∷ a) [] c h k = cc
text_less_trans (x ∷ a) (y ∷ b) [] h k = ground arith
text_less_trans (x ∷ a) (y ∷ b) (z ∷ c) h k = ground (arith, text_less_trans a b c)

-- What a column holds, besides nulls.
pub data Kind : Type 0 where
  numbers : Kind
  bools : Kind
  texts : Kind

module _ (d : Doubles) where
  abbrev pub HasKind : Kind → Value d → Type 0
  HasKind numbers v = (v.type ≡ null_type) ⊎ ((v.type ≡ int_type) ⊎ (v.type ≡ double_type))
  HasKind bools v = (v.type ≡ null_type) ⊎ (v.type ≡ bool_type)
  HasKind texts v = (v.type ≡ null_type) ⊎ (v.type ≡ text_type)

  number_less : Value d → Value d → Bool
  number_less a b =
      if is_int_type a.type && is_int_type b.type
      then int_less a.int_value b.int_value
      else d.less (as_double d a) (as_double d b)

  -- `valueLess` among the values of one kind.
  less_in : Kind → Value d → Value d → Bool
  unfolding number_less text_less
  less_in numbers a b = number_less a b
  less_in bools a b = not a.bool_value && b.bool_value
  less_in texts a b = text_less a.text_value b.text_value

  value_less_lem :
      (k : Kind) (a b : Value d)
      → HasKind k a
      → HasKind k b
      → value_less d a b
        ≡ (if is_null d a || is_null d b then is_null d a && not (is_null d b) else less_in k a b)
  unfolding value_less less_in is_numeric compare_values compare_same bool_difference is_int_type
      three_way type_number
  value_less_lem numbers a b h k = ground arith
  value_less_lem bools a b h k = ground arith
  value_less_lem texts a b h k = ground arith

  module _ (o : OrdersDoubles d) where
    number_less_irrefl : (a : Value d) → number_less a a ≡ false
    unfolding number_less as_double
    number_less_irrefl a = elim (Bool-cases (is_int_type a.type)) [
      | inl int ↦ ground (arith, int, int_less_irrefl a.int_value)
      | inr other ↦ ground (arith, other, o.irreflexive (as_double d a))
    ]

    number_less_trans :
        (a b c : Value d)
        → HasKind numbers a
        → HasKind numbers b
        → HasKind numbers c
        → is_null d a ≡ false
        → is_null d b ≡ false
        → is_null d c ≡ false
        → number_less a b ≡ true
        → number_less b c ≡ true
        → number_less a c ≡ true
    unfolding number_less is_int_type as_double is_double_type
    number_less_trans a b c ha hb hc na nb nc h k = ground (
      arith,
      int_less_trans a.int_value b.int_value c.int_value,
      o.below a.int_value b.int_value c.double_value,
      o.above a.double_value b.int_value c.int_value,
      o.between a.int_value c.int_value b.double_value,
      o.transitive a.double_value b.double_value c.double_value,
      o.transitive a.double_value (d.of_int b.int_value) c.double_value,
      o.transitive (d.of_int a.int_value) b.double_value c.double_value,
      o.transitive a.double_value b.double_value (d.of_int c.int_value),
    )

    less_in_trans :
        (k : Kind) (a b c : Value d)
        → HasKind k a
        → HasKind k b
        → HasKind k c
        → is_null d a ≡ false
        → is_null d b ≡ false
        → is_null d c ≡ false
        → less_in k a b ≡ true
        → less_in k b c ≡ true
        → less_in k a c ≡ true
    unfolding less_in
    less_in_trans numbers a b c ha hb hc na nb nc h l =
        number_less_trans a b c ha hb hc na nb nc h l
    less_in_trans bools a b c ha hb hc na nb nc h l = ground arith
    less_in_trans texts a b c ha hb hc na nb nc h l =
        text_less_trans a.text_value b.text_value c.text_value h l

    less_in_irrefl : (k : Kind) (a : Value d) → less_in k a a ≡ false
    unfolding less_in
    less_in_irrefl numbers a = number_less_irrefl a
    less_in_irrefl bools a = ground arith
    less_in_irrefl texts a = text_less_irrefl a.text_value

    -- Among nulls and the values of one kind (numbers, be they integers or doubles, or Booleans,
    -- or texts) `valueLess` is a strict order: no value is below itself, and it is transitive,
    -- given the laws of the order of doubles.
    pub value_less_strict :
        (k : Kind) (a b c : Value d)
        → HasKind k a
        → HasKind k b
        → HasKind k c
        → (value_less d a a ≡ false)
          × (value_less d a b ≡ true → value_less d b c ≡ true → value_less d a c ≡ true)
    value_less_strict k a b c ha hb hc = (
      ground (arith, value_less_lem k a a ha ha, less_in_irrefl k a),
      (λ h l. ground (
        arith,
        value_less_lem k a b ha hb,
        value_less_lem k b c hb hc,
        value_less_lem k a c ha hc,
        less_in_trans k a b c ha hb hc,
      )),
    )

  -- Across kinds it is no order: an integer is below every Boolean, a Boolean below every double,
  -- and a double below the integer if it is the smaller number.
  pub value_less_cycle :
      (x : ℤ) (b : Bool) (y : d.Double)
      → d.less y (d.of_int x) ≡ true
      → (value_less d (make_int d x) (make_bool d b) ≡ true)
        × (value_less d (make_bool d b) (make_double d y) ≡ true)
        × (value_less d (make_double d y) (make_int d x) ≡ true)
  unfolding value_less type_number is_numeric is_negative compare_values is_int_type three_way
      as_double is_double_type
  value_less_cycle x b y h = (refl, refl, ground (arith, h))
