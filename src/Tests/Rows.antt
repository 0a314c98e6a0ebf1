-- ===== src/Tests/Rows.antt =====
-- src/vm/value.cpp and src/vm/tuple.cpp with simple stand-ins for the doubles.
use prqlite.Base.{
  not, ◌&&◌, ◌||◌, none, int_beq, ◌+ℤ◌, ◌-ℤ◌, ◌*ℤ◌, quot, magnitude, ℕ, ltb, if◌then◌else◌, ℤ, pos,
  negsuc, Bool, true, false, List, [], ◌∷◌, ◌≡◌, refl, some, arith, Bool-cases, inl, inr, Bytes,
}
use prqlite.Vm.Values.{
  Doubles, Value, as_double, int_less, make_int, make_bool, make_text, make_double, null,
  value_less,
}
use prqlite.Vm.Values.Order.{
  OrdersDoubles, numbers, value_less_strict, value_less_cycle, int_less_irrefl, int_less_trans,
}
use prqlite.Vm.Tuples.{int, text, float, Schema, serialize, deserialize}
use prqlite.Vm.Tuples.RoundTrip.{CopiesDoubles, AllStorable, deserialize-serialize}

-- The two doubles 0.0 and 1.0 with their bytes.
abbrev bit_double : Bool → Bytes
bit_double b = 0 ∷ 0 ∷ 0 ∷ 0 ∷ 0 ∷ 0 ∷ (if b then 0xF0 else 0) ∷ (if b then 0x3F else 0) ∷ []

abbrev of_bits : Bytes → Bool
of_bits (a ∷ b ∷ c ∷ e ∷ f ∷ g ∷ h ∷ i ∷ []) = ltb 0 i
of_bits _ = false

abbrev bits : Doubles
bits = record {
  Double = Bool;
  less = λ x y. ltb (if x then 1 else 0) (if y then 1 else 0);
  of_int = λ a. int_less (pos 0) a;
  zero_double = false;
  to_bytes = bit_double;
  of_bytes = of_bits;
  equal = λ x y. if x then y else not y;
  add = λ x y. x || y;
  subtract = λ x y. x && not y;
  multiply = λ x y. x && y;
  divide = λ x y. x;
  floor = λ x. x;
  ceil = λ x. x;
  round = λ x. x;
  fabs = λ x. x;
  power_of_ten = λ n. true;
  to_int = λ x. if x then pos 1 else pos 0;
  is_finite = λ x. true;
  print = λ x. [];
  parse = λ s. none;
}

bits-CopiesDoubles : CopiesDoubles bits
bits-CopiesDoubles = record {
  size = λ x. refl;
  back = λ x. elim (Bool-cases x) [ inl e ↦ ground (arith, e) | inr e ↦ ground (arith, e) ];
}

-- Doubles that are whole numbers.
abbrev pub whole : Doubles
whole = record {
  Double = ℤ;
  less = int_less;
  of_int = λ a. a;
  zero_double = pos 0;
  to_bytes = λ x. [];
  of_bytes = λ b. pos 0;
  equal = int_beq;
  add = ◌+ℤ◌;
  subtract = ◌-ℤ◌;
  multiply = ◌*ℤ◌;
  divide = quot;
  floor = λ x. x;
  ceil = λ x. x;
  round = λ x. x;
  fabs = λ x. pos (magnitude x);
  power_of_ten = λ n. pos 1;
  to_int = λ x. x;
  is_finite = λ x. true;
  print = λ x. [];
  parse = λ s. none;
}

whole-OrdersDoubles : OrdersDoubles whole
whole-OrdersDoubles = record {
  irreflexive = int_less_irrefl;
  transitive = int_less_trans;
  below = int_less_trans;
  above = int_less_trans;
  between = λ a b y. int_less_trans a y b;
}

abbrev row : List (Value bits)
row =
    make_int bits (negsuc 4)
    ∷ null bits
    ∷ make_double bits true
    ∷ make_text bits (72 ∷ 105 ∷ [])
    ∷ []

abbrev columns : Schema
columns = int ∷ int ∷ float ∷ text ∷ []

run_row : ℕ → ℕ
unfolding serialize deserialize value_less int_less
run_row n = n

row-AllStorable : AllStorable bits row
row-AllStorable = (
  record { int_value = omega arith; text_value = omega arith },
  (
    record { int_value = omega arith; text_value = omega arith },
    (
      record { int_value = omega arith; text_value = omega arith },
      (record { int_value = omega arith; text_value = omega arith }, tt),
    ),
  ),
)

deserialize-serialize_example : deserialize bits (serialize bits columns row) columns ≡ some row
unfolding as_double
deserialize-serialize_example =
    deserialize-serialize bits bits-CopiesDoubles columns row refl row-AllStorable

value_less_strict_example :
    (value_less whole (make_int whole (pos 1)) (make_int whole (pos 1)) ≡ false)
    × (value_less whole (make_int whole (pos 1)) (make_double whole (pos 2)) ≡ true
        → value_less whole (make_double whole (pos 2)) (make_int whole (pos 3)) ≡ true
        → value_less whole (make_int whole (pos 1)) (make_int whole (pos 3)) ≡ true)
value_less_strict_example =
    value_less_strict whole whole-OrdersDoubles numbers (make_int whole (pos 1))
      (make_double whole (pos 2)) (make_int whole (pos 3)) (inr (inl refl)) (inr (inr refl))
      (inr (inl refl))

value_less_cycle_example :
    (value_less whole (make_int whole (pos 5)) (make_bool whole true) ≡ true)
    × (value_less whole (make_bool whole true) (make_double whole (pos 1)) ≡ true)
    × (value_less whole (make_double whole (pos 1)) (make_int whole (pos 5)) ≡ true)
unfolding run_row
value_less_cycle_example = value_less_cycle whole (pos 5) true (pos 1) refl
