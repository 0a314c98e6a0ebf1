-- ===== src/Vm/Values.antt =====
-- src/vm/value.cpp and include/vm/value.hpp: SQL values and their comparison. The operations of
-- C++'s double that the values use are an interface.
pub mod Order
use prqlite.Base.{
  ℕ, zero, suc, ◌+◌, ◌/◌, ◌%◌, ◌++◌, reverse, codes, ◌<◌, ltb, ◌==◌, ℤ, pos, negsuc, Bool, true,
  false, not, ◌&&◌, ◌||◌, [], ◌∷◌, Option, none, some, if◌then◌else◌, Bytes,
}

-- `double`: `<`, the casts from and to a 64-bit integer, the eight bytes that `memcpy` moves, `==`,
-- the arithmetic, the functions of <cmath>, `pow(10.0, n)`, what `<<` prints, and `stod`, which is
-- `none` where it throws.
pub record Doubles : Type 1 where
  pub Double : Type 0
  pub less : Double → Double → Bool
  pub of_int : ℤ → Double
  pub zero_double : Double
  pub to_bytes : Double → Bytes
  pub of_bytes : Bytes → Double
  pub equal : Double → Double → Bool
  pub add : Double → Double → Double
  pub subtract : Double → Double → Double
  pub multiply : Double → Double → Double
  pub divide : Double → Double → Double
  pub floor : Double → Double
  pub ceil : Double → Double
  pub round : Double → Double
  pub fabs : Double → Double
  pub power_of_ten : ℤ → Double
  pub to_int : Double → ℤ
  pub is_finite : Double → Bool
  pub print : Double → Bytes
  pub parse : Bytes → Option Double

pub data ValueType : Type 0 where
  null_type : ValueType
  int_type : ValueType
  bool_type : ValueType
  text_type : ValueType
  double_type : ValueType

-- The enumerators' numbers.
unfoldable pub type_number : ValueType → ℕ
type_number null_type = 0
type_number int_type = 1
type_number bool_type = 2
type_number text_type = 3
type_number double_type = 4

-- `<` on `std::int64_t`.
unfoldable pub int_less : ℤ → ℤ → Bool
int_less (pos a) (pos b) = ltb a b
int_less (pos a) (negsuc b) = false
int_less (negsuc a) (pos b) = true
int_less (negsuc a) (negsuc b) = ltb b a

-- The sign of `std::string::compare`: less is -1, greater is 1.
unfoldable pub compare_text : Bytes → Bytes → ℤ
compare_text [] [] = pos 0
compare_text [] (b ∷ bs) = negsuc 0
compare_text (a ∷ rest) [] = pos 1
compare_text (a ∷ rest) (b ∷ bs) =
    let later = compare_text rest bs in
    if ltb a b then negsuc 0 else if ltb b a then pos 1 else later

unfoldable pub is_numeric : ValueType → Bool
is_numeric int_type = true
is_numeric double_type = true
is_numeric _ = false

abbrev pub is_null_type : ValueType → Bool
is_null_type null_type = true
is_null_type _ = false

unfoldable pub is_int_type : ValueType → Bool
is_int_type int_type = true
is_int_type _ = false

unfoldable pub is_double_type : ValueType → Bool
is_double_type double_type = true
is_double_type _ = false

-- `static_cast<int>(a) - static_cast<int>(b)` on two bools.
unfoldable pub bool_difference : Bool → Bool → ℤ
bool_difference true false = pos 1
bool_difference false true = negsuc 0
bool_difference _ _ = pos 0

unfoldable pub is_negative : Option ℤ → Bool
is_negative (some (negsuc n)) = true
is_negative _ = false

-- `if (a < b) return -1; if (a > b) return 1; return 0;`.
unfoldable pub three_way : Bool → Bool → Option ℤ
three_way less greater =
    if less then some (negsuc 0) else if greater then some (pos 1) else some (pos 0)

module _ (d : Doubles) where
  pub record Value : Type 0 where
    pub type : ValueType
    pub int_value : ℤ
    pub bool_value : Bool
    pub double_value : d.Double
    pub text_value : Bytes

  abbrev pub null : Value
  null = record {
    type = null_type;
    int_value = pos 0;
    bool_value = false;
    double_value = d.zero_double;
    text_value = [];
  }

  abbrev pub make_int : ℤ → Value
  make_int v = record null { type = int_type; int_value = v }

  abbrev pub make_bool : Bool → Value
  make_bool v = record null { type = bool_type; bool_value = v }

  abbrev pub make_text : Bytes → Value
  make_text v = record null { type = text_type; text_value = v }

  abbrev pub make_double : d.Double → Value
  make_double v = record null { type = double_type; double_value = v }

  abbrev pub is_null : Value → Bool
  is_null v = is_null_type v.type

  unfoldable pub as_double : Value → d.Double
  unfolding is_double_type
  as_double v = if is_double_type v.type then v.double_value else d.of_int v.int_value

  -- The `switch` on the type of `a`, where the two are not both numbers.
  unfoldable pub compare_same : ValueType → ValueType → Value → Value → Option ℤ
  compare_same bool_type bool_type a b = some (bool_difference a.bool_value b.bool_value)
  compare_same text_type text_type a b = some (compare_text a.text_value b.text_value)
  compare_same _ _ a b = none

  unfoldable pub compare_values : Value → Value → Option ℤ
  unfolding is_numeric is_int_type int_less three_way as_double compare_same
  compare_values a b =
      if is_null a || is_null b
      then none
      else if is_numeric a.type && is_numeric b.type
      then (if is_int_type a.type && is_int_type b.type
          then three_way (int_less a.int_value b.int_value) (int_less b.int_value a.int_value)
          else three_way (d.less (as_double a) (as_double b)) (d.less (as_double b) (as_double a)))
      else compare_same a.type b.type a b

  unfoldable pub value_less : Value → Value → Bool
  unfolding type_number is_negative compare_values
  value_less a b =
      if is_null a || is_null b
      then is_null a && not (is_null b)
      else if is_numeric a.type && is_numeric b.type
      then is_negative (compare_values a b)
      else if not (type_number a.type == type_number b.type)
      then ltb (type_number a.type) (type_number b.type)
      else is_negative (compare_values a b)

-- The digits of a number, the last one first, on fuel.
unfoldable pub digits_from : ℕ → ℕ → Bytes
digits_from zero n = []
digits_from (suc fuel) n =
    let rest = digits_from fuel (n / 10) in if n == 0 then [] else (b'0' + n % 10) ∷ rest

-- `std::to_string` of an unsigned number.
unfoldable pub print_nat : ℕ → Bytes
unfolding digits_from
print_nat n = if n == 0 then b'0' ∷ [] else reverse (digits_from n n)

unfoldable pub print_int : ℤ → Bytes
unfolding print_nat
print_int (pos n) = print_nat n
print_int (negsuc n) = b'-' ∷ print_nat (suc n)

module _ (d : Doubles) where
  unfoldable pub format_double : d.Double → Bytes
  unfolding print_int
  format_double v =
      if d.is_finite v
        && (d.equal v (d.floor v) && d.less (d.fabs v) (d.of_int (pos 1000000000000000)))
      then print_int (d.to_int v) ++ codes ".0"
      else d.print v

  unfoldable pub string_of : ValueType → Value d → Bytes
  unfolding print_int format_double
  string_of null_type v = codes "NULL"
  string_of int_type v = print_int v.int_value
  string_of bool_type v = if v.bool_value then codes "TRUE" else codes "FALSE"
  string_of text_type v = v.text_value
  string_of double_type v = format_double v.double_value

  -- `Value::toString`.
  unfoldable pub to_string : Value d → Bytes
  unfolding string_of
  to_string v = string_of v.type v
