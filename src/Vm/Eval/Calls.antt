-- ===== src/Vm/Eval/Calls.antt =====
-- src/vm/expression_eval.cpp: casts and the scalar functions. A missing argument, which
-- the source would read past the end of the vector, counts as NULL.
pub mod Casts
use Prim.Native.String.{String}
use prqlite.Base.{
  ℕ, zero, suc, ◌+◌, ◌-◌, ◌*◌, ◌^◌, ◌==◌, leb, ltb, ℤ, pos, negsuc, is_neg, magnitude, signed, wrap,
  rem, ◌-ℤ◌, int_beq, Bool, true, false, not, ◌&&◌, ◌||◌, List, [], ◌∷◌, map, reverse, Option, none,
  some, if◌then◌else◌, Bytes, bytes_beq, codes, length, take, drop, get_elem?,
}
use prqlite.Vm.Values.{
  Doubles, Value, ValueType, null_type, int_type, bool_type, text_type, double_type, null, make_int,
  make_bool, make_text, make_double, is_null, is_numeric, is_double_type, as_double, compare_values,
  to_string,
}
use prqlite.Vm.Tuples.{DataType, int, bool, text, varchar, float, date, timestamp, long_half}
use prqlite.Frontend.Lexer.{to_upper, is_digit}
use prqlite.Frontend.Ast.{CallHead}

-- `isspace` and `tolower` in the C locale.
unfoldable pub is_space : ℕ → Bool
is_space c = c == b' ' || (leb 9 c && leb c 13)

unfoldable pub to_lower : ℕ → ℕ
to_lower c = if leb b'A' c && leb c b'Z' then c + 32 else c

unfoldable pub drop_while : (ℕ → Bool) → Bytes → Bytes
drop_while class [] = []
drop_while class (c ∷ cs) = let rest = drop_while class cs in if class c then rest else c ∷ cs

-- The value of the digits at the front, and how many there are.
unfoldable pub read_digits : ℕ → Bytes → ℕ × ℕ
unfolding is_digit
read_digits acc [] = (acc, 0)
read_digits acc (c ∷ cs) =
    let (n, count) = read_digits (acc * 10 + (c - b'0')) cs in
    if is_digit c then (n, suc count) else (acc, 0)

-- The sign of a number and what follows it.
abbrev pub read_sign : Bytes → Bool × Bytes
read_sign [] = (false, [])
read_sign (c ∷ cs) =
    if c == b'-' then (true, cs) else if c == b'+' then (false, cs) else (false, c ∷ cs)

-- `std::stoll`: blanks, a sign and digits; it throws, here `none`, without a digit or out of range.
unfoldable pub stoll : Bytes → Option ℤ
unfolding drop_while is_space read_digits
stoll s =
    let (negative, digits) = read_sign (drop_while is_space s) in
    let (n, count) = read_digits 0 digits in
    if count == 0
    then none
    else if negative
    then (if leb n (2 ^ 63) then some (signed true n) else none)
    else (if ltb n (2 ^ 63) then some (pos n) else none)

-- `s.substr(from, len)`.
abbrev pub substr : Bytes → ℕ → ℕ → Bytes
substr s from len = take len (drop from s)

abbrev pub is_named : Bytes → String → Bool
is_named name fn = bytes_beq name (codes fn)

unfoldable pub is_zero : Option ℤ → Bool
is_zero none = false
is_zero (some n) = int_beq n (pos 0)

module _ (d : Doubles) where
  pub value_as_string : Value d → Bytes
  unfolding to_string
  value_as_string v = to_string d v

  pub cast_int : ValueType → Value d → Value d
  unfolding stoll
  cast_int int_type v = v
  cast_int double_type v = make_int d (d.to_int v.double_value)
  cast_int bool_type v = make_int d (if v.bool_value then pos 1 else pos 0)
  cast_int text_type v = elim (stoll v.text_value) [ none ↦ null d | some n ↦ make_int d n ]
  cast_int null_type v = null d

  pub cast_float : ValueType → Value d → Value d
  unfolding as_double
  cast_float int_type v = make_double d (as_double d v)
  cast_float double_type v = make_double d (as_double d v)
  cast_float text_type v = elim (d.parse v.text_value) [ none ↦ null d | some x ↦ make_double d x ]
  cast_float _ v = null d

  pub cast_bool : ValueType → Value d → Value d
  cast_bool bool_type v = v
  cast_bool int_type v = make_bool d (not (int_beq v.int_value (pos 0)))
  cast_bool _ v = null d

  -- The `switch` of `castValue` on the target.
  pub cast_to : DataType → Value d → Value d
  unfolding cast_int cast_float cast_bool value_as_string
  cast_to int v = cast_int v.type v
  cast_to float v = cast_float v.type v
  cast_to bool v = cast_bool v.type v
  cast_to text v = make_text d (value_as_string v)
  cast_to varchar v = make_text d (value_as_string v)
  cast_to date v = make_text d (value_as_string v)
  cast_to timestamp v = make_text d (value_as_string v)

  unfoldable pub cast_value : Value d → DataType → Value d
  unfolding cast_to
  cast_value v target = if is_null d v then null d else cast_to target v

  -- `a[i]`.
  abbrev pub argument : List (Value d) → ℕ → Value d
  argument a i = elim (get_elem? a i) [ none ↦ null d | some v ↦ v ]

  unfoldable pub coalesce : List (Value d) → Value d
  coalesce [] = null d
  coalesce (v ∷ a) = let rest = coalesce a in if is_null d v then rest else v

  unfoldable pub nullif : Value d → Value d → Value d
  unfolding is_zero compare_values
  nullif a b = if is_null d a then null d else if is_zero (compare_values d a b) then null d else a

  unfoldable pub trim : Bytes → Bytes
  unfolding drop_while is_space
  trim s = reverse (drop_while is_space (reverse (drop_while is_space s)))

  -- The length that SUBSTR takes, for a text of which `left` bytes are left.
  abbrev pub substr_length : List (Value d) → ℕ → ℕ
  substr_length a left =
      if length a == 3 && not (is_null d (argument a 2))
      then (let l = (argument a 2).int_value in if is_neg l then 0 else magnitude l)
      else left

  unfoldable pub eval_substr : List (Value d) → Value d
  unfolding value_as_string
  eval_substr a =
      if is_null d (argument a 0) || is_null d (argument a 1)
      then null d
      else let s = value_as_string (argument a 0) in
        let start = (argument a 1).int_value in
        let from = if is_neg start then 0 else magnitude start - 1 in
        if leb (length s) from
        then make_text d []
        else make_text d (substr s from (substr_length a (length s - from)))

  unfoldable pub eval_abs : Value d → Value d
  eval_abs v =
      if is_null d v
      then null d
      else if is_double_type v.type
      then make_double d (d.fabs v.double_value)
      else make_int d
          (if is_neg v.int_value then wrap long_half (pos 0 -ℤ v.int_value) else v.int_value)

  unfoldable pub eval_rounded : (d.Double → d.Double) → Value d → Value d
  unfolding as_double is_numeric
  eval_rounded f v =
      if is_null d v || not (is_numeric v.type)
      then null d
      else make_int d (d.to_int (f (as_double d v)))

  unfoldable pub eval_round : List (Value d) → Value d
  unfolding as_double is_numeric
  eval_round a =
      let v = argument a 0 in
      if is_null d v || not (is_numeric v.type)
      then null d
      else let digits =
          if length a == 2 && not (is_null d (argument a 1))
          then (argument a 1).int_value
          else pos 0 in
        let factor = d.power_of_ten (wrap (2 ^ 31) digits) in
        make_double d (d.divide (d.round (d.multiply (as_double d v) factor)) factor)

  unfoldable pub eval_mod : Value d → Value d → Value d
  unfolding rem
  eval_mod a b =
      if is_null d a || is_null d b
      then null d
      else if int_beq b.int_value (pos 0)
      then null d
      else make_int d (rem a.int_value b.int_value)

  unfoldable pub map_text : (Bytes → Value d) → Value d → Value d
  unfolding value_as_string
  map_text f v = if is_null d v then null d else f (value_as_string v)

  -- `evalCall`, with the names in the source's order.
  unfoldable pub eval_call : CallHead → List (Value d) → Value d
  unfolding cast_value coalesce nullif map_text trim eval_substr eval_abs eval_rounded eval_round
      eval_mod to_lower
  eval_call head a =
      let v = argument a 0 in
      let fn = head.name in
      if head.is_cast
      then cast_value v head.cast_type
      else if is_named fn "COALESCE"
      then coalesce a
      else if is_named fn "NULLIF"
      then nullif v (argument a 1)
      else if is_named fn "UPPER"
      then map_text (λ s. make_text d (map to_upper s)) v
      else if is_named fn "LOWER"
      then map_text (λ s. make_text d (map to_lower s)) v
      else if is_named fn "LENGTH"
      then map_text (λ s. make_int d (pos (length s))) v
      else if is_named fn "TRIM"
      then map_text (λ s. make_text d (trim s)) v
      else if is_named fn "SUBSTR"
      then eval_substr a
      else if is_named fn "ABS"
      then eval_abs v
      else if is_named fn "CEIL"
      then eval_rounded d.ceil v
      else if is_named fn "FLOOR"
      then eval_rounded d.floor v
      else if is_named fn "ROUND"
      then eval_round a
      else if is_named fn "MOD"
      then eval_mod v (argument a 1)
      else null d
