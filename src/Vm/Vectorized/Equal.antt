-- ===== src/Vm/Vectorized/Equal.antt =====
-- src/vm/vectorized.cpp: the hash join as an equi-join, by the comparison of SQL values.
use prqlite.Base.{
  ℕ, ℤ, pos, negsuc, ltb, InRange, int_beq, int_beq_iff, Bool, true, false, not, ◌&&◌, ◌||◌, map,
  List, [], ◌∷◌, ◌++◌, Option, none, some, if◌then◌else◌, Bytes, bytes_beq, bytes_beq_iff, length,
  Bool-cases, ◌≡◌, inl, inr, refl, ap, sym, ◌∙◌, arith,
}
use prqlite.Vm.Values.{
  Doubles, Value, ValueType, null_type, int_type, bool_type, text_type, double_type, null, is_null,
  is_null_type, is_int_type, is_double_type, is_numeric, type_number, int_less, compare_text,
  bool_difference, three_way, compare_same, compare_values, print_nat, print_int, digits_from,
  string_of, to_string,
}
use prqlite.Vm.Tuples.{long_half}
use prqlite.Vm.Columns.{at}
use prqlite.Vm.Eval.Calls.{is_zero, stoll}
use prqlite.Vm.Eval.Calls.Casts.{stoll-print_int}
use prqlite.Vm.Vectorized.Join.{
  key_of, build_side, probe_row, rows_with_key, probe_row-rows_with_key,
}

is_zero-int_less : (a b : ℤ) → is_zero (three_way (int_less a b) (int_less b a)) ≡ int_beq a b
unfolding is_zero three_way int_less int_beq
is_zero-int_less (pos a) (pos b) = ground arith
is_zero-int_less (pos a) (negsuc b) = refl
is_zero-int_less (negsuc a) (pos b) = refl
is_zero-int_less (negsuc a) (negsuc b) = ground arith

is_zero-compare_text : (a b : Bytes) → is_zero (some (compare_text a b)) ≡ bytes_beq a b
unfolding is_zero compare_text bytes_beq int_beq
is_zero-compare_text [] [] = refl
is_zero-compare_text [] (y ∷ b) = refl
is_zero-compare_text (x ∷ a) [] = refl
is_zero-compare_text (x ∷ a) (y ∷ b) = ground (arith, is_zero-compare_text a b)

abbrev from_some : Option ℤ → ℤ
from_some none = pos 0
from_some (some a) = a

-- Different integers are printed differently.
bytes_beq-print_int :
    (a b : ℤ)
    → InRange long_half a
    → InRange long_half b
    → bytes_beq (print_int a) (print_int b) ≡ int_beq a b
bytes_beq-print_int a b h k = elim (Bool-cases (bytes_beq (print_int a) (print_int b))) [
  | inl same ↦
      let printed = (bytes_beq_iff (print_int a) (print_int b)).0 same in
      same
      ∙ sym (
          (int_beq_iff a b).1
            (ap from_some (sym (stoll-print_int a h) ∙ ap stoll printed ∙ stoll-print_int b k)))
  | inr other ↦ elim (Bool-cases (int_beq a b)) [
    | inl equal ↦
        (bytes_beq_iff (print_int a) (print_int b)).1 (ap print_int ((int_beq_iff a b).0 equal))
        ∙ sym equal
    | inr different ↦ other ∙ sym different
  ]
]

module _ (d : Doubles) where
  -- A key that is no double; its number is a 64-bit integer.
  unfoldable pub IsKey : Value d → Type 0
  IsKey v = (is_double_type v.type ≡ false) × InRange long_half v.int_value

  -- SQL's equality: the comparison of the two gives 0, which it never does with NULL.
  unfoldable pub equal_values : Value d → Value d → Bool
  equal_values a b = is_zero (compare_values d a b)

  same_key :
      (s t : ValueType) (a b : Value d)
      → a.type ≡ s
      → b.type ≡ t
      → InRange long_half a.int_value
      → InRange long_half b.int_value
      → (is_double_type s ≡ false) × (is_null_type s ≡ false)
      → (is_double_type t ≡ false) × (is_null_type t ≡ false)
      → bytes_beq (key_of d a) (key_of d b) ≡ equal_values a b
  unfolding is_double_type key_of to_string string_of print_nat digits_from type_number equal_values
      compare_values compare_same is_numeric is_int_type bytes_beq bool_difference is_zero int_beq
  same_key int_type int_type a b e f ra rb h k =
      rw (e, f)
        (bytes_beq-print_int a.int_value b.int_value ra rb
          ∙ sym (is_zero-int_less a.int_value b.int_value))
  same_key int_type bool_type a b e f ra rb h k = rw (e, f) refl
  same_key int_type text_type a b e f ra rb h k = rw (e, f) refl
  same_key bool_type int_type a b e f ra rb h k = rw (e, f) refl
  same_key bool_type bool_type a b e f ra rb h k = rw (e, f) (ground arith)
  same_key bool_type text_type a b e f ra rb h k = rw (e, f) refl
  same_key text_type int_type a b e f ra rb h k = rw (e, f) refl
  same_key text_type bool_type a b e f ra rb h k = rw (e, f) refl
  same_key text_type text_type a b e f ra rb h k =
      rw (e, f) (sym (is_zero-compare_text a.text_value b.text_value))
  same_key null_type t a b e f ra rb (h, h') k = cc
  same_key double_type t a b e f ra rb (h, h') k = cc
  same_key int_type null_type a b e f ra rb h (k, k') = cc
  same_key int_type double_type a b e f ra rb h (k, k') = cc
  same_key bool_type null_type a b e f ra rb h (k, k') = cc
  same_key bool_type double_type a b e f ra rb h (k, k') = cc
  same_key text_type null_type a b e f ra rb h (k, k') = cc
  same_key text_type double_type a b e f ra rb h (k, k') = cc

  equal_values-null :
      (a b : Value d) → (is_null d a || is_null d b) ≡ true → equal_values a b ≡ false
  unfolding equal_values compare_values is_zero
  equal_values-null a b h = rw h

  bytes_beq-key_of :
      (a b : Value d)
      → IsKey a
      → IsKey b
      → is_null d b ≡ false
      → (not (is_null d a) && bytes_beq (key_of d a) (key_of d b)) ≡ equal_values a b
  unfolding IsKey
  bytes_beq-key_of a b (na, ra) (nb, rb) k = elim (Bool-cases (is_null d a)) [
    | inl gone ↦ rw gone (sym (equal_values-null a b (rw gone)))
    | inr here ↦ rw here (same_key a.type b.type a b refl refl ra rb (na, here) (nb, k))
  ]

  -- The rows whose key equals `k`, in order.
  abbrev pub rows_equal : ℕ → Value d → List (List (Value d)) → List (List (Value d))
  rows_equal column k [] = []
  rows_equal column k (tuple ∷ tuples) =
      if ltb column (length tuple) && equal_values (at (null d) tuple column) k
      then tuple ∷ rows_equal column k tuples
      else rows_equal column k tuples

  abbrev pub AreKeys : ℕ → List (List (Value d)) → Type 0
  AreKeys column [] = Unit
  AreKeys column (tuple ∷ tuples) = IsKey (at (null d) tuple column) × AreKeys column tuples

  rows_with_key-rows_equal :
      (column : ℕ) (k : Value d) (tuples : List (List (Value d)))
      → IsKey k
      → is_null d k ≡ false
      → AreKeys column tuples
      → rows_with_key d column (key_of d k) tuples ≡ rows_equal column k tuples
  rows_with_key-rows_equal column k [] h here keys = refl
  rows_with_key-rows_equal column k (tuple ∷ tuples) h here (key, keys) = rw (
    bytes_beq-key_of (at (null d) tuple column) k key h here,
    rows_with_key-rows_equal column k tuples h here keys,
  )

  rows_equal-null :
      (column : ℕ) (k : Value d) (tuples : List (List (Value d)))
      → is_null d k ≡ true
      → rows_equal column k tuples ≡ []
  rows_equal-null column k [] h = refl
  rows_equal-null column k (tuple ∷ tuples) h =
      let v = at (null d) tuple column in
      ground (arith, equal_values-null v k (ground (arith, h)), rows_equal-null column k tuples h)

  -- A row of the probe side is joined with exactly the rows of the build side whose key equals its
  -- own by the comparison of SQL values, in their order; a key that is NULL equals none. The keys
  -- are NULLs, booleans, texts or 64-bit integers.
  pub probe_row-build_side :
      (column : ℕ) (tuples : List (List (Value d))) (k : Value d) (row : List (Value d))
      → AreKeys column tuples
      → IsKey k
      → probe_row d (build_side d column [] tuples) k row
        ≡ map (λ build_row. row ++ build_row) (rows_equal column k tuples)
  probe_row-build_side column tuples k row keys h =
      probe_row-rows_with_key d column tuples k row ∙ elim (Bool-cases (is_null d k)) [
        | inl gone ↦ rw (gone, rows_equal-null column k tuples gone)
        | inr here ↦ rw (here, rows_with_key-rows_equal column k tuples h here keys)
      ]
