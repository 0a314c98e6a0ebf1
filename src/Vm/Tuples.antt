-- ===== src/Vm/Tuples.antt =====
-- src/vm/tuple.cpp and include/vm/tuple.hpp: rows as bytes, a bitmap of the nulls and then the
-- columns that are not null.
pub mod Bitmap
pub mod RoundTrip
use mathlib.Core.Option
use prqlite.Base.{
  ℕ, zero, suc, ◌+◌, ◌*◌, ◌/◌, ◌%◌, ◌^◌, ◌==◌, ℤ, to_unsigned, of_unsigned, Bool, true, false, not,
  List, [], ◌∷◌, ◌++◌, Option, none, some, ◌>>=◌, if◌then◌else◌, ltb, Bytes, length, replicate,
  drop, get_elem?, le_bytes, of_le, split, bit_at, set_bit_at,
}
use prqlite.Vm.Values.{
  Doubles, Value, ValueType, null, make_int, make_bool, make_text, make_double, is_null,
  is_double_type, as_double,
}

pub data DataType : Type 0 where
  int : DataType
  bool : DataType
  text : DataType
  varchar : DataType
  float : DataType
  date : DataType
  timestamp : DataType

abbrev pub Schema : Type 0
Schema = List DataType

abbrev pub long_half : ℕ
long_half = 2 ^ 63

pub append_i64 : ℤ → Bytes
append_i64 v = le_bytes 8 (to_unsigned long_half v)

pub append_u32 : ℕ → Bytes
append_u32 v = le_bytes 4 v

-- The readers over the bytes from `pos` on; `none` for a throw.
pub read_u32 : Bytes → Option (ℕ × Bytes)
read_u32 bytes = do (b, rest) ← split 4 bytes; some (of_le b, rest)

pub read_i64 : Bytes → Option (ℤ × Bytes)
read_i64 bytes = do (b, rest) ← split 8 bytes; some (of_unsigned long_half (of_le b), rest)

pub append_text : Bytes → Bytes
unfolding append_u32
append_text s = append_u32 (length s % 2 ^ 32) ++ s

pub read_text : Bytes → Option (Bytes × Bytes)
unfolding read_u32
read_text bytes = do (n, rest) ← read_u32 bytes; split n rest

pub read_bool : Bytes → Option (Bool × Bytes)
read_bool [] = none
read_bool (b ∷ rest) = some (not (b == 0), rest)

abbrev pub bitmap_bytes : ℕ → ℕ
bitmap_bytes n = (n + 7) / 8

module _ (d : Doubles) where
  pub read_f64 : Bytes → Option (d.Double × Bytes)
  read_f64 bytes = do (b, rest) ← split 8 bytes; some (d.of_bytes b, rest)

  -- `i < values_.size() && values_[i].isNull()`.
  unfoldable pub null_at : List (Value d) → ℕ → Bool
  null_at values i = elim (get_elem? values i) [ none ↦ false | some v ↦ is_null d v ]

  -- The loop that fills the bitmap, with `n` columns to go from column `i` on.
  pub null_bits : List (Value d) → ℕ → ℕ → Bytes → Bytes
  unfolding null_at
  null_bits values zero i bitmap = bitmap
  null_bits values (suc n) i bitmap =
      null_bits values n (i + 1) (if null_at values i then set_bit_at bitmap i else bitmap)

  -- The `switch` on the column's type.
  pub put_value : DataType → Value d → Bytes
  unfolding append_i64 append_text as_double
  put_value int v = append_i64 v.int_value
  put_value float v = d.to_bytes (as_double d v)
  put_value bool v = (if v.bool_value then 1 else 0) ∷ []
  put_value text v = append_text v.text_value
  put_value varchar v = append_text v.text_value
  put_value date v = append_text v.text_value
  put_value timestamp v = append_text v.text_value

  -- The loop over the columns. Values that are missing at the end are `null`.
  pub put_columns : Schema → List (Value d) → Bytes
  unfolding put_value
  put_columns [] values = []
  put_columns (t ∷ ts) [] = put_columns ts []
  put_columns (t ∷ ts) (v ∷ values) =
      let later = put_columns ts values in if is_null d v then later else put_value t v ++ later

  unfoldable pub serialize : Schema → List (Value d) → Bytes
  unfolding null_bits put_columns
  serialize schema values =
      null_bits values (length schema) 0 (replicate (bitmap_bytes (length schema)) 0)
      ++ put_columns schema values

  pub get_value : DataType → Bytes → Option (Value d × Bytes)
  unfolding read_i64 read_f64 read_bool read_text
  get_value int bytes = do (v, rest) ← read_i64 bytes; some (make_int d v, rest)
  get_value float bytes = do (v, rest) ← read_f64 bytes; some (make_double d v, rest)
  get_value bool bytes = do (v, rest) ← read_bool bytes; some (make_bool d v, rest)
  get_value text bytes = do (v, rest) ← read_text bytes; some (make_text d v, rest)
  get_value varchar bytes = do (v, rest) ← read_text bytes; some (make_text d v, rest)
  get_value date bytes = do (v, rest) ← read_text bytes; some (make_text d v, rest)
  get_value timestamp bytes = do (v, rest) ← read_text bytes; some (make_text d v, rest)

  -- The loop over the columns from column `i` on, with the bytes from `pos` on.
  pub get_columns : Bytes → ℕ → Schema → Bytes → Option (List (Value d))
  unfolding get_value
  get_columns bytes i [] rest = some []
  get_columns bytes i (t ∷ ts) rest =
      let skipped = Option.map (◌∷◌ (null d)) (get_columns bytes (i + 1) ts rest) in
      let read = do
        (v, rest') ← get_value t rest
        Option.map (◌∷◌ v) (get_columns bytes (i + 1) ts rest')
      in if bit_at bytes i then skipped else read

  unfoldable pub deserialize : Bytes → Schema → Option (List (Value d))
  unfolding get_columns
  deserialize bytes schema =
      let n = bitmap_bytes (length schema) in
      if ltb (length bytes) n then none else get_columns bytes 0 schema (drop n bytes)
