-- ===== src/Vm/Tuples/RoundTrip.antt =====
-- src/vm/tuple.cpp: what `serialize` writes, `deserialize` reads.
use prqlite.Base.{
  ℕ, suc, ◌+◌, ◌^◌, ◌<◌, ltb, ℤ, InRange, to_unsigned, to_unsigned-lt, of_unsigned-to_unsigned,
  false, List, [], ◌∷◌, ◌++◌, append_assoc, some, if◌then◌else◌, Bytes, le_bytes, split-append,
  length-le_bytes, of_le-le_bytes, length, length-append, drop-append, replicate, length-replicate,
  get_elem?, bit_at, bit_at-append, Bool-cases, ◌≡◌, ap, inl, inr, refl, arith, ◌∙◌,
}
use native.Mathlib.Nat.{mod-eq_of_lt}
use prqlite.Vm.Values.{
  Doubles, Value, null, make_int, make_bool, make_text, make_double, is_null, as_double,
}
use prqlite.Vm.Tuples.{
  DataType, int, bool, text, varchar, float, date, timestamp, Schema, long_half, bitmap_bytes,
  append_i64, append_u32, append_text, read_u32, read_i64, read_text, read_f64, read_bool, null_at,
  null_bits, put_value, put_columns, serialize, get_value, get_columns, deserialize,
}
use prqlite.Vm.Tuples.Bitmap.{length-null_bits, bit_at-bitmap}

-- `memcpy` of a double moves eight bytes, which give the same double again.
pub record CopiesDoubles (d : Doubles) : Type 0 where
  pub size : (x : d.Double) → length (d.to_bytes x) ≡ 8
  pub back : (x : d.Double) → d.of_bytes (d.to_bytes x) ≡ x

read_i64-append_i64 :
    (v : ℤ) (rest : Bytes) → InRange long_half v → read_i64 (append_i64 v ++ rest) ≡ some (v, rest)
unfolding read_i64 append_i64
read_i64-append_i64 v rest h =
    let u = to_unsigned long_half v in
    rw (
      split-append 8 (le_bytes 8 u) rest (length-le_bytes 8 u),
      of_le-le_bytes 8 u (to_unsigned-lt long_half v (omega arith)),
      of_unsigned-to_unsigned long_half v h,
    )

read_text-append_text :
    (s rest : Bytes) → length s < 2 ^ 32 → read_text (append_text s ++ rest) ≡ some (s, rest)
unfolding read_text append_text read_u32 append_u32
read_text-append_text s rest h = rw (
  mod-eq_of_lt h,
  append_assoc (le_bytes 4 (length s)) s rest,
  split-append 4 (le_bytes 4 (length s)) (s ++ rest) (length-le_bytes 4 (length s)),
  of_le-le_bytes 4 (length s) h,
  split-append (length s) s rest refl,
)

module _ (d : Doubles) where
  -- The C++ fields hold no other values.
  pub record IsStorable (v : Value d) : Type 0 where
    pub int_value : InRange long_half v.int_value
    pub text_value : length v.text_value < 2 ^ 32

  abbrev pub AllStorable : List (Value d) → Type 0
  AllStorable [] = Unit
  AllStorable (v ∷ values) = IsStorable v × AllStorable values

  -- The value that a column of a type makes of one that is not null.
  abbrev pub of_column : DataType → Value d → Value d
  of_column int v = make_int d v.int_value
  of_column float v = make_double d (as_double d v)
  of_column bool v = make_bool d v.bool_value
  of_column _ v = make_text d v.text_value

  abbrev pub as_stored : Schema → List (Value d) → List (Value d)
  as_stored (t ∷ ts) (v ∷ values) =
      (if is_null d v then null d else of_column t v) ∷ as_stored ts values
  as_stored _ _ = []

  get_value-put_value :
      CopiesDoubles d
      → (t : DataType) (v : Value d) (rest : Bytes) → IsStorable v
      → get_value d t (put_value d t v ++ rest) ≡ some (of_column t v, rest)
  unfolding get_value put_value read_f64 read_bool
  get_value-put_value c int v rest h = rw (read_i64-append_i64 v.int_value rest h.int_value)
  get_value-put_value c float v rest h = rw (
    split-append 8 (d.to_bytes (as_double d v)) rest (c.size (as_double d v)),
    c.back (as_double d v),
  )
  get_value-put_value c bool v rest h = elim (Bool-cases v.bool_value) [
    | inl e ↦ rw e
    | inr e ↦ rw e
  ]
  get_value-put_value c text v rest h = rw (read_text-append_text v.text_value rest h.text_value)
  get_value-put_value c varchar v rest h = rw (read_text-append_text v.text_value rest h.text_value)
  get_value-put_value c date v rest h = rw (read_text-append_text v.text_value rest h.text_value)
  get_value-put_value c timestamp v rest h =
      rw (read_text-append_text v.text_value rest h.text_value)

  get_columns-put_columns :
      CopiesDoubles d
      → (bytes : Bytes) (i : ℕ) (ts : Schema) (values : List (Value d)) → length values ≡ length ts
      → AllStorable values
      → ((j : ℕ) → j < length ts → bit_at bytes (i + j) ≡ null_at d values j)
      → get_columns d bytes i ts (put_columns d ts values) ≡ some (as_stored ts values)
  unfolding get_columns put_columns null_at get_elem?
  get_columns-put_columns c bytes i [] values e s h = refl
  get_columns-put_columns c bytes i (t ∷ ts) [] e s h = absurd (omega arith)
  get_columns-put_columns c bytes i (t ∷ ts) (v ∷ values) e (s, ss) h =
      let ih =
        get_columns-put_columns c bytes (i + 1) ts values (omega arith) ss
          (λ j b. ap (bit_at bytes) (omega arith) ∙ h (suc j) (omega arith)) in
      let here : bit_at bytes i ≡ is_null d v =
        ap (bit_at bytes) (omega arith) ∙ h 0 (omega arith) in
      elim (Bool-cases (is_null d v)) [
        | inl gone ↦ rw (here, gone, ih)
        | inr kept ↦ rw (here, kept, get_value-put_value c t v (put_columns d ts values) s, ih)
      ]

  -- A row with a value for every column comes back from its bytes with every null as null and
  -- every other value as its column's type stores it: an integer in a float column is a double.
  -- Its integers fit 64 bits and its texts are shorter than 2 ^ 32 bytes.
  pub deserialize-serialize :
      CopiesDoubles d
      → (schema : Schema) (values : List (Value d)) → length values ≡ length schema
      → AllStorable values
      → deserialize d (serialize d schema values) schema ≡ some (as_stored schema values)
  unfolding deserialize serialize
  deserialize-serialize c schema values e s =
      let n = length schema in
      let bitmap = null_bits d values n 0 (replicate (bitmap_bytes n) 0) in
      let columns = put_columns d schema values in
      let size : length bitmap ≡ bitmap_bytes n =
        length-null_bits d values n 0 (replicate (bitmap_bytes n) 0)
        ∙ length-replicate (bitmap_bytes n) 0 in
      let long : ltb (length (bitmap ++ columns)) (bitmap_bytes n) ≡ false =
        ground (arith, length-append bitmap columns, size) in
      rw (long, drop-append (bitmap_bytes n) bitmap columns size)
        (get_columns-put_columns c (bitmap ++ columns) 0 schema values e s (λ j b.
          ap (bit_at (bitmap ++ columns)) (omega arith)
          ∙ bit_at-append bitmap columns j (omega (arith, size))
          ∙ bit_at-bitmap d values n j b))
