-- ===== src/Vm/Tuples/Bitmap.antt =====
-- src/vm/tuple.cpp: the bitmap of the nulls.
use prqlite.Base.{
  ℕ, zero, suc, ◌+◌, ◌*◌, ◌/◌, ◌≤◌, ◌<◌, ltb, leb, ◌==◌, true, false, ◌&&◌, ◌||◌, List, none, some,
  Bytes, length, replicate, length-replicate, get_elem?, length-modify, bit_at, set_bit_at,
  bit_at-set_bit_at, test_bit, set_bit, ◌%◌, Bool-cases, ◌≡◌, ap, inl, inr, refl, arith, ◌⊎◌,
}
use prqlite.Vm.Values.{Doubles, Value}
use prqlite.Vm.Tuples.{bitmap_bytes, null_at, null_bits}

test_bit-zero : (k : ℕ) → test_bit k 0 ≡ false
unfolding test_bit
test_bit-zero zero = refl
test_bit-zero (suc k) = test_bit-zero k

get_elem?-replicate :
    (n i : ℕ)
    → (get_elem? (replicate {A = ℕ} n 0) i ≡ none) ⊎ (get_elem? (replicate {A = ℕ} n 0) i ≡ some 0)
unfolding get_elem?
get_elem?-replicate zero i = inl refl
get_elem?-replicate (suc n) zero = inr refl
get_elem?-replicate (suc n) (suc i) = get_elem?-replicate n i

bit_at-replicate : (n j : ℕ) → bit_at (replicate n 0) j ≡ false
unfolding bit_at
bit_at-replicate n j = elim (get_elem?-replicate n (j / 8)) [
  | inl e ↦ ground (arith, e)
  | inr e ↦ ground (arith, e, test_bit-zero (j % 8))
]

length-set_bit_at : (bytes : Bytes) (i : ℕ) → length (set_bit_at bytes i) ≡ length bytes
unfolding set_bit_at
length-set_bit_at bytes i = length-modify bytes (i / 8) (set_bit (i % 8))

module _ (d : Doubles) where
  pub length-null_bits :
      (values : List (Value d)) (n i : ℕ) (bitmap : Bytes)
      → length (null_bits d values n i bitmap) ≡ length bitmap
  unfolding null_bits
  length-null_bits values zero i bitmap = refl
  length-null_bits values (suc n) i bitmap = elim (Bool-cases (null_at d values i)) [
    | inl null ↦ ground (
      arith,
      null,
      length-null_bits values n (i + 1) (set_bit_at bitmap i),
      length-set_bit_at bitmap i,
    )
    | inr full ↦ ground (arith, full, length-null_bits values n (i + 1) bitmap)
  ]

  -- A split on the column that is looked at.
  same_column :
      (values : List (Value d)) (i j : ℕ)
      → ((i == j) ≡ false) ⊎ (((i == j) ≡ true) × (null_at d values i ≡ null_at d values j))
  same_column values i j = elim (Bool-cases (i == j)) [
    | inl same ↦ inr (same, ap (null_at d values) (ground (arith, same)))
    | inr ne ↦ inl ne
  ]

  -- The loop marks the nulls among its columns and leaves the other bits.
  bit_at-null_bits :
      (values : List (Value d)) (n i : ℕ) (bitmap : Bytes) (j : ℕ)
      → i + n ≤ 8 * length bitmap
      → bit_at (null_bits d values n i bitmap) j
        ≡ ((leb i j && (ltb j (i + n) && null_at d values j)) || bit_at bitmap j)
  unfolding null_bits
  bit_at-null_bits values zero i bitmap j h = ground arith
  bit_at-null_bits values (suc n) i bitmap j h = elim (Bool-cases (null_at d values i)) [
    | inl null ↦ ground (
      arith,
      null,
      bit_at-null_bits values n (i + 1) (set_bit_at bitmap i) j
          (omega (arith, length-set_bit_at bitmap i)),
      bit_at-set_bit_at bitmap i j (omega arith),
      same_column values i j,
    )
    | inr full ↦ ground (
      arith,
      full,
      bit_at-null_bits values n (i + 1) bitmap j (omega arith),
      same_column values i j,
    )
  ]

  -- Bit `j` of a row's bitmap says whether column `j` is null.
  pub bit_at-bitmap :
      (values : List (Value d)) (n j : ℕ)
      → j < n
      → bit_at (null_bits d values n 0 (replicate (bitmap_bytes n) 0)) j ≡ null_at d values j
  bit_at-bitmap values n j h = ground (
    arith,
    bit_at-null_bits values n 0 (replicate (bitmap_bytes n) 0) j
        (omega (arith, length-replicate {A = ℕ} (bitmap_bytes n) 0)),
    bit_at-replicate (bitmap_bytes n) j,
  )
