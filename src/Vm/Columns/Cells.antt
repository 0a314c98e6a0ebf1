-- ===== src/Vm/Columns/Cells.antt =====
-- src/vm/column_store.cpp: the values in a column, and bounds that move.
use prqlite.Base.{
  ℕ, Bool, true, false, if◌then◌else◌, Bool-cases, ◌≡◌, inl, inr, refl, ap, ◌∙◌, arith,
}
use prqlite.Vm.Values.{
  Doubles, Value, ValueType, int_type, bool_type, text_type, double_type, is_double_type,
}
use prqlite.Vm.Tuples.{DataType, int, bool, float}
use prqlite.Vm.Columns.{Column, at, null_in, typed_value, column_value}
use prqlite.Vm.Columns.Order.{
  RanksDoubles, less, is_number_value, less_asym, less_weak, less_weak_above,
}

-- The type of the values in a column.
abbrev pub value_type : DataType → ValueType
value_type int = int_type
value_type float = double_type
value_type bool = bool_type
value_type _ = text_type

module _ (d : Doubles) (o : RanksDoubles d) where
  -- A column without a NaN.
  abbrev pub HasNumbers : Column d → Type 0
  HasNumbers col = (r : ℕ) → o.is_number (at d.zero_double col.doubles r) ≡ true

  -- A value that the column can hold.
  pub record IsCell (col : Column d) (v : Value d) : Type 0 where
    pub type : v.type ≡ value_type col.type
    pub number : is_number_value d o v ≡ true

  typed_value_cell :
      (t : DataType) (col : Column d) (r : ℕ)
      → HasNumbers col
      → ((typed_value d t col r).type ≡ value_type t)
        × (is_number_value d o (typed_value d t col r) ≡ true)
  unfolding typed_value is_double_type
  typed_value_cell int col r h = (refl, refl)
  typed_value_cell float col r h = (refl, h r)
  typed_value_cell bool col r h = (refl, refl)
  typed_value_cell _ col r h = (refl, refl)

  pub column_value-IsCell :
      (col : Column d) (r : ℕ)
      → HasNumbers col
      → null_in d col r ≡ false
      → IsCell col (column_value d col r)
  unfolding column_value
  column_value-IsCell col r h n =
      let e : column_value d col r ≡ typed_value d col.type col r = rw n in
      let (t, k) = typed_value_cell col.type col r h in
      record { type = ap (λ (v : Value d). v.type) e ∙ t; number = ap (is_number_value d o) e ∙ k }

  pub less_irrefl : (v : Value d) → less d v v ≡ false
  less_irrefl v = ground (arith, less_asym d o v v)

  -- A value stays in bounds when a bound moves to another value.
  pub min_keeps :
      (u v m : Value d)
      → u.type ≡ m.type
      → is_number_value d o m ≡ true
      → less d u m ≡ false
      → less d u (if less d v m then v else m) ≡ false
  min_keeps u v m t n h = elim (Bool-cases (less d v m)) [
    | inl lower ↦ rw lower (ground (arith, lower, h, less_weak d o u m v t n, less_asym d o v m))
    | inr kept ↦ rw kept h
  ]

  pub max_keeps :
      (u v m : Value d)
      → u.type ≡ m.type
      → is_number_value d o m ≡ true
      → less d m u ≡ false
      → less d (if less d m v then v else m) u ≡ false
  max_keeps u v m t n h = elim (Bool-cases (less d m v)) [
    | inl higher ↦
        rw higher (ground (arith, higher, h, less_weak_above d o u m v t n, less_asym d o m v))
    | inr kept ↦ rw kept h
  ]

  pub min_reaches : (v m : Value d) → less d v (if less d v m then v else m) ≡ false
  min_reaches v m = elim (Bool-cases (less d v m)) [
    | inl lower ↦ rw lower (less_irrefl v)
    | inr kept ↦ rw kept kept
  ]

  pub max_reaches : (v m : Value d) → less d (if less d m v then v else m) v ≡ false
  max_reaches v m = elim (Bool-cases (less d m v)) [
    | inl higher ↦ rw higher (less_irrefl v)
    | inr kept ↦ rw kept kept
  ]

  pub if_IsCell :
      (col : Column d) (b : Bool) {v w : Value d}
      → IsCell col v
      → IsCell col w
      → IsCell col (if b then v else w)
  if_IsCell col true h k = h
  if_IsCell col false h k = k
