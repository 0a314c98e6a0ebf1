-- ===== src/Vm/Columns/Skip.antt =====
-- src/vm/column_store.cpp: a block that is skipped has no row that passes.
use prqlite.Base.{
  ℕ, zero, suc, ◌+◌, ◌*◌, ◌<◌, ◌≤◌, magnitude, ℤ, true, false, map, List, [], ◌∷◌, Option, none,
  some, get_elem?, Bool-cases, Option-cases, ◌≡◌, inl, inr, refl, ap, sym, subst, ◌∙◌, arith,
}
use prqlite.Vm.Values.{Doubles, Value, compare_values}
use prqlite.Vm.Eval.{holds_op}
use prqlite.Vm.Columns.{
  Column, ColumnZone, TableColumns, Term, count_up, block_rows, block_count, block_size, null_in,
  column_value, block_zone, build_zones, excludes, excludes_of, block_excludes_term, column_at,
  term_skips, block_skippable, holds_of, term_passes,
}
use prqlite.Vm.Columns.Order.{
  RanksDoubles, less, less_asym, less_weak, less_weak_above, compare_values_signs,
}
use prqlite.Vm.Columns.Cells.{HasNumbers, IsCell, column_value-IsCell}
use prqlite.Vm.Columns.Zones.{Covers, Covers-block}
use prqlite.Vm.Columns.Aggregate.{column_passes, passes_terms}
use prqlite.Frontend.Ast.{ComparisonOp}

module _ (d : Doubles) (o : RanksDoubles d) where
  -- The facts on a value between the ends of a zone and a literal that is compared with both.
  record Between (col : Column d) (v low high literal : Value d) (c a b : ℤ) : Type 0 where
    value : IsCell d o col v
    low_cell : IsCell d o col low
    high_cell : IsCell d o col high
    above : less d v low ≡ false
    below : less d high v ≡ false
    with_value : compare_values d v literal ≡ some c
    with_low : compare_values d literal low ≡ some a
    with_high : compare_values d literal high ≡ some b

  excludes_sound :
      (op : ComparisonOp) (col : Column d) (v low high literal : Value d) (c a b : ℤ)
      → Between col v low high literal c a b
      → excludes op (compare_values d low high) a b ≡ true
      → holds_op op c ≡ false
  unfolding holds_op excludes
  excludes_sound ComparisonOp.eq col v low high literal c a b w h = ground (
    arith,
    h,
    w.above,
    w.below,
    compare_values_signs d o v literal c w.with_value,
    compare_values_signs d o literal low a w.with_low,
    compare_values_signs d o literal high b w.with_high,
    less_weak d o high v literal (w.high_cell.type ∙ sym w.value.type) w.value.number,
    less_weak_above d o low v literal (w.low_cell.type ∙ sym w.value.type) w.value.number,
  )
  excludes_sound ComparisonOp.lt col v low high literal c a b w h = ground (
    arith,
    h,
    w.above,
    compare_values_signs d o v literal c w.with_value,
    compare_values_signs d o literal low a w.with_low,
    less_asym d o literal low,
    less_weak d o v low literal (w.value.type ∙ sym w.low_cell.type) w.low_cell.number,
  )
  excludes_sound ComparisonOp.leq col v low high literal c a b w h = ground (
    arith,
    h,
    w.above,
    compare_values_signs d o v literal c w.with_value,
    compare_values_signs d o literal low a w.with_low,
    less_asym d o v literal,
    less_weak_above d o low v literal (w.low_cell.type ∙ sym w.value.type) w.value.number,
  )
  excludes_sound ComparisonOp.gt col v low high literal c a b w h = ground (
    arith,
    h,
    w.below,
    compare_values_signs d o v literal c w.with_value,
    compare_values_signs d o literal high b w.with_high,
    less_weak_above d o v high literal (w.value.type ∙ sym w.high_cell.type) w.high_cell.number,
  )
  excludes_sound ComparisonOp.geq col v low high literal c a b w h = ground (
    arith,
    h,
    w.below,
    compare_values_signs d o v literal c w.with_value,
    compare_values_signs d o literal high b w.with_high,
    less_asym d o v literal,
    less_weak d o high v literal (w.high_cell.type ∙ sym w.value.type) w.value.number,
  )
  excludes_sound ComparisonOp.neq col v low high literal c a b w h =
      elim (Option-cases (compare_values d low high)) [
        | inl apart ↦ absurd (ground (arith, h, apart))
        | inr (s, same) ↦ ground (
          arith,
          h,
          same,
          w.above,
          w.below,
          compare_values_signs d o low high s same,
          compare_values_signs d o v literal c w.with_value,
          compare_values_signs d o literal low a w.with_low,
          less_weak d o v low literal (w.value.type ∙ sym w.low_cell.type) w.low_cell.number,
          less_weak_above d o v high literal (w.value.type ∙ sym w.high_cell.type)
              w.high_cell.number,
          less_weak_above d o high low literal (w.high_cell.type ∙ sym w.low_cell.type)
              w.low_cell.number,
        )
      ]

  excludes_of-some :
      (op : ComparisonOp) (span x y : Option ℤ)
      → excludes_of op span x y ≡ true
      → (a : ℤ) × (b : ℤ) × (x ≡ some a) × (y ≡ some b) × (excludes op span a b ≡ true)
  unfolding excludes_of
  excludes_of-some op span none y h = absurd (ground (arith, h))
  excludes_of-some op span (some a) none h = absurd (ground (arith, h))
  excludes_of-some op span (some a) (some b) h = (a, b, refl, refl, h)

  excluded_by :
      (term : Term d) (z : ColumnZone d)
      → z.has_non_null ≡ true
      → block_excludes_term d term z ≡ true
      → excludes_of term.op
          (compare_values d z.min z.max)
          (compare_values d term.literal z.min)
          (compare_values d term.literal z.max)
        ≡ true
  unfolding block_excludes_term
  excluded_by term z n h = ground (arith, n, h)

  term_passes_value :
      (term : Term d) (col : Column d) (r : ℕ)
      → null_in d col r ≡ false
      → term_passes d term col r
        ≡ holds_of term.op (compare_values d (column_value d col r) term.literal)
  unfolding term_passes
  term_passes_value term col r h = rw h

  -- A block whose zone excludes a term has no row that passes the term.
  term_excluded :
      (term : Term d) (col : Column d) (z : ColumnZone d) (lo hi r : ℕ)
      → HasNumbers d o col
      → Covers d o col z lo hi
      → lo ≤ r
      → r < hi
      → block_excludes_term d term z ≡ true
      → term_passes d term col r ≡ false
  unfolding term_passes holds_of
  term_excluded term col z lo hi r numbers covers l k h = elim (Bool-cases (null_in d col r)) [
    | inl gone ↦ rw gone
    | inr here ↦ elim (Option-cases (compare_values d (column_value d col r) term.literal)) [
      | inl apart ↦ term_passes_value term col r here ∙ ap (holds_of term.op) apart
      | inr (c, same) ↦
          let seen = covers.seen r l k here in
          let (a, b, with_low, with_high, out) =
            excludes_of-some term.op _ _ _ (excluded_by term z seen h) in
          term_passes_value term col r here
          ∙ ap (holds_of term.op) same
          ∙ excludes_sound term.op col (column_value d col r) z.min z.max term.literal c a b
              (record {
                value = column_value-IsCell d o col r numbers here;
                low_cell = covers.min_cell seen;
                high_cell = covers.max_cell seen;
                above = covers.above_min r l k here;
                below = covers.below_max r l k here;
                with_value = same;
                with_low = with_low;
                with_high = with_high;
              })
              out
    ]
  ]

  -- The table's columns have the zones that `buildZones` makes, and no NaN.
  pub record IsBuilt (table : TableColumns d) : Type 0 where
    pub zones :
        (n : ℕ) (col : Column d)
        → get_elem? table.columns n ≡ some col
        → col.zones ≡ (build_zones d col table.rows).zones
    pub numbers :
        (n : ℕ) (col : Column d) → get_elem? table.columns n ≡ some col → HasNumbers d o col

  get_elem?-count_up :
      (f : ℕ → ColumnZone d) (start n b : ℕ) (z : ColumnZone d)
      → get_elem? (map f (count_up start n)) b ≡ some z
      → z ≡ f (start + b)
  unfolding count_up get_elem?
  get_elem?-count_up f start zero b z h = absurd (ground (arith, h))
  get_elem?-count_up f start (suc n) zero z h =
      let e : f start ≡ z = ground (arith, h) in sym e ∙ ap f (omega arith)
  get_elem?-count_up f start (suc n) (suc b) z h =
      get_elem?-count_up f (suc start) n b z h ∙ ap f (omega arith)

  term_skipped :
      (term : Term d) (table : TableColumns d) (b r : ℕ)
      → IsBuilt table
      → b * block_rows ≤ r
      → r < b * block_rows + block_size table.rows b
      → term_skips d term b (column_at d table term.column) ≡ true
      → column_passes d term r (column_at d table term.column) ≡ false
  unfolding build_zones
  term_skipped term table b r built l k h = elim (Option-cases (column_at d table term.column)) [
    | inl missing ↦ absurd (ground (arith, h, missing))
    | inr (col, found) ↦ elim (Option-cases (get_elem? col.zones b)) [
      | inl behind ↦ absurd (ground (arith, h, found, behind))
      | inr (z, at_b) ↦
          let inside : get_elem? table.columns (magnitude term.column) ≡ some col =
            ground (arith, found) in
          let zone : z ≡ block_zone d col table.rows b =
            get_elem?-count_up (block_zone d col table.rows) 0 (block_count table.rows) b z
              (ap (λ zs. get_elem? zs b) (sym (built.zones _ col inside)) ∙ at_b)
            ∙ (let e : 0 + b ≡ b = omega arith in ap (block_zone d col table.rows) e) in
          let numbers = built.numbers _ col inside in
          ap (column_passes d term r) found
          ∙ term_excluded term col z (b * block_rows) (b * block_rows + block_size table.rows b) r
              numbers
              (subst
                (λ x. Covers d o col x (b * block_rows) (b * block_rows + block_size table.rows b))
                (sym zone) (Covers-block d o col table.rows b numbers))
              l k (ground (arith, h, found, at_b))
    ]
  ]

  pub block_skipped :
      (terms : List (Term d)) (table : TableColumns d) (b r : ℕ)
      → IsBuilt table
      → b * block_rows ≤ r
      → r < b * block_rows + block_size table.rows b
      → block_skippable d terms table b ≡ true
      → passes_terms d terms table r ≡ false
  unfolding block_skippable passes_terms
  block_skipped [] table b r built l k h = absurd (ground (arith, h))
  block_skipped (term ∷ terms) table b r built l k h =
      elim (Bool-cases (term_skips d term b (column_at d table term.column))) [
        | inl skipped ↦ rw (term_skipped term table b r built l k skipped)
        | inr kept ↦
            ground (arith, block_skipped terms table b r built l k (ground (arith, h, kept)))
      ]
