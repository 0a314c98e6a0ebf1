-- ===== src/Vm/Columns/Zones.antt =====
-- src/vm/column_store.cpp: the zones that `buildZones` makes bound the values of their blocks.
use prqlite.Base.{
  ℕ, zero, suc, ◌+◌, ◌*◌, ◌<◌, ◌≤◌, true, false, if◌then◌else◌, Bool-cases, ◌≡◌, ◌⊎◌, inl, inr,
  refl, ap, sym, subst, ◌∙◌, arith,
}
use prqlite.Vm.Values.{Doubles, compare_values}
use prqlite.Vm.Columns.{
  Column, ColumnZone, fold_rows, block_rows, block_size, is_positive, null_in, column_value,
  zone_step, block_zone, empty_zone,
}
use prqlite.Vm.Columns.Order.{RanksDoubles, less, is_positive-less}
use prqlite.Vm.Columns.Cells.{
  HasNumbers, IsCell, column_value-IsCell, less_irrefl, min_keeps, max_keeps, min_reaches,
  max_reaches, if_IsCell,
}

module _ (d : Doubles) (o : RanksDoubles d) where
  -- The zone bounds the values of the rows from `lo` to `hi`.
  pub record Covers (col : Column d) (z : ColumnZone d) (lo hi : ℕ) : Type 0 where
    pub min_cell : z.has_non_null ≡ true → IsCell d o col z.min
    pub max_cell : z.has_non_null ≡ true → IsCell d o col z.max
    pub seen : (r : ℕ) → lo ≤ r → r < hi → null_in d col r ≡ false → z.has_non_null ≡ true
    pub above_min :
        (r : ℕ)
        → lo ≤ r
        → r < hi
        → null_in d col r ≡ false
        → less d (column_value d col r) z.min ≡ false
    pub below_max :
        (r : ℕ)
        → lo ≤ r
        → r < hi
        → null_in d col r ≡ false
        → less d z.max (column_value d col r) ≡ false

  -- The row itself, or one before it.
  last_or : (r s : ℕ) → r < suc s → (r < s) ⊎ (r ≡ s)
  last_or r s h = ground (arith, h)

  zone_null :
      (col : Column d) (z : ColumnZone d) (r : ℕ) → null_in d col r ≡ true → zone_step d col z r ≡ z
  unfolding zone_step
  zone_null col z r h = rw h

  zone_first :
      (col : Column d) (z : ColumnZone d) (r : ℕ)
      → null_in d col r ≡ false
      → z.has_non_null ≡ false
      → zone_step d col z r
        ≡ record { has_non_null = true; min = column_value d col r; max = column_value d col r }
  unfolding zone_step
  zone_first col z r h n = rw (h, n)

  zone_moved :
      (col : Column d) (z : ColumnZone d) (r : ℕ)
      → null_in d col r ≡ false
      → z.has_non_null ≡ true
      → let v = column_value d col r in
        zone_step d col z r ≡ record {
          has_non_null = true;
          min = if less d v z.min then v else z.min;
          max = if is_positive (compare_values d v z.max) then v else z.max;
        }
  unfolding zone_step
  zone_moved col z r h n = rw (h, n)

  zone_next :
      (col : Column d) (z : ColumnZone d) (r : ℕ)
      → null_in d col r ≡ false
      → z.has_non_null ≡ true
      → let v = column_value d col r in
        zone_step d col z r ≡ record {
          has_non_null = true;
          min = if less d v z.min then v else z.min;
          max = if less d z.max v then v else z.max;
        }
  zone_next col z r h n =
      let v = column_value d col r in
      zone_moved col z r h n
      ∙ ap
          (λ b. record {
            has_non_null = true;
            min = if less d v z.min then v else z.min;
            max = if b then v else z.max;
          })
          (is_positive-less d o v z.max)

  -- A row that is null changes nothing.
  Covers-null :
      (col : Column d) (z : ColumnZone d) (lo r : ℕ)
      → Covers col z lo r
      → null_in d col r ≡ true
      → Covers col z lo (suc r)
  Covers-null col z lo r c h =
      let before : (q : ℕ) → q < suc r → null_in d col q ≡ false → q < r = λ q k n.
        elim (last_or q r k) [
          | inl earlier ↦ earlier
          | inr same ↦ absurd (cc (h, n, ap (null_in d col) same))
        ] in
      record {
        min_cell = c.min_cell;
        max_cell = c.max_cell;
        seen = λ q l k n. c.seen q l (before q k n) n;
        above_min = λ q l k n. c.above_min q l (before q k n) n;
        below_max = λ q l k n. c.below_max q l (before q k n) n;
      }

  Covers-first :
      (col : Column d) (z : ColumnZone d) (lo r : ℕ)
      → HasNumbers d o col
      → Covers col z lo r
      → null_in d col r ≡ false
      → z.has_non_null ≡ false
      → let v = column_value d col r in
        Covers col (record { has_non_null = true; min = v; max = v }) lo (suc r)
  Covers-first col z lo r h c n none =
      let v = column_value d col r in
      let only : (q : ℕ) → lo ≤ q → q < suc r → null_in d col q ≡ false → q ≡ r = λ q l k m.
        elim (last_or q r k) [
          | inl earlier ↦ absurd (cc (none, c.seen q l earlier m))
          | inr same ↦ same
        ] in
      record {
        min_cell = λ _. column_value-IsCell d o col r h n;
        max_cell = λ _. column_value-IsCell d o col r h n;
        seen = λ _ _ _ _. refl;
        above_min =
            λ q l k m. ap (λ i. less d (column_value d col i) v) (only q l k m) ∙ less_irrefl d o v;
        below_max =
            λ q l k m. ap (λ i. less d v (column_value d col i)) (only q l k m) ∙ less_irrefl d o v;
      }

  Covers-next :
      (col : Column d) (z : ColumnZone d) (lo r : ℕ)
      → HasNumbers d o col
      → Covers col z lo r
      → null_in d col r ≡ false
      → z.has_non_null ≡ true
      → let v = column_value d col r in
        Covers col
          (record {
            has_non_null = true;
            min = if less d v z.min then v else z.min;
            max = if less d z.max v then v else z.max;
          })
          lo
          (suc r)
  Covers-next col z lo r h c n some_seen =
      let v = column_value d col r in
      let here = column_value-IsCell d o col r h n in
      let low = c.min_cell some_seen in
      let high = c.max_cell some_seen in
      record {
        min_cell = λ _. if_IsCell d o col (less d v z.min) here low;
        max_cell = λ _. if_IsCell d o col (less d z.max v) here high;
        seen = λ _ _ _ _. refl;
        above_min = λ q l k m. elim (last_or q r k) [
          | inl earlier ↦
              min_keeps d o (column_value d col q) v z.min
                ((column_value-IsCell d o col q h m).type ∙ sym low.type) low.number
                (c.above_min q l earlier m)
          | inr same ↦
              ap (λ i. less d (column_value d col i) (if less d v z.min then v else z.min)) same
              ∙ min_reaches d o v z.min
        ];
        below_max = λ q l k m. elim (last_or q r k) [
          | inl earlier ↦
              max_keeps d o (column_value d col q) v z.max
                ((column_value-IsCell d o col q h m).type ∙ sym high.type) high.number
                (c.below_max q l earlier m)
          | inr same ↦
              ap (λ i. less d (if less d z.max v then v else z.max) (column_value d col i)) same
              ∙ max_reaches d o v z.max
        ];
      }

  Covers-step :
      (col : Column d) (z : ColumnZone d) (lo r : ℕ)
      → HasNumbers d o col
      → Covers col z lo r
      → Covers col (zone_step d col z r) lo (suc r)
  Covers-step col z lo r h c = elim (Bool-cases (null_in d col r)) [
    | inl gone ↦
        subst (λ x. Covers col x lo (suc r)) (sym (zone_null col z r gone))
          (Covers-null col z lo r c gone)
    | inr n ↦ elim (Bool-cases z.has_non_null) [
      | inl later ↦
          subst (λ x. Covers col x lo (suc r)) (sym (zone_next col z r n later))
            (Covers-next col z lo r h c n later)
      | inr first ↦
          subst (λ x. Covers col x lo (suc r)) (sym (zone_first col z r n first))
            (Covers-first col z lo r h c n first)
    ]
  ]

  Covers-rows :
      (col : Column d) (z : ColumnZone d) (lo r n : ℕ)
      → HasNumbers d o col
      → Covers col z lo r
      → Covers col (fold_rows (zone_step d col) z r n) lo (r + n)
  unfolding fold_rows
  Covers-rows col z lo r zero h c = subst (Covers col z lo) (omega arith) c
  Covers-rows col z lo r (suc n) h c =
      subst (Covers col (fold_rows (zone_step d col) (zone_step d col z r) (suc r) n) lo)
        (omega arith)
        (Covers-rows col (zone_step d col z r) lo (suc r) n h (Covers-step col z lo r h c))

  pub Covers-block :
      (col : Column d) (rows b : ℕ)
      → HasNumbers d o col
      → Covers col (block_zone d col rows b) (b * block_rows) (b * block_rows + block_size rows b)
  unfolding block_zone
  Covers-block col rows b h =
      Covers-rows col (empty_zone d) (b * block_rows) (b * block_rows) (block_size rows b) h
        (record {
          min_cell = λ k. absurd (ground (arith, k));
          max_cell = λ k. absurd (ground (arith, k));
          seen = λ r l k n. absurd (omega (arith, l, k));
          above_min = λ r l k n. absurd (omega (arith, l, k));
          below_max = λ r l k n. absurd (omega (arith, l, k));
        })
