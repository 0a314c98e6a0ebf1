-- ===== src/Vm/Columns/Aggregate.antt =====
-- src/vm/column_store.cpp: the aggregates over a table by columns. `columnarAggregate` spells out
-- in its loop what `accumulateRow` and `finalizePartial` say of the partial accumulators.
use prqlite.Base.{
  ℕ, suc, ◌+◌, ◌*◌, ◌==◌, ℤ, pos, wrap, ◌+ℤ◌, Bool, true, false, ◌||◌, map, List, [], ◌∷◌, Option,
  none, some, if◌then◌else◌,
}
use prqlite.Vm.Values.{Doubles, Value, null, make_int, make_double, is_negative, compare_values}
use prqlite.Vm.Tuples.{DataType, float, long_half}
use prqlite.Vm.Columns.{
  Column, TableColumns, Term, at, fold_rows, count_up, block_rows, block_count, block_size,
  is_positive, null_in, column_value, column_at, block_skippable, term_passes,
}

pub data AggregateKind : Type 0 where
  count_star count sum avg min max : AggregateKind

pub record VecAggregate : Type 0 where
  pub kind : AggregateKind
  pub column : ℤ

pub record SkipStats : Type 0 where
  pub blocks_total : ℕ
  pub blocks_skipped : ℕ

abbrev is_float : DataType → Bool
is_float float = true
is_float _ = false

module _ (d : Doubles) where
  -- `best` is `none` where `hasBest` is false. A table has less than 2 ^ 63 rows to count.
  pub record PartAcc : Type 0 where
    pub count : ℕ
    pub isum : ℤ
    pub dsum : d.Double
    pub is_float : Bool
    pub best : Option (Value d)

  abbrev pub empty_acc : PartAcc
  empty_acc = record {
    count = 0;
    isum = pos 0;
    dsum = d.zero_double;
    is_float = false;
    best = none;
  }

  -- The better one of two values, `v` where it is strictly better.
  unfoldable pub better : AggregateKind → Value d → Value d → Value d
  unfolding is_positive
  better AggregateKind.min v best = if is_negative (compare_values d v best) then v else best
  better AggregateKind.max v best = if is_positive (compare_values d v best) then v else best
  better _ v best = best

  unfoldable pub best_of : AggregateKind → Value d → Option (Value d) → Option (Value d)
  unfolding better
  best_of kind v none = some v
  best_of kind v (some best) = some (better kind v best)

  unfoldable pub add_cell : Column d → PartAcc → ℕ → PartAcc
  add_cell col acc r =
      if is_float col.type
      then record acc {
        count = suc acc.count;
        is_float = true;
        dsum = d.add acc.dsum (at d.zero_double col.doubles r);
      }
      else record acc {
        count = suc acc.count;
        isum = wrap long_half (acc.isum +ℤ at (pos 0) col.ints r);
      }

  -- The `switch` on the kind, in a column that has a value there.
  unfoldable pub accumulate_value : AggregateKind → Column d → PartAcc → ℕ → PartAcc
  unfolding add_cell best_of column_value
  accumulate_value AggregateKind.count col acc r = record acc { count = suc acc.count }
  accumulate_value AggregateKind.sum col acc r = add_cell col acc r
  accumulate_value AggregateKind.avg col acc r = add_cell col acc r
  accumulate_value AggregateKind.min col acc r = record acc {
    best = best_of AggregateKind.min (column_value d col r) acc.best;
  }
  accumulate_value AggregateKind.max col acc r = record acc {
    best = best_of AggregateKind.max (column_value d col r) acc.best;
  }
  accumulate_value AggregateKind.count_star col acc r = acc

  unfoldable pub accumulate_column : AggregateKind → Option (Column d) → PartAcc → ℕ → PartAcc
  unfolding accumulate_value
  accumulate_column AggregateKind.count_star o acc r = record acc { count = suc acc.count }
  accumulate_column kind none acc r = acc
  accumulate_column kind (some col) acc r =
      if null_in d col r then acc else accumulate_value kind col acc r

  unfoldable pub accumulate_row : VecAggregate → TableColumns d → PartAcc → ℕ → PartAcc
  unfolding accumulate_column
  accumulate_row agg table acc r = accumulate_column agg.kind (column_at d table agg.column) acc r

  unfoldable pub merge_partial : PartAcc → PartAcc → AggregateKind → PartAcc
  unfolding best_of
  merge_partial a b kind = record {
    count = a.count + b.count;
    isum = wrap long_half (a.isum +ℤ b.isum);
    dsum = d.add a.dsum b.dsum;
    is_float = a.is_float || b.is_float;
    best = elim b.best [ none ↦ a.best | some v ↦ best_of kind v a.best ];
  }

  unfoldable pub total : PartAcc → d.Double
  total acc = d.add acc.dsum (d.of_int acc.isum)

  unfoldable pub finalize_partial : AggregateKind → PartAcc → Value d
  unfolding total
  finalize_partial AggregateKind.count_star acc = make_int d (pos acc.count)
  finalize_partial AggregateKind.count acc = make_int d (pos acc.count)
  finalize_partial AggregateKind.sum acc =
      if acc.count == 0
      then null d
      else if acc.is_float
      then make_double d (total acc)
      else make_int d acc.isum
  finalize_partial AggregateKind.avg acc =
      if acc.count == 0
      then null d
      else make_double d (d.divide (total acc) (d.of_int (pos acc.count)))
  finalize_partial _ acc = elim acc.best [ none ↦ null d | some v ↦ v ]

  abbrev pub column_passes : Term d → ℕ → Option (Column d) → Bool
  column_passes term r none = false
  column_passes term r (some col) = term_passes d term col r

  unfoldable pub passes_terms : List (Term d) → TableColumns d → ℕ → Bool
  unfolding term_passes
  passes_terms [] table r = true
  passes_terms (term ∷ terms) table r =
      let later = passes_terms terms table r in
      if column_passes term r (column_at d table term.column) then later else false

  -- A row, and a block to skip, where there is a predicate.
  unfoldable pub row_passes : Option (List (Term d)) → TableColumns d → ℕ → Bool
  unfolding passes_terms
  row_passes none table r = true
  row_passes (some terms) table r = passes_terms terms table r

  unfoldable pub skips : Option (List (Term d)) → TableColumns d → ℕ → Bool
  unfolding block_skippable
  skips none table b = false
  skips (some terms) table b = block_skippable d terms table b

  -- One row of the loop.
  unfoldable pub filtered_row :
      Option (List (Term d)) → VecAggregate → TableColumns d → PartAcc → ℕ → PartAcc
  unfolding row_passes accumulate_row
  filtered_row predicate agg table acc r =
      if row_passes predicate table r then accumulate_row agg table acc r else acc

  -- One block of the loop.
  unfoldable pub fold_block :
      Option (List (Term d)) → VecAggregate → TableColumns d → PartAcc → ℕ → PartAcc
  unfolding skips filtered_row fold_rows
  fold_block predicate agg table acc b =
      if skips predicate table b
      then acc
      else fold_rows (filtered_row predicate agg table) acc (b * block_rows)
          (block_size table.rows b)

  unfoldable pub count_skipped : Option (List (Term d)) → TableColumns d → List ℕ → ℕ
  unfolding skips
  count_skipped predicate table [] = 0
  count_skipped predicate table (b ∷ bs) =
      let later = count_skipped predicate table bs in
      if skips predicate table b then suc later else later

  unfoldable pub skip_stats : Option (List (Term d)) → TableColumns d → SkipStats
  unfolding count_skipped count_up
  skip_stats predicate table = record {
    blocks_total = block_count table.rows;
    blocks_skipped = count_skipped predicate table (count_up 0 (block_count table.rows));
  }

  unfoldable pub columnar_aggregate :
      TableColumns d → List VecAggregate → Option (List (Term d)) → List (Value d) × SkipStats
  unfolding fold_block finalize_partial skip_stats
  columnar_aggregate table aggregates predicate = (
    map
        (λ agg.
          finalize_partial agg.kind
            (fold_rows (fold_block predicate agg table) empty_acc 0 (block_count table.rows)))
        aggregates,
    skip_stats predicate table,
  )
