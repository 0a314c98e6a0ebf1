-- ===== src/Vm/Vectorized.antt =====
-- src/vm/vectorized.cpp: aggregates over batches of rows. A batch is its columns and the numbers of
-- the selected rows; a read outside of it, which the source rules out before, gives NULL. The rows of
-- the table, which the sequential scan reads, are a parameter.
pub mod Batches
pub mod Scan
pub mod Passes
pub mod Join
pub mod Equal
use prqlite.Base.{
  ℕ, zero, suc, ◌+◌, ◌==◌, ltb, ℤ, pos, is_neg, magnitude, wrap, ◌+ℤ◌, Bool, true, false, not, map,
  List, [], ◌∷◌, ◌++◌, Option, none, some, if◌then◌else◌, length, replicate,
}
use prqlite.Vm.Values.{Doubles, Value, null, is_null, is_double_type, compare_values}
use prqlite.Vm.Tuples.{long_half}
use prqlite.Vm.Columns.{at, Term, holds_of}
use prqlite.Vm.Columns.Aggregate.{
  AggregateKind, VecAggregate, PartAcc, empty_acc, best_of, finalize_partial,
}

module _ (d : Doubles) where
  pub record Batch : Type 0 where
    pub columns : List (List (Value d))
    pub selection : List ℕ

  -- `batch.columns[column][r]`.
  abbrev pub cell : List (List (Value d)) → ℤ → ℕ → Value d
  cell columns column r =
      if is_neg column then null d else at (null d) (at [] columns (magnitude column)) r

  unfoldable pub value_passes : Term d → Value d → Bool
  unfolding holds_of
  value_passes term v = holds_of term.op (compare_values d v term.literal)

  unfoldable pub row_selected : List (Term d) → List (List (Value d)) → ℕ → Bool
  unfolding value_passes
  row_selected [] columns r = true
  row_selected (term ∷ terms) columns r =
      let later = row_selected terms columns r in
      if value_passes term (cell columns term.column r) then later else false

  unfoldable pub select : List (Term d) → List (List (Value d)) → List ℕ → List ℕ
  unfolding row_selected
  select terms columns [] = []
  select terms columns (r ∷ rs) =
      let kept = select terms columns rs in if row_selected terms columns r then r ∷ kept else kept

  -- `VectorFilter::consume`, up to the batch it passes on, where there is a predicate.
  unfoldable pub filter_batch : Option (List (Term d)) → Batch → Batch
  unfolding select
  filter_batch none batch = batch
  filter_batch (some terms) batch = record batch {
    selection = select terms batch.columns batch.selection;
  }

  unfoldable pub add_number : PartAcc d → Value d → PartAcc d
  add_number acc v =
      if is_double_type v.type
      then record acc {
        count = suc acc.count;
        is_float = true;
        dsum = d.add acc.dsum v.double_value;
      }
      else record acc { count = suc acc.count; isum = wrap long_half (acc.isum +ℤ v.int_value) }

  -- The `switch` on the kind, for a value that is not NULL.
  unfoldable pub fold_value : AggregateKind → PartAcc d → Value d → PartAcc d
  unfolding add_number best_of
  fold_value AggregateKind.count acc v = record acc { count = suc acc.count }
  fold_value AggregateKind.sum acc v = add_number acc v
  fold_value AggregateKind.avg acc v = add_number acc v
  fold_value AggregateKind.min acc v = record acc { best = best_of d AggregateKind.min v acc.best }
  fold_value AggregateKind.max acc v = record acc { best = best_of d AggregateKind.max v acc.best }
  fold_value AggregateKind.count_star acc v = acc

  -- `gAccumulate`.
  unfoldable pub g_accumulate : AggregateKind → PartAcc d → Value d → PartAcc d
  unfolding fold_value
  g_accumulate AggregateKind.count_star acc v = record acc { count = suc acc.count }
  g_accumulate kind acc v = if is_null d v then acc else fold_value kind acc v

  -- The loop over the selected rows.
  unfoldable pub fold_selection :
      AggregateKind → List (List (Value d)) → ℤ → PartAcc d → List ℕ → PartAcc d
  unfolding fold_value
  fold_selection kind columns column acc [] = acc
  fold_selection kind columns column acc (r ∷ rs) =
      let v = cell columns column r in
      fold_selection kind columns column (if is_null d v then acc else fold_value kind acc v) rs

  -- `VectorAggregator::consume` for one of the aggregates.
  unfoldable pub consume_kind : AggregateKind → ℤ → PartAcc d → Batch → PartAcc d
  unfolding fold_selection
  consume_kind AggregateKind.count_star column acc batch = record acc {
    count = acc.count + length batch.selection;
  }
  consume_kind kind column acc batch = fold_selection kind batch.columns column acc batch.selection

  unfoldable pub consume : List VecAggregate → List (PartAcc d) → Batch → List (PartAcc d)
  unfolding consume_kind
  consume (agg ∷ aggs) (acc ∷ accs) batch =
      consume_kind agg.kind agg.column acc batch ∷ consume aggs accs batch
  consume _ _ batch = []

  abbrev pub empty_batch : ℕ → Batch
  empty_batch ncols = record { columns = replicate ncols []; selection = [] }

  -- A row is put behind every column.
  unfoldable pub push_columns : List (List (Value d)) → List (Value d) → List (List (Value d))
  push_columns [] tuple = []
  push_columns (col ∷ cols) [] = (col ++ null d ∷ []) ∷ push_columns cols []
  push_columns (col ∷ cols) (v ∷ tuple) = (col ++ v ∷ []) ∷ push_columns cols tuple

  -- The rows of a batch are fewer than 2 ^ 32, so that the cast of `filled` to uint32_t keeps it.
  unfoldable pub push_tuple : Batch → List (Value d) → ℕ → Batch
  unfolding push_columns
  push_tuple batch tuple filled = record {
    columns = push_columns batch.columns tuple;
    selection = batch.selection ++ filled ∷ [];
  }

  -- The loop over the rows, for the accumulators behind the filter.
  unfoldable pub scan :
      Option (List (Term d))
      → List VecAggregate
      → ℕ
      → ℕ
      → List (List (Value d))
      → Batch
      → ℕ
      → List (PartAcc d)
      → List (PartAcc d)
  unfolding consume filter_batch push_tuple
  scan predicate aggs ncols batch_size [] batch filled accs =
      if ltb 0 filled then consume aggs accs (filter_batch predicate batch) else accs
  scan predicate aggs ncols batch_size (tuple ∷ tuples) batch filled accs =
      let full = push_tuple batch tuple filled in
      let more = scan predicate aggs ncols batch_size tuples full (suc filled) accs in
      let next =
        scan predicate aggs ncols batch_size tuples (empty_batch ncols) 0
          (consume aggs accs (filter_batch predicate full)) in
      if suc filled == batch_size then next else more

  unfoldable pub results : List VecAggregate → List (PartAcc d) → List (Value d)
  unfolding finalize_partial
  results (agg ∷ aggs) (acc ∷ accs) = finalize_partial d agg.kind acc ∷ results aggs accs
  results _ _ = []

  unfoldable pub run_vectorized_aggregate :
      ℕ → Option (List (Term d)) → List VecAggregate → ℕ → List (List (Value d)) → List (Value d)
  unfolding scan results
  run_vectorized_aggregate ncols predicate aggs batch_size tuples = results aggs (
      scan predicate aggs ncols batch_size tuples (empty_batch ncols) 0
        (map (λ _. empty_acc d) aggs))
