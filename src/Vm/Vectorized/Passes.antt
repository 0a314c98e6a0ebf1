-- ===== src/Vm/Vectorized/Passes.antt =====
-- src/vm/vectorized.cpp: the loop over the rows, and its result.
use prqlite.Base.{
  ℕ, suc, ◌==◌, map, List, [], ◌∷◌, ◌++◌, append_assoc, append-nil, Option, if◌then◌else◌, length,
  length-append, Bool-cases, ◌≡◌, inl, inr, refl, ap, ap₂, sym, ◌∙◌, arith,
}
use prqlite.Vm.Values.{Doubles, Value}
use prqlite.Vm.Columns.{Term, count_up}
use prqlite.Vm.Columns.Aggregate.{VecAggregate, PartAcc, empty_acc, finalize_partial}
use prqlite.Vm.Vectorized.{
  filter_batch, consume, push_columns, empty_batch, scan, results, run_vectorized_aggregate,
}
use prqlite.Vm.Vectorized.Batches.{fold_tuples}
use prqlite.Vm.Vectorized.Scan.{
  IsColumns, push_columns-IsColumns, replicate-IsColumns, fold_each, fold_each-append,
  length-fold_each, fold_each-nil, batch_of, consume-fold_each, push_tuple-batch_of,
}

module _ (d : Doubles) (ncols : ℕ) (predicate : Option (List (Term d))) (batch_size : ℕ) where
  scan_end :
      (aggs : List VecAggregate) (accs : List (PartAcc d)) (columns before : List (List (Value d)))
      → IsColumns d ncols columns before
      → length accs ≡ length aggs
      → scan d predicate aggs ncols batch_size []
          (batch_of d ncols predicate columns before)
          (length before)
          accs
        ≡ fold_each d ncols predicate aggs accs before
  unfolding scan
  scan_end aggs accs columns [] h n = sym (fold_each-nil d ncols predicate aggs accs n)
  scan_end aggs accs columns (tuple ∷ before) h n =
      ground (arith, consume-fold_each d ncols predicate aggs accs columns (tuple ∷ before) h)

  -- One row more, which fills its batch or not.
  scan_next :
      (aggs : List VecAggregate) (accs : List (PartAcc d)) (columns before : List (List (Value d)))
      (tuple : List (Value d)) (tuples : List (List (Value d)))
      → let full =
          batch_of d ncols predicate (push_columns d columns tuple) (before ++ tuple ∷ []) in
        scan d predicate aggs ncols batch_size
          (tuple ∷ tuples)
          (batch_of d ncols predicate columns before)
          (length before)
          accs
        ≡ (if suc (length before) == batch_size
            then scan d predicate aggs ncols batch_size tuples
                (empty_batch d ncols)
                0
                (consume d aggs accs (filter_batch d predicate full))
            else scan d predicate aggs ncols batch_size tuples full
                (length (before ++ tuple ∷ []))
                accs)
  unfolding scan
  scan_next aggs accs columns before tuple tuples =
      let size : suc (length before) ≡ length (before ++ tuple ∷ []) =
        omega (arith, length-append {0} before (tuple ∷ [])) in
      ap₂
        (λ full n.
          if suc (length before) == batch_size
          then scan d predicate aggs ncols batch_size tuples (empty_batch d ncols) 0
              (consume d aggs accs (filter_batch d predicate full))
          else scan d predicate aggs ncols batch_size tuples full n accs)
        (push_tuple-batch_of d ncols predicate columns before tuple) size

  scan_lem :
      (tuples : List (List (Value d))) (aggs : List VecAggregate) (accs : List (PartAcc d))
      (columns before : List (List (Value d)))
      → IsColumns d ncols columns before
      → length accs ≡ length aggs
      → scan d predicate aggs ncols batch_size tuples
          (batch_of d ncols predicate columns before)
          (length before)
          accs
        ≡ fold_each d ncols predicate aggs accs (before ++ tuples)
  unfolding count_up
  scan_lem [] aggs accs columns before h n =
      scan_end aggs accs columns before h n
      ∙ ap (fold_each d ncols predicate aggs accs) (sym (append-nil before))
  scan_lem (tuple ∷ tuples) aggs accs columns before h n =
      let after = before ++ tuple ∷ [] in
      let pushed = push_columns-IsColumns d ncols columns before tuple h in
      let all =
        ap (fold_each d ncols predicate aggs accs) (append_assoc before (tuple ∷ []) tuples) in
      let folded = fold_each d ncols predicate aggs accs after in
      scan_next aggs accs columns before tuple tuples
      ∙ elim (Bool-cases (suc (length before) == batch_size)) [
        | inl is_full ↦ rw is_full (
            ap (scan d predicate aggs ncols batch_size tuples (empty_batch d ncols) 0) (
              consume-fold_each d ncols predicate aggs accs (push_columns d columns tuple) after
                pushed)
            ∙ (scan_lem tuples aggs folded (empty_batch d ncols).columns []
                (replicate-IsColumns d ncols)
                (length-fold_each d ncols predicate aggs accs after n))
            ∙ fold_each-append d ncols predicate aggs accs after tuples
            ∙ all)
        | inr partial ↦
            rw partial
              (scan_lem tuples aggs accs (push_columns d columns tuple) after pushed n ∙ all)
      ]

  length-map_empty : (aggs : List VecAggregate) → length (map (λ _. empty_acc d) aggs) ≡ length aggs
  length-map_empty [] = refl
  length-map_empty (agg ∷ aggs) = ap suc (length-map_empty aggs)

  results-fold_each :
      (aggs : List VecAggregate) (tuples : List (List (Value d)))
      → results d aggs (fold_each d ncols predicate aggs (map (λ _. empty_acc d) aggs) tuples)
        ≡ map
            (λ agg.
              finalize_partial d agg.kind (fold_tuples d ncols predicate agg (empty_acc d) tuples))
            aggs
  unfolding results
  results-fold_each [] tuples = refl
  results-fold_each (agg ∷ aggs) tuples =
      ap
        (◌∷◌ (finalize_partial d agg.kind (fold_tuples d ncols predicate agg (empty_acc d) tuples)))
        (results-fold_each aggs tuples)

  -- Whatever the size of a batch, the vectorized aggregates are those of one pass over the rows
  -- that pass the filter.
  pub run_vectorized_aggregate_lem :
      (aggs : List VecAggregate) (tuples : List (List (Value d)))
      → run_vectorized_aggregate d ncols predicate aggs batch_size tuples
        ≡ map
            (λ agg.
              finalize_partial d agg.kind (fold_tuples d ncols predicate agg (empty_acc d) tuples))
            aggs
  unfolding run_vectorized_aggregate count_up
  run_vectorized_aggregate_lem aggs tuples =
      ap (results d aggs) (
        scan_lem tuples aggs (map (λ _. empty_acc d) aggs) (empty_batch d ncols).columns []
          (replicate-IsColumns d ncols) (length-map_empty aggs))
      ∙ results-fold_each aggs tuples
