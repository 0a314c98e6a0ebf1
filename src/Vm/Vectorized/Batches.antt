-- ===== src/Vm/Vectorized/Batches.antt =====
-- src/vm/vectorized.cpp: batches against the rows that they hold.
use prqlite.Base.{
  ℕ, zero, suc, ◌+◌, ltb, ℤ, is_neg, magnitude, Bool, true, false, List, [], ◌∷◌, ◌++◌, Option,
  none, some, if◌then◌else◌, length, Bool-cases, ◌≡◌, inl, inr, refl, ap, ap₂, sym, ◌∙◌, arith,
}
use prqlite.Vm.Values.{Doubles, Value, null, is_null}
use prqlite.Vm.Columns.{at, Term, count_up}
use prqlite.Vm.Columns.Aggregate.{AggregateKind, VecAggregate, PartAcc}
use prqlite.Vm.Vectorized.{
  Batch, cell, value_passes, row_selected, select, filter_batch, fold_value, g_accumulate,
  fold_selection, consume_kind,
}

pub count_up-snoc : (s n : ℕ) → count_up s n ++ (s + n) ∷ [] ≡ count_up s (suc n)
unfolding count_up
count_up-snoc s zero = ap (λ k. k ∷ []) (omega arith)
count_up-snoc s (suc n) =
    let e : s + suc n ≡ suc s + n = omega arith in
    ap (λ k. s ∷ (count_up (suc s) n ++ k ∷ [])) e ∙ ap (◌∷◌ s) (count_up-snoc (suc s) n)

module _ (d : Doubles) where
  -- A row's value in a column of the batch, which has a number of columns.
  abbrev pub tuple_cell : ℕ → List (Value d) → ℤ → Value d
  tuple_cell ncols tuple column =
      if is_neg column
      then null d
      else if ltb (magnitude column) ncols
      then at (null d) tuple (magnitude column)
      else null d

  abbrev pub passes : ℕ → List (Term d) → List (Value d) → Bool
  passes ncols [] tuple = true
  passes ncols (term ∷ terms) tuple =
      if value_passes d term (tuple_cell ncols tuple term.column)
      then passes ncols terms tuple
      else false

  abbrev pub passes_all : ℕ → Option (List (Term d)) → List (Value d) → Bool
  passes_all ncols none tuple = true
  passes_all ncols (some terms) tuple = passes ncols terms tuple

  -- One pass over rows.
  abbrev pub fold_tuples :
      ℕ → Option (List (Term d)) → VecAggregate → PartAcc d → List (List (Value d)) → PartAcc d
  fold_tuples ncols predicate agg acc [] = acc
  fold_tuples ncols predicate agg acc (tuple ∷ tuples) =
      fold_tuples ncols predicate agg
        (if passes_all ncols predicate tuple
          then g_accumulate d agg.kind acc (tuple_cell ncols tuple agg.column)
          else acc)
        tuples

  -- Rows from a number on are where the batch has them.
  abbrev pub Shows : ℕ → List (List (Value d)) → ℕ → List (List (Value d)) → Type 0
  Shows ncols columns s [] = Unit
  Shows ncols columns s (tuple ∷ tuples) =
      ((column : ℤ) → cell d columns column s ≡ tuple_cell ncols tuple column)
      × Shows ncols columns (suc s) tuples

  fold_all : AggregateKind → List (List (Value d)) → ℤ → PartAcc d → List ℕ → PartAcc d
  fold_all kind columns column acc [] = acc
  fold_all kind columns column acc (r ∷ rs) =
      fold_all kind columns column (g_accumulate d kind acc (cell d columns column r)) rs

  fold_selection_all :
      (kind : AggregateKind) (columns : List (List (Value d))) (column : ℤ) (acc : PartAcc d)
      (rs : List ℕ)
      → ((a : PartAcc d) (v : Value d)
          → g_accumulate d kind a v ≡ (if is_null d v then a else fold_value d kind a v))
      → fold_selection d kind columns column acc rs ≡ fold_all kind columns column acc rs
  unfolding fold_selection fold_all
  fold_selection_all kind columns column acc [] h = refl
  fold_selection_all kind columns column acc (r ∷ rs) h =
      let v = cell d columns column r in
      fold_selection_all kind columns column (if is_null d v then acc else fold_value d kind acc v)
        rs h
      ∙ ap (λ a. fold_all kind columns column a rs) (sym (h acc (cell d columns column r)))

  count_all :
      (columns : List (List (Value d))) (column : ℤ) (acc : PartAcc d) (rs : List ℕ)
      → record acc { count = acc.count + length rs }
        ≡ fold_all AggregateKind.count_star columns column acc rs
  unfolding fold_all g_accumulate
  count_all columns column acc [] =
      let e : acc.count + 0 ≡ acc.count = omega arith in ap (λ n. record acc { count = n }) e
  count_all columns column acc (r ∷ rs) =
      let e : acc.count + suc (length rs) ≡ suc acc.count + length rs = omega arith in
      ap (λ n. record acc { count = n }) e
      ∙ count_all columns column (record acc { count = suc acc.count }) rs

  consume_kind_all :
      (kind : AggregateKind) (column : ℤ) (acc : PartAcc d) (batch : Batch d)
      → consume_kind d kind column acc batch
        ≡ fold_all kind batch.columns column acc batch.selection
  unfolding consume_kind g_accumulate
  consume_kind_all AggregateKind.count_star column acc batch =
      count_all batch.columns column acc batch.selection
  consume_kind_all AggregateKind.count column acc batch =
      fold_selection_all AggregateKind.count batch.columns column acc batch.selection (λ a v. refl)
  consume_kind_all AggregateKind.sum column acc batch =
      fold_selection_all AggregateKind.sum batch.columns column acc batch.selection (λ a v. refl)
  consume_kind_all AggregateKind.avg column acc batch =
      fold_selection_all AggregateKind.avg batch.columns column acc batch.selection (λ a v. refl)
  consume_kind_all AggregateKind.min column acc batch =
      fold_selection_all AggregateKind.min batch.columns column acc batch.selection (λ a v. refl)
  consume_kind_all AggregateKind.max column acc batch =
      fold_selection_all AggregateKind.max batch.columns column acc batch.selection (λ a v. refl)

  row_selected-passes :
      (ncols : ℕ) (terms : List (Term d)) (columns : List (List (Value d))) (r : ℕ)
      (tuple : List (Value d))
      → ((column : ℤ) → cell d columns column r ≡ tuple_cell ncols tuple column)
      → row_selected d terms columns r ≡ passes ncols terms tuple
  unfolding row_selected
  row_selected-passes ncols [] columns r tuple h = refl
  row_selected-passes ncols (term ∷ terms) columns r tuple h =
      ap₂ (λ v b. if value_passes d term v then b else false) (h term.column)
        (row_selected-passes ncols terms columns r tuple h)

  fold_selected :
      (ncols : ℕ) (terms : List (Term d)) (agg : VecAggregate) (columns : List (List (Value d)))
      (acc : PartAcc d) (s : ℕ) (tuples : List (List (Value d)))
      → Shows ncols columns s tuples
      → fold_all agg.kind columns agg.column acc
          (select d terms columns (count_up s (length tuples)))
        ≡ fold_tuples ncols (some terms) agg acc tuples
  unfolding fold_all select count_up
  fold_selected ncols terms agg columns acc s [] h = refl
  fold_selected ncols terms agg columns acc s (tuple ∷ tuples) (here, later) =
      let same = row_selected-passes ncols terms columns s tuple here in
      elim (Bool-cases (row_selected d terms columns s)) [
        | inl kept ↦ rw kept (
            rw (sym same ∙ kept) (
              fold_selected ncols terms agg columns
                (g_accumulate d agg.kind acc (cell d columns agg.column s)) (suc s) tuples later
              ∙ ap (λ v. fold_tuples ncols (some terms) agg (g_accumulate d agg.kind acc v) tuples)
                  (here agg.column)))
        | inr dropped ↦ rw dropped (
            rw (sym same ∙ dropped)
              (fold_selected ncols terms agg columns acc (suc s) tuples later))
      ]

  fold_unfiltered :
      (ncols : ℕ) (agg : VecAggregate) (columns : List (List (Value d))) (acc : PartAcc d) (s : ℕ)
      (tuples : List (List (Value d)))
      → Shows ncols columns s tuples
      → fold_all agg.kind columns agg.column acc (count_up s (length tuples))
        ≡ fold_tuples ncols none agg acc tuples
  unfolding fold_all count_up
  fold_unfiltered ncols agg columns acc s [] h = refl
  fold_unfiltered ncols agg columns acc s (tuple ∷ tuples) (here, later) =
      fold_unfiltered ncols agg columns (g_accumulate d agg.kind acc (cell d columns agg.column s))
        (suc s) tuples later
      ∙ ap (λ v. fold_tuples ncols none agg (g_accumulate d agg.kind acc v) tuples)
          (here agg.column)

  -- A batch is consumed as its rows one by one.
  pub consume_kind-filter_batch :
      (ncols : ℕ) (predicate : Option (List (Term d))) (agg : VecAggregate) (acc : PartAcc d)
      (columns : List (List (Value d))) (tuples : List (List (Value d)))
      → Shows ncols columns 0 tuples
      → consume_kind d agg.kind agg.column acc (
          filter_batch d predicate
            (record { columns = columns; selection = count_up 0 (length tuples) }))
        ≡ fold_tuples ncols predicate agg acc tuples
  unfolding filter_batch
  consume_kind-filter_batch ncols none agg acc columns tuples h =
      consume_kind_all agg.kind agg.column acc _ ∙ fold_unfiltered ncols agg columns acc 0 tuples h
  consume_kind-filter_batch ncols (some terms) agg acc columns tuples h =
      consume_kind_all agg.kind agg.column acc _
      ∙ fold_selected ncols terms agg columns acc 0 tuples h
