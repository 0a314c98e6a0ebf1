-- ===== src/Vm/Columns/Whole.antt =====
-- src/vm/column_store.cpp: the aggregates over a table, block by block, against one pass over all
-- its rows.
use prqlite.Base.{
  ℕ, zero, suc, ◌+◌, ◌-◌, ◌*◌, ◌<◌, ◌≤◌, ltb, true, false, map, List, [], ◌∷◌, Option, none, some,
  Bool-cases, ◌≡◌, ◌⊎◌, inl, inr, refl, ap, ap₂, sym, ◌∙◌, arith,
}
use prqlite.Vm.Values.{Doubles, Value}
use prqlite.Vm.Columns.{TableColumns, Term, fold_rows, block_rows, block_count, block_size}
use prqlite.Vm.Columns.Order.{RanksDoubles}
use prqlite.Vm.Columns.Skip.{IsBuilt, block_skipped}
use prqlite.Vm.Columns.Aggregate.{
  VecAggregate, PartAcc, empty_acc, row_passes, skips, filtered_row, fold_block, finalize_partial,
  columnar_aggregate,
}

-- Rows that change nothing.
fold_rows_idle {ℓ} :
    {A : Type ℓ} (f : A → ℕ → A) (a : A) (start n : ℕ)
    → ((r : ℕ) → start ≤ r → r < start + n → f a r ≡ a)
    → fold_rows f a start n ≡ a
unfolding fold_rows
fold_rows_idle f a start zero h = refl
fold_rows_idle f a start (suc n) h =
    ap (λ x. fold_rows f x (suc start) n) (h start (omega arith) (omega arith))
    ∙ fold_rows_idle f a (suc start) n (λ r l k. h r (omega (arith, l)) (omega (arith, k)))

fold_rows-+ {ℓ} :
    {A : Type ℓ} (f : A → ℕ → A) (a : A) (start m n : ℕ)
    → fold_rows f a start (m + n) ≡ fold_rows f (fold_rows f a start m) (start + m) n
unfolding fold_rows
fold_rows-+ f a start zero n =
    let e : 0 + n ≡ n = omega arith in
    let k : start ≡ start + 0 = omega arith in ap₂ (fold_rows f a) k e
fold_rows-+ f a start (suc m) n =
    let e : suc m + n ≡ suc (m + n) = omega arith in
    ap (fold_rows f a start) e
    ∙ fold_rows-+ f (f a start) (suc start) m n
    ∙ (let k : suc start + m ≡ start + suc m = omega arith in
        ap (λ i. fold_rows f (fold_rows f (f a start) (suc start) m) i n) k)

-- Two loops one after the other, where the second one starts at the first one's end or is empty.
fold_rows_joined {ℓ} :
    {A : Type ℓ} (f : A → ℕ → A) (a : A) (start m next n : ℕ)
    → (n ≡ 0) ⊎ (next ≡ start + m)
    → fold_rows f (fold_rows f a start m) next n ≡ fold_rows f a start (m + n)
unfolding fold_rows
fold_rows_joined f a start m next n (inl e) =
    let k : m ≡ m + n = omega (arith, e) in
    ap (fold_rows f (fold_rows f a start m) next) e ∙ ap (fold_rows f a start) k
fold_rows_joined f a start m next n (inr e) =
    ap (λ i. fold_rows f (fold_rows f a start m) i n) e ∙ sym (fold_rows-+ f a start m n)

block_next :
    (rows b : ℕ)
    → (rows - suc b * block_rows ≡ 0) ⊎ (suc b * block_rows ≡ b * block_rows + block_size rows b)
block_next rows b = elim (Bool-cases (ltb (b * block_rows + block_rows) rows)) [
  | inl full ↦ inr (ground (arith, full))
  | inr last ↦ inl (ground (arith, last))
]

block_rest :
    (rows b : ℕ)
    → b < block_count rows
    → block_size rows b + (rows - suc b * block_rows) ≡ rows - b * block_rows
block_rest rows b h = ground (arith, h)

module _ (d : Doubles) (o : RanksDoubles d) where
  filtered_row_idle :
      (predicate : Option (List (Term d))) (agg : VecAggregate) (table : TableColumns d)
      (acc : PartAcc d) (r : ℕ)
      → row_passes d predicate table r ≡ false
      → filtered_row d predicate agg table acc r ≡ acc
  unfolding filtered_row
  filtered_row_idle predicate agg table acc r h = rw h

  skipped_row :
      (predicate : Option (List (Term d))) (table : TableColumns d) (b r : ℕ)
      → IsBuilt d o table
      → b * block_rows ≤ r
      → r < b * block_rows + block_size table.rows b
      → skips d predicate table b ≡ true
      → row_passes d predicate table r ≡ false
  unfolding skips row_passes
  skipped_row none table b r built l k h = absurd (ground (arith, h))
  skipped_row (some terms) table b r built l k h = block_skipped d o terms table b r built l k h

  -- A block folds all its rows, skipped or not.
  fold_block_lem :
      (predicate : Option (List (Term d))) (agg : VecAggregate) (table : TableColumns d)
      (acc : PartAcc d) (b : ℕ)
      → IsBuilt d o table
      → fold_block d predicate agg table acc b
        ≡ fold_rows
            (filtered_row d predicate agg table)
            acc
            (b * block_rows)
            (block_size table.rows b)
  unfolding fold_block
  fold_block_lem predicate agg table acc b built = elim (Bool-cases (skips d predicate table b)) [
    | inl skipped ↦ rw skipped (
        sym (
          fold_rows_idle (filtered_row d predicate agg table) acc (b * block_rows)
            (block_size table.rows b)
            (λ r l k.
              filtered_row_idle predicate agg table acc r
                (skipped_row predicate table b r built l k skipped))))
    | inr kept ↦ rw kept
  ]

  -- The blocks from `b` on are the rows from `b * 1024` on.
  blocks_rows :
      (predicate : Option (List (Term d))) (agg : VecAggregate) (table : TableColumns d)
      (acc : PartAcc d) (b n : ℕ)
      → IsBuilt d o table
      → b + n ≡ block_count table.rows
      → fold_rows (fold_block d predicate agg table) acc b n
        ≡ fold_rows
            (filtered_row d predicate agg table)
            acc
            (b * block_rows)
            (table.rows - b * block_rows)
  unfolding fold_rows
  blocks_rows predicate agg table acc b zero built e =
      let f = filtered_row d predicate agg table in
      let none_left : table.rows - b * block_rows ≡ 0 = omega (arith, e) in
      sym (ap (fold_rows f acc (b * block_rows)) none_left)
  blocks_rows predicate agg table acc b (suc n) built e =
      let f = filtered_row d predicate agg table in
      let size = block_size table.rows b in
      let start = b * block_rows in
      let rest = table.rows - suc b * block_rows in
      blocks_rows predicate agg table (fold_block d predicate agg table acc b) (suc b) n built
        (omega (arith, e))
      ∙ ap (λ a. fold_rows f a (suc b * block_rows) rest)
          (fold_block_lem predicate agg table acc b built)
      ∙ fold_rows_joined f acc start size (suc b * block_rows) rest (block_next table.rows b)
      ∙ ap (fold_rows f acc start) (block_rest table.rows b (omega (arith, e)))

  -- One value of the result, from one pass over all rows.
  abbrev pub whole_aggregate : Option (List (Term d)) → TableColumns d → VecAggregate → Value d
  whole_aggregate predicate table agg =
      finalize_partial d agg.kind
        (fold_rows (filtered_row d predicate agg table) (empty_acc d) 0 table.rows)

  aggregates_lem :
      (aggregates : List VecAggregate) (predicate : Option (List (Term d))) (table : TableColumns d)
      → IsBuilt d o table
      → map
          (λ agg.
            finalize_partial d agg.kind (
              fold_rows
                (fold_block d predicate agg table)
                (empty_acc d)
                0
                (block_count table.rows)))
          aggregates
        ≡ map (whole_aggregate predicate table) aggregates
  aggregates_lem [] predicate table built = refl
  aggregates_lem (agg ∷ aggregates) predicate table built =
      ap₂ ◌∷◌
        (let all : table.rows - 0 * block_rows ≡ table.rows = omega arith in
          ap (finalize_partial d agg.kind) (
            blocks_rows predicate agg table (empty_acc d) 0 (block_count table.rows) built
              (omega arith)
            ∙ ap (fold_rows (filtered_row d predicate agg table) (empty_acc d) 0) all))
        (aggregates_lem aggregates predicate table built)

  -- The aggregates over a table whose zones `buildZones` made, where no double is a NaN, are those
  -- of one pass over all its rows: the blocks that are skipped have no row that passes.
  pub columnar_aggregate_whole :
      (table : TableColumns d) (aggregates : List VecAggregate) (predicate : Option (List (Term d)))
      → IsBuilt d o table
      → (columnar_aggregate d table aggregates predicate).0
        ≡ map (whole_aggregate predicate table) aggregates
  unfolding columnar_aggregate
  columnar_aggregate_whole table aggregates predicate built =
      aggregates_lem aggregates predicate table built
