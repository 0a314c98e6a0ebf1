-- ===== src/Vm/Vectorized/Scan.antt =====
-- src/vm/vectorized.cpp: the aggregates batch by batch against one pass over all rows.
use mathlib.Core.Option
use mathlib.Core.List.{map-append}
use prqlite.Base.{
  ℕ, zero, suc, ◌+◌, ltb, ℤ, is_neg, magnitude, Bool, true, false, map, List, [], ◌∷◌, ◌++◌,
  append_assoc, Option, none, some, if◌then◌else◌, length, length-append, replicate, get_elem?,
  Bool-cases, ◌≡◌, inl, inr, refl, ap, ap₂, sym, subst, ◌∙◌, arith,
}
use prqlite.Vm.Values.{Doubles, Value, null}
use prqlite.Vm.Columns.{at, Term, count_up}
use prqlite.Vm.Columns.Aggregate.{VecAggregate, PartAcc}
use prqlite.Vm.Vectorized.{Batch, cell, filter_batch, consume, push_columns, push_tuple}
use prqlite.Vm.Vectorized.Batches.{
  count_up-snoc, tuple_cell, fold_tuples, Shows, consume_kind-filter_batch,
}

at-map {ℓ κ} :
    {A : Type ℓ} {B : Type κ} (default : B) (g : A → B) (xs : List A) (x : A) (ys : List A)
    → at default (map g (xs ++ x ∷ ys)) (length xs) ≡ g x
unfolding get_elem?
at-map default g [] x ys = refl
at-map default g (y ∷ xs) x ys = at-map default g xs x ys

module _ (d : Doubles) where
  -- The columns hold the rows.
  abbrev pub IsColumns : ℕ → List (List (Value d)) → List (List (Value d)) → Type 0
  IsColumns ncols columns tuples =
      (c : ℕ)
      → get_elem? columns c
        ≡ (if ltb c ncols then some (map (λ tuple. at (null d) tuple c) tuples) else none)

  get_elem?-push_columns :
      (columns : List (List (Value d))) (tuple : List (Value d)) (c : ℕ)
      → get_elem? (push_columns d columns tuple) c
        ≡ Option.map (λ col. col ++ at (null d) tuple c ∷ []) (get_elem? columns c)
  unfolding get_elem? push_columns
  get_elem?-push_columns [] tuple c = refl
  get_elem?-push_columns (col ∷ cols) [] zero = refl
  get_elem?-push_columns (col ∷ cols) [] (suc c) = get_elem?-push_columns cols [] c
  get_elem?-push_columns (col ∷ cols) (v ∷ tuple) zero = refl
  get_elem?-push_columns (col ∷ cols) (v ∷ tuple) (suc c) = get_elem?-push_columns cols tuple c

  if_pushed :
      (b : Bool) (c : ℕ) (tuples : List (List (Value d))) (tuple : List (Value d))
      → Option.map
          (λ col. col ++ at (null d) tuple c ∷ [])
          (if b then some (map (λ t. at (null d) t c) tuples) else none)
        ≡ (if b then some (map (λ t. at (null d) t c) (tuples ++ tuple ∷ [])) else none)
  if_pushed true c tuples tuple =
      ap some (sym (map-append (λ t. at (null d) t c) tuples (tuple ∷ [])))
  if_pushed false c tuples tuple = refl

  pub push_columns-IsColumns :
      (ncols : ℕ) (columns tuples : List (List (Value d))) (tuple : List (Value d))
      → IsColumns ncols columns tuples
      → IsColumns ncols (push_columns d columns tuple) (tuples ++ tuple ∷ [])
  push_columns-IsColumns ncols columns tuples tuple h c =
      get_elem?-push_columns columns tuple c
      ∙ ap (Option.map (λ col. col ++ at (null d) tuple c ∷ [])) (h c)
      ∙ if_pushed (ltb c ncols) c tuples tuple

  pub replicate-IsColumns : (ncols : ℕ) → IsColumns ncols (replicate ncols []) []
  unfolding get_elem?
  replicate-IsColumns zero c = ground arith
  replicate-IsColumns (suc n) zero = ground arith
  replicate-IsColumns (suc n) (suc c) = ground (arith, replicate-IsColumns n c)

  cell_of :
      (ncols : ℕ) (columns before : List (List (Value d))) (tuple : List (Value d))
      (after : List (List (Value d))) (column : ℤ)
      → IsColumns ncols columns (before ++ tuple ∷ after)
      → cell d columns column (length before) ≡ tuple_cell d ncols tuple column
  cell_of ncols columns before tuple after column h =
      let c = magnitude column in
      let r = length before in
      let inner : at (null d) (at [] columns c) r
          ≡ (if ltb c ncols then at (null d) tuple c else null d) =
        ap
          (λ (o : Option (List (Value d))).
            at (null d) (elim o as (λ _. List (Value d)) [ none ↦ [] | some x ↦ x ]) r)
          (h c)
        ∙ elim (Bool-cases (ltb c ncols)) [
          | inl inside ↦ rw inside (at-map (null d) (λ t. at (null d) t c) before tuple after)
          | inr outside ↦ rw outside (unfold get_elem? in refl)
        ] in
      ap (λ v. if is_neg column then null d else v) inner

  IsColumns-Shows :
      (ncols : ℕ) (columns before after : List (List (Value d)))
      → IsColumns ncols columns (before ++ after)
      → Shows d ncols columns (length before) after
  IsColumns-Shows ncols columns before [] h = tt
  IsColumns-Shows ncols columns before (tuple ∷ after) h =
      let size : length (before ++ tuple ∷ []) ≡ suc (length before) =
        length-append {0} before (tuple ∷ []) ∙ omega arith in
      (
        (λ column. cell_of ncols columns before tuple after column h),
        subst (λ s. Shows d ncols columns s after) size
            (IsColumns-Shows ncols columns (before ++ tuple ∷ []) after
              (subst (IsColumns ncols columns) (sym (append_assoc before (tuple ∷ []) after)) h)),
      )

  fold_tuples-append :
      (ncols : ℕ) (predicate : Option (List (Term d))) (agg : VecAggregate) (acc : PartAcc d)
      (xs ys : List (List (Value d)))
      → fold_tuples d ncols predicate agg (fold_tuples d ncols predicate agg acc xs) ys
        ≡ fold_tuples d ncols predicate agg acc (xs ++ ys)
  fold_tuples-append ncols predicate agg acc [] ys = refl
  fold_tuples-append ncols predicate agg acc (x ∷ xs) ys =
      fold_tuples-append ncols predicate agg (fold_tuples d ncols predicate agg acc (x ∷ [])) xs ys

  module _ (ncols : ℕ) (predicate : Option (List (Term d))) where
    -- One pass for each aggregate.
    abbrev pub fold_each :
        List VecAggregate → List (PartAcc d) → List (List (Value d)) → List (PartAcc d)
    fold_each (agg ∷ aggs) (acc ∷ accs) tuples =
        fold_tuples d ncols predicate agg acc tuples ∷ fold_each aggs accs tuples
    fold_each _ _ tuples = []

    pub fold_each-append :
        (aggs : List VecAggregate) (accs : List (PartAcc d)) (xs ys : List (List (Value d)))
        → fold_each aggs (fold_each aggs accs xs) ys ≡ fold_each aggs accs (xs ++ ys)
    fold_each-append [] accs xs ys = refl
    fold_each-append (agg ∷ aggs) [] xs ys = refl
    fold_each-append (agg ∷ aggs) (acc ∷ accs) xs ys =
        ap₂ ◌∷◌ (fold_tuples-append ncols predicate agg acc xs ys)
          (fold_each-append aggs accs xs ys)

    pub length-fold_each :
        (aggs : List VecAggregate) (accs : List (PartAcc d)) (xs : List (List (Value d)))
        → length accs ≡ length aggs
        → length (fold_each aggs accs xs) ≡ length aggs
    length-fold_each [] accs xs h = refl
    length-fold_each (agg ∷ aggs) [] xs h = absurd (omega (arith, h))
    length-fold_each (agg ∷ aggs) (acc ∷ accs) xs h =
        ap suc (length-fold_each aggs accs xs (omega (arith, h)))

    pub fold_each-nil :
        (aggs : List VecAggregate) (accs : List (PartAcc d))
        → length accs ≡ length aggs
        → fold_each aggs accs [] ≡ accs
    fold_each-nil [] [] h = refl
    fold_each-nil [] (acc ∷ accs) h = absurd (omega (arith, h))
    fold_each-nil (agg ∷ aggs) [] h = absurd (omega (arith, h))
    fold_each-nil (agg ∷ aggs) (acc ∷ accs) h =
        ap (◌∷◌ acc) (fold_each-nil aggs accs (omega (arith, h)))

    -- The batch with some rows.
    abbrev pub batch_of : List (List (Value d)) → List (List (Value d)) → Batch d
    batch_of columns tuples = record { columns = columns; selection = count_up 0 (length tuples) }

    pub consume-fold_each :
        (aggs : List VecAggregate) (accs : List (PartAcc d))
        (columns tuples : List (List (Value d)))
        → IsColumns ncols columns tuples
        → consume d aggs accs (filter_batch d predicate (batch_of columns tuples))
          ≡ fold_each aggs accs tuples
    unfolding consume
    consume-fold_each [] accs columns tuples h = refl
    consume-fold_each (agg ∷ aggs) [] columns tuples h = refl
    consume-fold_each (agg ∷ aggs) (acc ∷ accs) columns tuples h =
        ap₂ ◌∷◌
          (consume_kind-filter_batch d ncols predicate agg acc columns tuples
            (IsColumns-Shows ncols columns [] tuples h))
          (consume-fold_each aggs accs columns tuples h)

    pub push_tuple-batch_of :
        (columns tuples : List (List (Value d))) (tuple : List (Value d))
        → push_tuple d (batch_of columns tuples) tuple (length tuples)
          ≡ batch_of (push_columns d columns tuple) (tuples ++ tuple ∷ [])
    unfolding push_tuple
    push_tuple-batch_of columns tuples tuple =
        let n = length tuples in
        let e : 0 + n ≡ n = omega arith in
        let size : suc n ≡ length (tuples ++ tuple ∷ []) =
          omega (arith, length-append {0} tuples (tuple ∷ [])) in
        ap (λ (s : List ℕ). record { columns = push_columns d columns tuple; selection = s })
          (ap (λ k. count_up 0 n ++ k ∷ []) (sym e) ∙ count_up-snoc 0 n ∙ ap (count_up 0) size)
