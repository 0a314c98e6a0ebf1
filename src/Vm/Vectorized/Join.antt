-- ===== src/Vm/Vectorized/Join.antt =====
-- src/vm/vectorized.cpp: the hash join. The key columns are numbers of columns of their tables.
use prqlite.Base.{
  ℕ, suc, ◌==◌, ltb, Bool, true, false, not, ◌&&◌, map, List, [], ◌∷◌, ◌++◌, append_assoc,
  append-nil, Option, none, some, if◌then◌else◌, Bytes, bytes_beq, bytes_beq_iff, bytes_eq, length,
  Dict, find, insert, get_or, get_or-insert, Bool-cases, ◌≡◌, inl, inr, refl, ap, sym, ◌∙◌,
}
use prqlite.Vm.Values.{Doubles, Value, null, is_null, type_number, print_nat, to_string}
use prqlite.Vm.Columns.{at}
use prqlite.Vm.Vectorized.{Batch, empty_batch, push_tuple}

module _ (d : Doubles) where
  unfoldable pub key_of : Value d → Bytes
  unfolding print_nat type_number to_string
  key_of v = print_nat (type_number v.type) ++ b':' ∷ to_string d v

  -- `HashTable`.
  abbrev pub HashTable : Type 0
  HashTable = Dict Bytes (List (List (Value d)))

  unfoldable pub add_build_row : HashTable → Value d → List (Value d) → HashTable
  unfolding key_of
  add_build_row ht k tuple =
      if is_null d k then ht else insert (key_of k) (get_or [] (key_of k) ht ++ tuple ∷ []) ht

  -- The loop over the build side.
  unfoldable pub build_side : ℕ → HashTable → List (List (Value d)) → HashTable
  unfolding add_build_row
  build_side column ht [] = ht
  build_side column ht (tuple ∷ tuples) =
      let added = add_build_row ht (at (null d) tuple column) tuple in
      build_side column (if ltb column (length tuple) then added else ht) tuples

  -- What one row of the probe side gives.
  unfoldable pub probe_row : HashTable → Value d → List (Value d) → List (List (Value d))
  unfolding key_of
  probe_row ht k row = if is_null d k then [] else elim (find (key_of k) ht) [
    | none ↦ []
    | some build_rows ↦ map (λ build_row. row ++ build_row) build_rows
  ]

  -- `VectorHashProbe::consume`.
  unfoldable pub probe_batch :
      HashTable → ℕ → List (List (Value d)) → List ℕ → List (List (Value d))
  unfolding probe_row
  probe_batch ht column columns [] = []
  probe_batch ht column columns (r ∷ rs) =
      probe_row ht (at (null d) (at [] columns column) r) (map (λ col. at (null d) col r) columns)
      ++ probe_batch ht column columns rs

  -- `scanIntoSink`, with a function for the sink.
  unfoldable pub scan_into_sink {ℓ} :
      {S : Type ℓ} → (S → Batch d → S) → ℕ → ℕ → List (List (Value d)) → Batch d → ℕ → S → S
  unfolding push_tuple
  scan_into_sink sink ncols batch_size [] batch filled state =
      if ltb 0 filled then sink state batch else state
  scan_into_sink sink ncols batch_size (tuple ∷ tuples) batch filled state =
      let full = push_tuple d batch tuple filled in
      let more = scan_into_sink sink ncols batch_size tuples full (suc filled) state in
      let next =
        scan_into_sink sink ncols batch_size tuples (empty_batch d ncols) 0 (sink state full) in
      if suc filled == batch_size then next else more

  unfoldable pub run_vectorized_hash_join :
      List (List (Value d)) → ℕ → ℕ → List (List (Value d)) → ℕ → ℕ → List (List (Value d))
  unfolding build_side probe_batch scan_into_sink
  run_vectorized_hash_join build_rows build_column ncols probe_rows probe_column batch_size =
      let ht = build_side build_column [] build_rows in
      scan_into_sink (λ out batch. out ++ probe_batch ht probe_column batch.columns batch.selection)
        ncols batch_size probe_rows (empty_batch d ncols) 0 []

  -- The rows of the build side that have a key, in order.
  abbrev pub rows_with_key : ℕ → Bytes → List (List (Value d)) → List (List (Value d))
  rows_with_key column key [] = []
  rows_with_key column key (tuple ∷ tuples) =
      let k = at (null d) tuple column in
      if ltb column (length tuple) && (not (is_null d k) && bytes_beq (key_of k) key)
      then tuple ∷ rows_with_key column key tuples
      else rows_with_key column key tuples

  get_or-add_build_row :
      (ht : HashTable) (k : Value d) (tuple : List (Value d)) (key : Bytes)
      → get_or [] key (add_build_row ht k tuple)
        ≡ get_or [] key ht
          ++ (if not (is_null d k) && bytes_beq (key_of k) key then tuple ∷ [] else [])
  unfolding add_build_row
  get_or-add_build_row ht k tuple key = elim (Bool-cases (is_null d k)) [
    | inl gone ↦ rw gone (sym (append-nil (get_or [] key ht)))
    | inr here ↦ rw here (
        get_or-insert [] (key_of k) key (get_or [] (key_of k) ht ++ tuple ∷ []) ht
        ∙ elim (Bool-cases (bytes_beq (key_of k) key)) [
          | inl same ↦
              rw same
                (ap (λ j. get_or [] j ht ++ tuple ∷ []) ((bytes_beq_iff (key_of k) key).0 same))
          | inr other ↦ rw other (sym (append-nil (get_or [] key ht)))
        ])
  ]

  rows_cons :
      (in_row : Bool) (wanted : Bool) (tuple : List (Value d)) (found rest : List (List (Value d)))
      → (found ++ (if in_row then (if wanted then tuple ∷ [] else []) else [])) ++ rest
        ≡ found ++ (if in_row && wanted then tuple ∷ rest else rest)
  rows_cons true true tuple found rest = append_assoc found (tuple ∷ []) rest
  rows_cons true false tuple found rest = ap (λ x. x ++ rest) (append-nil found)
  rows_cons false wanted tuple found rest = ap (λ x. x ++ rest) (append-nil found)

  get_or-added :
      (in_row : Bool) (ht : HashTable) (k : Value d) (tuple : List (Value d)) (key : Bytes)
      → get_or [] key (if in_row then add_build_row ht k tuple else ht)
        ≡ get_or [] key ht
          ++ (if in_row
              then (if not (is_null d k) && bytes_beq (key_of k) key then tuple ∷ [] else [])
              else [])
  get_or-added true ht k tuple key = get_or-add_build_row ht k tuple key
  get_or-added false ht k tuple key = sym (append-nil (get_or [] key ht))

  get_or-build_side :
      (column : ℕ) (ht : HashTable) (tuples : List (List (Value d))) (key : Bytes)
      → get_or [] key (build_side column ht tuples)
        ≡ get_or [] key ht ++ rows_with_key column key tuples
  unfolding build_side
  get_or-build_side column ht [] key = sym (append-nil (get_or [] key ht))
  get_or-build_side column ht (tuple ∷ tuples) key =
      let k = at (null d) tuple column in
      let in_row = ltb column (length tuple) in
      get_or-build_side column (if in_row then add_build_row ht k tuple else ht) tuples key
      ∙ ap (λ found. found ++ rows_with_key column key tuples) (get_or-added in_row ht k tuple key)
      ∙ rows_cons in_row (not (is_null d k) && bytes_beq (key_of k) key) tuple (get_or [] key ht)
          (rows_with_key column key tuples)

  probe_found :
      (row : List (Value d)) (o : Option (List (List (Value d))))
      → (elim o as (λ _. List (List (Value d))) [
        | none ↦ []
        | some build_rows ↦ map (λ build_row. row ++ build_row) build_rows
      ])
        ≡ map
            (λ build_row. row ++ build_row)
            (elim o as (λ _. List (List (Value d))) [ none ↦ [] | some rows ↦ rows ])
  probe_found row none = refl
  probe_found row (some rows) = refl

  -- A row is joined with the rows of the build side that have the same key.
  pub probe_row-rows_with_key :
      (column : ℕ) (tuples : List (List (Value d))) (k : Value d) (row : List (Value d))
      → probe_row (build_side column [] tuples) k row ≡ (
          if is_null d k
          then []
          else map (λ build_row. row ++ build_row) (rows_with_key column (key_of k) tuples))
  unfolding probe_row get_or find
  probe_row-rows_with_key column tuples k row =
      ap (λ x. if is_null d k then [] else x)
        (probe_found row (find (key_of k) (build_side column [] tuples))
          ∙ ap (map (λ build_row. row ++ build_row))
              (get_or-build_side column [] tuples (key_of k)))
