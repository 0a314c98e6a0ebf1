-- ===== src/Tests/Versions.antt =====
-- src/vm/version_store.cpp at a small history: two rows put, one changed, one deleted.
use prqlite.Base.{ℕ, ℤ, pos, int_beq, [], ◌∷◌, ◌≡◌, refl, find, insert, get_or, modify, arith}
use prqlite.RecordId.{RecordId, rid_beq}
use prqlite.Vm.Versions.{
  VersionStore, new_store, known, stage_insert, stage_delete, commit_pending, gc, rows_as_of,
  rows_for_txn, snapshot_as_of, snapshot_for_txn,
}
use prqlite.Vm.Versions.Index.{lookup_row}
use prqlite.Vm.Versions.Valid.{
  IsValid, new_store-IsValid, stage_insert-IsValid, stage_delete-IsValid, commit_pending-IsValid,
}
use prqlite.Vm.Versions.Commit.{commit_publishes, commit_keeps_past}
use prqlite.Vm.Versions.Collect.{gc_exact}

abbrev row : ℕ → RecordId
row n = record { page_id = pos 0; slot_id = pos n }

abbrev table : ℤ
table = pos 1

abbrev first : VersionStore
first =
    (commit_pending
      (stage_insert (stage_insert new_store table (row 0) (7 ∷ [])) table (row 1) (8 ∷ []))).0

abbrev second : VersionStore
second = (commit_pending (stage_delete (stage_insert first table (row 0) (9 ∷ [])) table (row 1))).0

abbrev third : VersionStore
third = stage_insert second table (row 1) (5 ∷ [])

run_store : VersionStore → Unit {0}
unfolding stage_insert stage_delete commit_pending gc snapshot_as_of snapshot_for_txn find insert
    get_or int_beq rid_beq modify known
run_store s = tt

time_travel :
    (snapshot_as_of third table 1 ≡ (7 ∷ []) ∷ (8 ∷ []) ∷ [])
    × (snapshot_as_of third table 2 ≡ (9 ∷ []) ∷ [])
    × (snapshot_for_txn third table 2 ≡ (9 ∷ []) ∷ (5 ∷ []) ∷ [])
    × (snapshot_as_of (gc third 2) table 1 ≡ (9 ∷ []) ∷ [])
unfolding run_store
time_travel = (refl, refl, refl, refl)

first-IsValid : IsValid first
unfolding stage_insert
first-IsValid = commit_pending-IsValid (omega arith) (
    stage_insert-IsValid table (row 1) (8 ∷ [])
      (stage_insert-IsValid table (row 0) (7 ∷ []) new_store-IsValid))

third-IsValid : IsValid third
unfolding run_store
third-IsValid = stage_insert-IsValid table (row 1) (5 ∷ []) (
    commit_pending-IsValid (omega arith) (
      stage_delete-IsValid table (row 1)
        (stage_insert-IsValid table (row 0) (9 ∷ []) first-IsValid)))

gc_exact_example :
    lookup_row (row 0) (rows_as_of (gc third 1) table 2)
    ≡ lookup_row (row 0) (rows_as_of third table 2)
unfolding run_store
gc_exact_example = gc_exact 1 table 2 (row 0) third-IsValid (omega arith)

commit_publishes_example :
    lookup_row (row 1) (rows_as_of (commit_pending third).0 table (commit_pending third).1)
    ≡ lookup_row (row 1) (rows_for_txn third table third.version)
unfolding run_store
commit_publishes_example = commit_publishes table (row 1) third-IsValid (omega arith)

commit_keeps_past_example :
    lookup_row (row 0) (rows_as_of (commit_pending third).0 table 1)
    ≡ lookup_row (row 0) (rows_as_of third table 1)
unfolding run_store
commit_keeps_past_example =
    commit_keeps_past table 1 (row 0) third-IsValid (omega arith) (omega arith) (omega arith)

commit_pending-IsValid_example : IsValid (commit_pending third).0
unfolding run_store
commit_pending-IsValid_example = commit_pending-IsValid (omega arith) third-IsValid
