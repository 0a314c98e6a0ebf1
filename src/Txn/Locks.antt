-- ===== src/Txn/Locks.antt =====
-- src/txn/lock_manager.cpp: row locks, shared or exclusive. The mutex makes each call one step,
-- but for the wait in `lock`, during which other threads make theirs.
pub mod Holders
pub mod Valid
pub mod Exclusion
pub mod Release
use prqlite.Base.{
  ℤ, int_beq, int_eq, Bool, true, false, ◌||◌, not, List, [], ◌∷◌, ◌++◌, Option, none, some, Dict,
  find, insert, erase, get_or, if◌then◌else◌,
}
use prqlite.RecordId.{RecordId, rid_beq, rid_eq}

pub data LockMode : Type 0 where
  shared exclusive : LockMode

unfoldable pub is_exclusive : LockMode → Bool
is_exclusive shared = false
is_exclusive exclusive = true

-- `Entry`: the transactions that hold the row.
abbrev pub Entry : Type 0
Entry = Dict ℤ LockMode

pub record LockManager : Type 0 where
  pub table : Dict RecordId Entry
  pub held_by_txn : Dict ℤ (List RecordId)

abbrev pub no_locks : LockManager
no_locks = record { table = []; held_by_txn = [] }

pub can_grant : Entry → ℤ → LockMode → Bool
unfolding is_exclusive
can_grant [] txn mode = true
can_grant ((holder, held) ∷ entry) txn mode =
    let rest = can_grant entry txn mode in
    if int_beq holder txn
    then rest
    else if is_exclusive mode || is_exclusive held
    then false
    else rest

-- `table_[rid]`, which makes an empty entry where there is none.
pub touch : LockManager → RecordId → LockManager
touch s rid = record s { table = insert rid (get_or [] rid s.table) s.table }

pub grant : LockManager → RecordId → ℤ → LockMode → LockManager
unfolding is_exclusive
grant s rid txn mode =
    let entry = get_or [] rid s.table in
    elim (find txn entry) [
      | none ↦ record s {
        table = insert rid (insert txn mode entry) s.table;
        held_by_txn = insert txn (get_or [] txn s.held_by_txn ++ rid ∷ []) s.held_by_txn;
      }
      | some _ ↦ record s {
        table =
            insert rid (if is_exclusive mode then insert txn exclusive entry else entry) s.table;
      }
    ]

unfoldable pub try_lock : LockManager → ℤ → RecordId → LockMode → LockManager × Bool
unfolding can_grant touch grant
try_lock s txn rid mode =
    if can_grant (get_or [] rid s.table) txn mode
    then (grant s rid txn mode, true)
    else (touch s rid, false)

-- `cv_.wait_for`: the test is made at once and after each wake-up. The list holds what the other
-- threads do between two tests; at its end the five seconds have passed.
unfoldable pub lock :
    List (LockManager → LockManager) → LockManager → ℤ → RecordId → LockMode → LockManager × Bool
unfolding can_grant touch grant
lock [] s txn rid mode =
    if can_grant (get_or [] rid s.table) txn mode
    then (grant s rid txn mode, true)
    else (touch s rid, false)
lock (other ∷ others) s txn rid mode =
    let later = lock others (other (touch s rid)) txn rid mode in
    if can_grant (get_or [] rid s.table) txn mode then (grant s rid txn mode, true) else later

-- The part of both `unlock`s on the table: an entry with no holder left is dropped.
pub release : ℤ → RecordId → Dict RecordId Entry → Dict RecordId Entry
release txn rid table = elim (find rid table) [
  | none ↦ table
  | some entry ↦ elim (erase txn entry) [
    | [] ↦ erase rid table
    | h ∷ rest ↦ insert rid (h ∷ rest) table
  ]
]

-- `held.erase(std::remove(…), held.end())`
pub remove_rid : RecordId → List RecordId → List RecordId
remove_rid rid [] = []
remove_rid rid (r ∷ rs) = let rest = remove_rid rid rs in if rid_beq r rid then rest else r ∷ rest

unfoldable pub unlock : LockManager → ℤ → RecordId → LockManager
unfolding release remove_rid
unlock s txn rid = record {
  table = release txn rid s.table;
  held_by_txn = insert txn (remove_rid rid (get_or [] txn s.held_by_txn)) s.held_by_txn;
}

pub release_all : ℤ → List RecordId → Dict RecordId Entry → Dict RecordId Entry
unfolding release
release_all txn [] table = table
release_all txn (rid ∷ rids) table = release_all txn rids (release txn rid table)

unfoldable pub unlock_all : LockManager → ℤ → LockManager
unfolding release_all
unlock_all s txn = elim (find txn s.held_by_txn) [
  | none ↦ s
  | some rids ↦ record {
    table = release_all txn rids s.table;
    held_by_txn = erase txn s.held_by_txn;
  }
]
