-- ===== src/Tests/Locks.antt =====
-- src/txn/lock_manager.cpp with three transactions and two rows.
use prqlite.Base.{
  ℕ, ℤ, pos, int_beq, [], ◌∷◌, ◌≡◌, ◌≢◌, ◌↔◌, refl, none, some, true, false, find, insert, erase,
  get_or, ◌&&◌, if◌then◌else◌,
}
use prqlite.RecordId.{RecordId, rid_beq}
use prqlite.Txn.Locks.{
  LockManager, LockMode, shared, exclusive, no_locks, try_lock, lock, unlock, unlock_all,
}
use prqlite.Txn.Locks.Holders.{holds, join}
use prqlite.Txn.Locks.Valid.{Compatible}
use prqlite.Txn.Locks.Exclusion.{Reach, start, next, tried, Reach-IsValid, exclusive_alone}
use prqlite.Txn.Locks.Release.{try_lock_iff, holds-try_lock, lock-holds, holds-unlock_all}

abbrev row : ℕ → RecordId
row n = record { page_id = pos 0; slot_id = pos n }

-- Transaction 1 writes row 0; transactions 2 and 3 read row 1.
abbrev busy : LockManager
busy =
    (try_lock (try_lock (try_lock no_locks (pos 1) (row 0) exclusive).0 (pos 2) (row 1) shared).0
      (pos 3) (row 1) shared).0

run_locks : LockManager → Unit {0}
unfolding try_lock lock unlock unlock_all holds find insert erase get_or int_beq rid_beq
run_locks s = tt

conflicts :
    ((try_lock busy (pos 2) (row 0) shared).1 ≡ false)
    × ((try_lock busy (pos 2) (row 1) exclusive).1 ≡ false)
    × ((try_lock busy (pos 2) (row 1) shared).1 ≡ true)
    × ((lock ((λ s. unlock_all s (pos 1)) ∷ []) busy (pos 2) (row 0) exclusive).1 ≡ true)
unfolding run_locks
conflicts = (refl, refl, refl, refl)

busy-Reach : Reach busy
busy-Reach =
    next (next (next start (tried (pos 1) (row 0) exclusive)) (tried (pos 2) (row 1) shared))
      (tried (pos 3) (row 1) shared)

exclusive_alone_example : holds busy.table (row 0) (pos 2) ≡ none
unfolding run_locks
exclusive_alone_example = exclusive_alone busy-Reach (row 0) (pos 1) (pos 2) (λ e. cc e) refl

try_lock_iff_example : ((try_lock busy (pos 2) (row 0) shared).1 ≡ true) ↔ (
    (u : ℤ) (held : LockMode)
    → holds busy.table (row 0) u ≡ some held
    → u ≢ pos 2
    → Compatible shared held)
try_lock_iff_example = try_lock_iff (Reach-IsValid busy-Reach) (pos 2) (row 0) shared

holds-try_lock_example : holds (try_lock busy (pos 2) (row 1) shared).0.table (row 1) (pos 3) ≡ (
    if (try_lock busy (pos 2) (row 1) shared).1
      && (rid_beq (row 1) (row 1) && int_beq (pos 2) (pos 3))
    then some (join shared (holds busy.table (row 1) (pos 3)))
    else holds busy.table (row 1) (pos 3))
holds-try_lock_example = holds-try_lock busy (pos 2) (row 1) shared (row 1) (pos 3)

lock-holds_example :
    (m : LockMode) × (holds
        (lock ((λ s. unlock_all s (pos 1)) ∷ []) busy (pos 2) (row 0) exclusive).0.table
        (row 0)
        (pos 2)
      ≡ some m)
    × (exclusive ≡ exclusive → m ≡ exclusive)
unfolding run_locks
lock-holds_example =
    lock-holds ((λ s. unlock_all s (pos 1)) ∷ []) busy (pos 2) (row 0) exclusive refl

holds-unlock_all_example :
    holds (unlock_all busy (pos 1)).table (row 0) (pos 1)
    ≡ (if int_beq (pos 1) (pos 1) then none else holds busy.table (row 0) (pos 1))
holds-unlock_all_example = holds-unlock_all (Reach-IsValid busy-Reach) (pos 1) (row 0) (pos 1)
