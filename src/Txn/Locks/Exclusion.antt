-- ===== src/Txn/Locks/Exclusion.antt =====
-- src/txn/lock_manager.cpp: an exclusive holder is alone, whatever the threads do.
use prqlite.Base.{ℤ, int_eq, [], none, some, ◌≡◌, ◌≢◌}
use prqlite.RecordId.{RecordId, rid_eq}
use prqlite.Txn.Locks.{
  LockMode, exclusive, LockManager, no_locks, try_lock, lock, unlock, unlock_all,
}
use prqlite.Txn.Locks.Valid.{
  IsValid, no_locks-IsValid, try_lock-IsValid, lock-IsValid, unlock-IsValid, unlock_all-IsValid,
}
use prqlite.Txn.Locks.Holders.{holds}

-- One thread's turn: a call that does not wait, or one test of a waiting `lock`.
pub data Step (s : LockManager) : LockManager → Type 0 where
  tried : (txn : ℤ) (rid : RecordId) (mode : LockMode) → Step s (try_lock s txn rid mode).0
  tested : (txn : ℤ) (rid : RecordId) (mode : LockMode) → Step s (lock [] s txn rid mode).0
  unlocked : (txn : ℤ) (rid : RecordId) → Step s (unlock s txn rid)
  ended : (txn : ℤ) → Step s (unlock_all s txn)

pub data Reach : LockManager → Type 0 where
  start : Reach no_locks
  next : {s s' : LockManager} → Reach s → Step s s' → Reach s'

Step-IsValid : {s s' : LockManager} → Step s s' → IsValid s → IsValid s'
Step-IsValid (tried txn rid mode) v = try_lock-IsValid txn rid mode v
Step-IsValid (tested txn rid mode) v = lock-IsValid [] txn rid mode tt v
Step-IsValid (unlocked txn rid) v = unlock-IsValid txn rid v
Step-IsValid (ended txn) v = unlock_all-IsValid txn v

pub Reach-IsValid : {s : LockManager} → Reach s → IsValid s
Reach-IsValid start = no_locks-IsValid
Reach-IsValid (next r step) = Step-IsValid step (Reach-IsValid r)

-- In every state that interleaved calls of any threads reach from the empty lock table, a row
-- that one transaction holds exclusively is held by no other transaction.
pub exclusive_alone :
    {s : LockManager}
    → Reach s
    → (rid : RecordId) (t u : ℤ) → t ≢ u
    → holds s.table rid t ≡ some exclusive
    → holds s.table rid u ≡ none
exclusive_alone r = (Reach-IsValid r).exclusion
