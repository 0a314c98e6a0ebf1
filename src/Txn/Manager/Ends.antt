-- ===== src/Txn/Manager/Ends.antt =====
-- src/txn/transaction_manager.cpp: what `commit` leaves in the log and in the lock table.
use prqlite.Base.{
  ℤ, int_eq, int_beq, ◌++◌, Option, none, some, find, find-erase, ◌≡◌, refl, arith, true,
  if◌then◌else◌, Option-cases, inl, inr,
}
use prqlite.RecordId.{RecordId}
use prqlite.Txn.Locks.{LockManager}
use prqlite.Txn.Locks.Holders.{holds}
use prqlite.Txn.Locks.Valid.{IsValid}
use prqlite.Txn.Locks.Release.{holds-unlock_all}
use prqlite.Txn.Wal
use prqlite.Txn.Wal.{LogType, WriteAheadLog, encode}
use prqlite.Txn.Manager.{TransactionManager, is_active, log_record, log_flush, commit, finish}

-- The end of a transaction in the log: its record is the last of the file, and the whole file is
-- synced.
abbrev pub EndLogged : LogType → ℤ → WriteAheadLog → Option WriteAheadLog → Type 0
EndLogged type txn w none = ⊥
EndLogged type txn w (some w') =
    (w'.file ≡ w.file ++ encode (record (log_record txn type) { lsn = w.next_lsn }))
    × (w'.synced ≡ w'.file)

-- Every lock of the transaction is gone, and all others are as they were.
abbrev pub OnlyReleased : ℤ → LockManager → Option LockManager → Type 0
OnlyReleased txn l none = ⊥
OnlyReleased txn l (some l') =
    (r : RecordId) (u : ℤ)
    → holds l'.table r u ≡ (if int_beq txn u then none else holds l.table r u)

module _ {S : Type 0} where
  -- Committing an active transaction writes its commit record as the last of the log and syncs
  -- the log, gives up its locks and no others, and forgets it while all others stay active with
  -- their undo lists. The lock table has to be valid.
  pub commit_lem :
      (m : TransactionManager S) (txn : ℤ) (w : WriteAheadLog) (l : LockManager)
      → is_active m txn ≡ true
      → m.wal ≡ some w
      → m.locks ≡ some l
      → IsValid l
      → EndLogged LogType.commit txn w (commit m txn).wal
        × OnlyReleased txn l (commit m txn).locks
        × ((u : ℤ)
            → find u (commit m txn).active ≡ (if int_beq txn u then none else find u m.active))
  unfolding commit finish log_flush is_active Wal.append Wal.flush
  commit_lem m txn w l h hw hl v = elim (Option-cases (find txn m.active)) [
    | inl missing ↦ absurd (ground (arith, missing))
    | inr (undos, found) ↦
        rw (found, commit, hw, hl)
          ((refl, refl), (λ r u. holds-unlock_all v txn r u), (λ u. find-erase txn u m.active))
  ]
