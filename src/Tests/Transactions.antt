-- ===== src/Tests/Transactions.antt =====
-- src/txn/transaction_manager.cpp with one transaction on a storage that is a number.
use prqlite.Base.{
  ◌++◌, reverse, get_or, ◌+ℤ◌, ℕ, ◌+◌, ℤ, pos, int_beq, int_eq, [], ◌∷◌, ◌≡◌, refl, none, some,
  if◌then◌else◌, find, insert, erase,
}
use prqlite.Txn.Locks.{no_locks}
use prqlite.Txn.Locks.Valid.{no_locks-IsValid}
use prqlite.Txn.Wal.{LogType, WriteAheadLog, encode, append}
use prqlite.Txn.Wal.Reopen.{new_log}
use prqlite.Txn.Manager.{TransactionManager, new_manager, begin, commit, rollback, is_active}
use prqlite.Txn.Manager.Ends.{EndLogged, OnlyReleased, commit_lem}
use prqlite.Txn.Manager.Rollback.{register_all, run_all, rollback-register_all}

abbrev idle : TransactionManager ℕ
idle = new_manager (some new_log) (some no_locks)

abbrev running : TransactionManager ℕ
running = (begin idle).0

run_manager : TransactionManager ℕ → Unit {0}
unfolding new_manager begin commit rollback is_active find insert get_or ◌+ℤ◌ erase int_beq
run_manager m = tt

logged : WriteAheadLog
unfolding run_manager
logged = record {
  file = encode (record {
    lsn = 1;
    txn_id = pos 1;
    type = LogType.begin;
    table_id = ℤ.negsuc 0;
    rid = record { page_id = ℤ.negsuc 0; slot_id = ℤ.negsuc 0 };
    before_image = [];
    after_image = [];
  });
  synced = [];
  next_lsn = 2;
  appends_since_reset = 1;
}

commit_lem_example :
    EndLogged LogType.commit (pos 1) logged (commit running (pos 1)).wal
    × OnlyReleased (pos 1) no_locks (commit running (pos 1)).locks
    × ((u : ℤ)
        → find u (commit running (pos 1)).active
          ≡ (if int_beq (pos 1) u then none else find u running.active))
unfolding run_manager logged append
commit_lem_example = commit_lem running (pos 1) logged no_locks refl refl refl no_locks-IsValid

-- Two closures on a storage that is a number.
abbrev add_three : ℕ → ℕ
add_three n = n + 3

abbrev double : ℕ → ℕ
double n = n + n

rollback-register_all_example :
    let done = rollback (register_all (add_three ∷ double ∷ []) (pos 1) running) (pos 1) 10 in
    (done.1 ≡ run_all (reverse ([] ++ add_three ∷ double ∷ [])) 10)
    × EndLogged LogType.abort (pos 1) logged done.0.wal
    × OnlyReleased (pos 1) no_locks done.0.locks
    × ((u : ℤ) → find u done.0.active ≡ (if int_beq (pos 1) u then none else find u running.active))
unfolding run_manager logged append
rollback-register_all_example =
    rollback-register_all running (pos 1) [] (add_three ∷ double ∷ []) 10 logged no_locks refl refl
      refl no_locks-IsValid
