-- ===== src/Txn/Manager.antt =====
-- src/txn/transaction_manager.cpp: transactions over the log and the lock table, either of which
-- may be missing. The undo closures act on a storage of type `S`, which they are given here.
pub mod Ends
pub mod Rollback
use mathlib.Core.Option
use prqlite.Base.{
  ℕ, ◌+◌, ℤ, pos, negsuc, int_eq, Bool, true, false, List, [], ◌∷◌, ◌++◌, Option, none, some, Dict,
  find, insert, erase, get_or, wrap, ◌+ℤ◌, ◌^◌, Bytes,
}
use prqlite.RecordId.{RecordId, invalid}
use prqlite.Txn.Locks.{LockManager, LockMode, shared, exclusive, lock, unlock_all}
use prqlite.Txn.Wal
use prqlite.Txn.Wal.{LogRecord, LogType, WriteAheadLog}

pub record TransactionManager (S : Type 0) : Type 0 where
  pub active : Dict ℤ (List (S → S))
  pub next_txn_id : ℤ
  pub wal : Option WriteAheadLog
  pub locks : Option LockManager

unfoldable pub new_manager :
    {S : Type 0} → Option WriteAheadLog → Option LockManager → TransactionManager S
new_manager wal locks = record { active = []; next_txn_id = pos 1; wal = wal; locks = locks }

-- A default `LogRecord` with its transaction and its type set.
abbrev pub log_record : ℤ → LogType → LogRecord
log_record txn type = record {
  lsn = 0;
  txn_id = txn;
  type = type;
  table_id = negsuc 0;
  rid = invalid;
  before_image = [];
  after_image = [];
}

-- `if (wal_ != nullptr) wal_->append(r);`, and with `wal_->flush();` behind it.
unfoldable pub log : LogRecord → Option WriteAheadLog → Option WriteAheadLog
log r = Option.map (λ w. (Wal.append w r).0)

unfoldable pub log_flush : LogRecord → Option WriteAheadLog → Option WriteAheadLog
log_flush r = Option.map (λ w. Wal.flush (Wal.append w r).0)

module _ {S : Type 0} where
  -- `active_[id]` makes an entry where there is none. An overflow of the next number, which C++
  -- leaves undefined, wraps here.
  unfoldable pub begin : TransactionManager S → TransactionManager S × ℤ
  unfolding log
  begin m =
      let id = m.next_txn_id in
      (
        record m {
          active = insert id (get_or [] id m.active) m.active;
          next_txn_id = wrap (2 ^ 31) (id +ℤ pos 1);
          wal = log (log_record id LogType.begin) m.wal;
        },
        id,
      )

  unfoldable pub is_active : TransactionManager S → ℤ → Bool
  is_active m txn = elim (find txn m.active) [ none ↦ false | some _ ↦ true ]

  unfoldable pub register_undo : TransactionManager S → ℤ → (S → S) → TransactionManager S
  register_undo m txn undo = elim (find txn m.active) [
    | none ↦ m
    | some undos ↦ record m { active = insert txn (undos ++ undo ∷ []) m.active }
  ]

  -- The list holds what other threads do to the lock table while this one waits.
  abbrev lock_as :
      LockMode
      → List (LockManager → LockManager)
      → TransactionManager S
      → ℤ
      → RecordId
      → TransactionManager S × Bool
  lock_as mode others m txn rid = elim m.locks [
    | none ↦ (m, true)
    | some l ↦
        let (l', granted) = lock others l txn rid mode in (record m { locks = some l' }, granted)
  ]

  unfoldable pub lock_shared :
      List (LockManager → LockManager)
      → TransactionManager S
      → ℤ
      → RecordId
      → TransactionManager S × Bool
  lock_shared = lock_as shared

  unfoldable pub lock_exclusive :
      List (LockManager → LockManager)
      → TransactionManager S
      → ℤ
      → RecordId
      → TransactionManager S × Bool
  lock_exclusive = lock_as exclusive

  unfoldable pub log_insert : TransactionManager S → ℤ → ℤ → RecordId → Bytes → TransactionManager S
  unfolding log
  log_insert m txn table rid after =
      let r = log_record txn LogType.insert in
      record m { wal = log (record r { table_id = table; rid = rid; after_image = after }) m.wal }

  unfoldable pub log_delete : TransactionManager S → ℤ → ℤ → RecordId → Bytes → TransactionManager S
  unfolding log
  log_delete m txn table rid before =
      let r = log_record txn LogType.delete in
      record m { wal = log (record r { table_id = table; rid = rid; before_image = before }) m.wal }

  -- The part that `commit` and `rollback` share: the end is logged and synced, the locks are
  -- given up, and the transaction is forgotten.
  pub finish : LogType → TransactionManager S → ℤ → TransactionManager S
  unfolding log_flush
  finish type m txn = record m {
    wal = log_flush (log_record txn type) m.wal;
    locks = Option.map (λ l. unlock_all l txn) m.locks;
    active = erase txn m.active;
  }

  unfoldable pub commit : TransactionManager S → ℤ → TransactionManager S
  unfolding finish
  commit m txn = elim (find txn m.active) [ none ↦ m | some _ ↦ finish LogType.commit m txn ]

  -- `rbegin` to `rend`: the last registered closure runs first.
  unfoldable pub undo_all : List (S → S) → S → S
  undo_all [] s = s
  undo_all (undo ∷ undos) s = undo (undo_all undos s)

  unfoldable pub rollback : TransactionManager S → ℤ → S → TransactionManager S × S
  unfolding undo_all finish
  rollback m txn s = elim (find txn m.active) [
    | none ↦ (m, s)
    | some undos ↦ (finish LogType.abort m txn, undo_all undos s)
  ]
