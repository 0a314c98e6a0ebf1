-- ===== src/Txn.antt =====
-- include/txn and src/txn: locks, the write-ahead log, transactions and recovery.
pub mod Locks
pub mod Wal
pub mod Manager
