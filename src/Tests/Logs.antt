-- ===== src/Tests/Logs.antt =====
-- src/txn/wal.cpp with two records, the last of which is torn.
use prqlite.Base.{
  ℕ, ◌<◌, ◌^◌, pos, negsuc, [], ◌∷◌, ◌++◌, ◌≡◌, refl, some, false, le_bytes, of_le, split, take,
  drop, arith, Bytes,
}
use prqlite.RecordId.{invalid}
use prqlite.Txn.Wal.{
  LogType, LogRecord, WriteAheadLog, encode, read_all, open_log, append, next_lsn_after,
}
use prqlite.Txn.Wal.RoundTrip.{IsEncodable}
use prqlite.Txn.Wal.Reopen.{append_all, number, new_log, read_all-append_all, open_log_torn}

abbrev begun : LogRecord
begun = record {
  lsn = 0;
  txn_id = pos 1;
  type = LogType.begin;
  table_id = negsuc 0;
  rid = invalid;
  before_image = [];
  after_image = [];
}

abbrev inserted : LogRecord
inserted = record begun {
  lsn = 2;
  type = LogType.insert;
  table_id = pos 3;
  rid = record { page_id = pos 0; slot_id = pos 4 };
  after_image = 65 ∷ 66 ∷ [];
}

run_log : LogRecord → Unit {0}
unfolding encode read_all open_log append append_all number le_bytes of_le split take drop
    next_lsn_after
run_log r = tt

-- The first 20 of the 39 bytes of the second record.
abbrev written : Bytes
written = 35 ∷ 0 ∷ 0 ∷ 0 ∷ 2 ∷ 0 ∷ 0 ∷ 0 ∷ 0 ∷ 0 ∷ 0 ∷ 0 ∷ 1 ∷ 0 ∷ 0 ∷ 0 ∷ 1 ∷ 3 ∷ 0 ∷ 0 ∷ []

abbrev lost : Bytes
lost = 0 ∷ 0 ∷ 0 ∷ 0 ∷ 0 ∷ 4 ∷ 0 ∷ 0 ∷ 0 ∷ 0 ∷ 0 ∷ 0 ∷ 0 ∷ 2 ∷ 0 ∷ 0 ∷ 0 ∷ 65 ∷ 66 ∷ []

read_back :
    read_all (append_all new_log (begun ∷ inserted ∷ [])).file
    ≡ some (record begun { lsn = 1 } ∷ inserted ∷ [])
unfolding run_log
read_back = refl

begun-IsEncodable : (n : ℕ) → n < 2 ^ 64 → IsEncodable (record begun { lsn = n })
begun-IsEncodable n h = record {
  lsn = h;
  txn_id = omega arith;
  type = tt;
  table_id = omega arith;
  page_id = omega arith;
  slot_id = omega arith;
  size = omega arith;
}

inserted-IsEncodable : IsEncodable inserted
inserted-IsEncodable = record {
  lsn = omega arith;
  txn_id = omega arith;
  type = tt;
  table_id = omega arith;
  page_id = omega arith;
  slot_id = omega arith;
  size = omega arith;
}

read_all-append_all_example :
    read_all (append_all new_log (begun ∷ inserted ∷ [])).file
    ≡ some (number 1 (begun ∷ inserted ∷ []))
unfolding number
read_all-append_all_example =
    read_all-append_all (begun ∷ inserted ∷ []) (omega arith)
      (begun-IsEncodable 1 (omega arith), (inserted-IsEncodable, tt))

open_log_torn_example :
    (w : WriteAheadLog) × (open_log false ((append_all new_log (begun ∷ [])).file ++ written)
      ≡ some w)
    × (read_all w.file ≡ some (number 1 (begun ∷ [])))
    × (w.next_lsn ≡ (append_all new_log (begun ∷ [])).next_lsn)
unfolding run_log
open_log_torn_example =
    open_log_torn (begun ∷ []) inserted written lost (omega arith)
      (begun-IsEncodable 1 (omega arith), tt) inserted-IsEncodable refl (omega arith)
