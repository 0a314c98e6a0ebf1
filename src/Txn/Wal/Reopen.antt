-- ===== src/Txn/Wal/Reopen.antt =====
-- src/txn/wal.cpp: appending, and opening the file again.
use prqlite.Base.{
  ℕ, ◌+◌, ◌%◌, ◌^◌, ◌<◌, List, [], ◌∷◌, ◌++◌, some, false, Bytes, length, ◌≡◌, arith, append_assoc,
  append-nil, sym, ◌∙◌, ap,
}
use native.Mathlib.Nat.{mod-eq_of_lt}
use prqlite.Txn.Wal.{LogRecord, WriteAheadLog, encode, read_all, next_lsn_after, open_log, append}
use prqlite.Txn.Wal.RoundTrip.{IsEncodable, AllEncodable, encode_all}
use prqlite.Txn.Wal.Torn.{read_all-encode_all, read_all_torn}

unfoldable pub append_all : WriteAheadLog → List LogRecord → WriteAheadLog
append_all w [] = w
append_all w (r ∷ rs) = append_all (append w r).0 rs

-- The records with the sequence numbers that `append` gives them.
unfoldable pub number : ℕ → List LogRecord → List LogRecord
number lsn [] = []
number lsn (r ∷ rs) = record r { lsn = lsn } ∷ number (lsn + 1) rs

append_all_lem :
    (w : WriteAheadLog) (rs : List LogRecord)
    → w.next_lsn + length rs < 2 ^ 64
    → ((append_all w rs).file ≡ w.file ++ encode_all (number w.next_lsn rs))
      × ((append_all w rs).next_lsn ≡ w.next_lsn + length rs)
unfolding append_all append number encode_all
append_all_lem w [] h = (sym (append-nil w.file), omega arith)
append_all_lem w (r ∷ rs) h =
    let e : (w.next_lsn + 1) % 2 ^ 64 ≡ w.next_lsn + 1 = mod-eq_of_lt (omega arith) in
    let ih = append_all_lem (append w r).0 rs (omega (arith, e)) in
    (ih.0 ∙ rw (e, append_assoc w.file _ _), omega (arith, ih.1, e))

next_lsn_after-number :
    (lsn : ℕ) (rs : List LogRecord)
    → lsn + length rs < 2 ^ 64
    → next_lsn_after lsn (number lsn rs) ≡ lsn + length rs
unfolding next_lsn_after number
next_lsn_after-number lsn [] h = omega arith
next_lsn_after-number lsn (r ∷ rs) h =
    let e : (lsn + 1) % 2 ^ 64 ≡ lsn + 1 = mod-eq_of_lt (omega arith) in
    ground (arith, e, next_lsn_after-number (lsn + 1) rs)

abbrev pub new_log : WriteAheadLog
new_log = record { file = []; synced = []; next_lsn = 1; appends_since_reset = 0 }

-- Records whose fields fit the file format, appended to a new log, are all read back, in order,
-- with consecutive sequence numbers from 1 on, as long as those fit 64 bits.
pub read_all-append_all :
    (rs : List LogRecord)
    → length rs + 1 < 2 ^ 64
    → AllEncodable (number 1 rs)
    → read_all (append_all new_log rs).file ≡ some (number 1 rs)
read_all-append_all rs h ok =
    ap read_all (append_all_lem new_log rs (omega arith)).0 ∙ read_all-encode_all (number 1 rs) ok

-- After a crash during the append of `r`, of which only a proper first part reached the file, the
-- log, all records of which fit the file format, opens again, holds the records appended before, and goes on with the next sequence number.
pub open_log_torn :
    (rs : List LogRecord) (r : LogRecord) (written lost : Bytes)
    → length rs + 1 < 2 ^ 64
    → AllEncodable (number 1 rs)
    → IsEncodable r
    → written ++ lost ≡ encode r
    → 0 < length lost
    → (w : WriteAheadLog) × (open_log false ((append_all new_log rs).file ++ written) ≡ some w)
      × (read_all w.file ≡ some (number 1 rs))
      × (w.next_lsn ≡ (append_all new_log rs).next_lsn)
unfolding open_log
open_log_torn rs r written lost h ok hr e l =
    let file = (append_all new_log rs).file ++ written in
    let (f, n) = append_all_lem new_log rs (omega arith) in
    let got : read_all file ≡ some (number 1 rs) =
      rw f (read_all_torn (number 1 rs) r written lost ok hr e l) in
    (
      record {
        file = file;
        synced = file;
        next_lsn = next_lsn_after 1 (number 1 rs);
        appends_since_reset = 0;
      },
      rw got,
      got,
      rw n (next_lsn_after-number 1 rs (omega arith)),
    )
