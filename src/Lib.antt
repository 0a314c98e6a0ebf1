-- ===== src/Lib.antt =====
-- PRQLite, a small SQL database in C++: its storage, its transactions, its scanner, its expressions
-- and its analytical scans.
--
-- The program's parts and the files that model them:
--
-- Base: lists, dictionaries, signed numbers and little-endian words over the native ℕ.
--   A `Dict` is a list of pairs, for std::unordered_map and std::map; `find` is the lookup.
-- RecordId: include/vm/record_id.hpp, the address of a row (page and slot).
-- Txn.Locks: src/txn/lock_manager.cpp. `LockManager` is the lock table and the index of rows by
--   transaction; canGrant, grant, tryLock, lock, unlock and unlockAll have the same names. The
--   calls run under one mutex, so an interleaving of threads is a sequence of calls. A call of
--   `lock` that waits is told, per wakeup, what the other threads did in between. Its children:
--   Holders (who holds a row), Valid (the invariant), Exclusion (reachable states), Release (what
--   each operation does to the holders).
-- Txn.Wal: src/txn/wal.cpp. A log file is a list of bytes; `encode` and `parse_body` are the
--   codec of a frame, `read_all` is readAll, `open_log` the constructor. Its children: RoundTrip
--   (frames), Torn (an incomplete last frame), Reopen (append, crash, open).
-- Txn.Manager: src/txn/transaction_manager.cpp over the log and the locks. The closures that
--   undo a write are functions on a storage type, a parameter. Its children: Ends (commit),
--   Rollback (which closures run, and in which order; that the executor's closures undo their
--   writes is not stated, since those of an UPDATE and an INSERT of one row do not).
-- Vm.Versions: src/vm/version_store.cpp, the multi-version history behind `AS OF` and snapshots.
--   Its children: Index (the rebuild's index of rows), History (what a log of changes says of one
--   row), Valid (the invariant), Commit, Collect.
-- Vm.Values, Vm.Tuples: src/vm/value.cpp and src/vm/tuple.cpp, SQL values with their comparison
--   and rows as bytes. The operations on C++'s double are the interface `Doubles`, with what
--   IEEE 754 says of its order and of memcpy in the records OrdersDoubles and CopiesDoubles. A
--   throw is `none`. Their children: Order; Bitmap and RoundTrip.
-- Frontend.Token, Frontend.Keywords, Frontend.Lexer: src/frontend/lexer.cpp. The scanner's text
--   and position are the bytes that are left, with line and column; `tokenize` is its loop. The
--   children of Lexer: Ends (the loop ends), Words (how words are spelled, and their types), Kinds
--   (the types that the scanner gives), Spelling (the scanner on one word), RoundTrip (on a text).
-- Frontend.Ast: the expressions of include/frontend/ast.hpp.
-- Vm.Eval: src/vm/expression_eval.cpp, evalExpression with one function per case. Its children:
--   Like (likeMatch; Like.Spec says what a pattern means, Like.Loop compares), Calls (the scalar
--   functions and casts; Calls.Casts), Logic (IN and BETWEEN).
-- Vm.Rewrite: src/vm/rewrite.cpp. Its children: Constants (folding), Arithmetic (the identities),
--   Sound, Widening.
-- Vm.Columns: src/vm/column_store.cpp, tables by columns with zones of 1024 rows; what IEEE 754 says
--   of NaNs is in RanksDoubles. Its children: Aggregate (the aggregates), Order (compareValues),
--   Cells and Zones (what zones bound), Skip (blocks), Whole (all blocks), Built (getOrBuild).
-- Vm.Vectorized: src/vm/vectorized.cpp, aggregates over batches of rows and the hash join. Its
--   children: Batches (a batch against its rows), Scan (filling batches), Passes (the loop over the
--   rows), Join (the hash join), Equal (which rows it joins).
-- Index.Bloom: src/index/bloom_filter.cpp, with fnv1a in full; its atomic words are plain words.
--   Its child Members: the keys that were added.
-- Backend.Page: src/backend/page.cpp, slotted pages. A page is a function from offsets to bytes,
--   of which the code uses the first 4096. Its children: Memory (reads after writes), Layout (the
--   invariant), Items and Compact, Place and Insert, Fits (when there is room), Shrink (erase and
--   update), Redo (the pages' part of recovery), Twice (redo applied again). `copied` is the cast of
--   a record's size to int, and what memcpy copies with it.
-- Tests: the results at concrete inputs.
--
-- How they interact: a transaction takes row locks in Txn.Locks, logs its writes in Txn.Wal and
-- stages them in Vm.Versions; Txn.Manager ends it over the first two. Rows are records of
-- Backend.Page, which Vm.Tuples encodes, and Redo applies the log to a page after a crash. Vm.Eval
-- computes the conditions that Vm.Rewrite has simplified, and Vm.Columns and Vm.Vectorized aggregate
-- over rows with the comparison of Vm.Values.
--
-- Bounds and fuel: C++'s int is `ℤ` with the 32-bit bound as a hypothesis where the code stores
-- it in four bytes, page words are 16 bits, sequence numbers and versions wrap at 2 ^ 64, and the
-- ids of transactions at 2 ^ 32. The size of a record is cut to 32 bits on a page, so an insert and an
-- update are of records below 2 ^ 31 bytes. A batch of rows has fewer than 2 ^ 32 of them (the code's
-- callers take 1024), so the cast of their number is not written out. The
-- reader of frames recurs on fuel, the length of the file, and every frame takes four bytes or
-- more, so the fuel outlasts the file. The tokenizer has a round of fuel per character and one more;
-- likeMatch has a round per percent sign, per place it is tried at, and per byte of the text, which
-- is enough on a text without percent signs; a number is printed on the fuel of its value, which is
-- at least its number of digits.
--
-- Not modelled: the parser, the statements of the syntax tree, the semantic analyzer and the
-- executor, which compose the parts above; the buffer pool, the trees, the optimizer, the hash GROUP
-- BY and the threads of the parallel aggregate; fsync, file handles and the console. A file write is
-- all of its bytes or, in a crash, a first part of them.

pub mod Base
pub mod RecordId
pub mod Vm
pub mod Backend
pub mod Index
pub mod Txn
pub mod Frontend
pub mod Tests
