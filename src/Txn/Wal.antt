-- ===== src/Txn/Wal.antt =====
-- src/txn/wal.cpp: the write-ahead log, a file of length-prefixed records. Numbers lie in the
-- file as a little-endian machine's `memcpy` puts them.
pub mod RoundTrip
pub mod Torn
pub mod Reopen
use mathlib.Core.Option
use prqlite.Base.{
  ℕ, zero, suc, ◌+◌, ◌%◌, ◌^◌, ◌<◌, ℤ, int_beq, negsuc, pos, InRange, to_unsigned, of_unsigned,
  Bool, true, false, List, [], ◌∷◌, ◌++◌, Option, none, some, ◌>>=◌, if◌then◌else◌, leb, ltb, ◌==◌,
  Bytes, le_bytes, of_le, split, length, take, drop,
}
use prqlite.RecordId.{RecordId}

-- `unnamed` stands for the values of the underlying byte that have no enumerator.
pub data LogType : Type 0 where
  begin insert delete update commit abort : LogType
  unnamed : ℕ → LogType

pub record LogRecord : Type 0 where
  pub lsn : ℕ
  pub txn_id : ℤ
  pub type : LogType
  pub table_id : ℤ
  pub rid : RecordId
  pub before_image : Bytes
  pub after_image : Bytes

pub type_byte : LogType → ℕ
type_byte begin = 0
type_byte insert = 1
type_byte delete = 2
type_byte update = 3
type_byte commit = 4
type_byte abort = 5
type_byte (unnamed n) = n

pub of_type_byte : ℕ → LogType
of_type_byte zero = begin
of_type_byte (suc zero) = insert
of_type_byte (suc (suc zero)) = delete
of_type_byte (suc (suc (suc zero))) = update
of_type_byte (suc (suc (suc (suc zero)))) = commit
of_type_byte (suc (suc (suc (suc (suc zero))))) = abort
of_type_byte n = unnamed n

abbrev pub int_half : ℕ
int_half = 2 ^ 31

pub put_u32 : ℕ → Bytes
put_u32 v = le_bytes 4 v

pub put_u64 : ℕ → Bytes
put_u64 v = le_bytes 8 v

pub put_i32 : ℤ → Bytes
unfolding put_u32
put_i32 v = put_u32 (to_unsigned int_half v)

pub put_str : Bytes → Bytes
unfolding put_u32
put_str s = put_u32 (length s % 2 ^ 32) ++ s

-- The record without its frame.
pub encode_body : LogRecord → Bytes
unfolding put_u64 put_i32 put_str type_byte
encode_body r =
    put_u64 r.lsn
    ++ (put_i32 r.txn_id
        ++ (type_byte r.type
            ∷ (put_i32 r.table_id
                ++ (put_i32 r.rid.page_id
                    ++ (put_i32 r.rid.slot_id
                        ++ (put_str r.before_image ++ put_str r.after_image))))))

unfoldable pub encode : LogRecord → Bytes
unfolding put_u32 encode_body
encode r = let out = encode_body r in put_u32 (length out % 2 ^ 32) ++ out

-- The lambdas of `readAll` over the rest of the body. `none` where `memcpy` would read past the
-- body's end, which the source does not test.
pub get_u32 : Bytes → Option (ℕ × Bytes)
get_u32 body = do (b, rest) ← split 4 body; some (of_le b, rest)

pub get_u64 : Bytes → Option (ℕ × Bytes)
get_u64 body = do (b, rest) ← split 8 body; some (of_le b, rest)

pub get_i32 : Bytes → Option (ℤ × Bytes)
get_i32 body = do (b, rest) ← split 4 body; some (of_unsigned int_half (of_le b), rest)

pub get_type : Bytes → Option (LogType × Bytes)
unfolding of_type_byte
get_type [] = none
get_type (b ∷ rest) = some (of_type_byte b, rest)

-- `substr` gives what is there if fewer bytes are left.
pub get_str : Bytes → Option (Bytes × Bytes)
unfolding get_u32
get_str body = do (n, rest) ← get_u32 body; some (take n rest, drop n rest)

pub parse_body : Bytes → Option LogRecord
unfolding get_u64 get_i32 get_type get_str
parse_body body = do
  (lsn, b₁) ← get_u64 body
  (txn_id, b₂) ← get_i32 b₁
  (type, b₃) ← get_type b₂
  (table_id, b₄) ← get_i32 b₃
  (page_id, b₅) ← get_i32 b₄
  (slot_id, b₆) ← get_i32 b₅
  (before_image, b₇) ← get_str b₆
  (after_image, b₈) ← get_str b₇
  some (record {
    lsn = lsn;
    txn_id = txn_id;
    type = type;
    table_id = table_id;
    rid = record { page_id = page_id; slot_id = slot_id };
    before_image = before_image;
    after_image = after_image;
  })

-- The loop of `readAll`: it stops where the file has no whole frame left. Each round reads four
-- bytes at least, so the file's length bounds the rounds.
pub read_frames : ℕ → Bytes → Option (List LogRecord)
unfolding parse_body
read_frames zero file = some []
read_frames (suc fuel) file = elim (split 4 file) [
  | none ↦ some []
  | some (len, rest) ↦ elim (split (of_le len) rest) [
    | none ↦ some []
    | some (body, rest') ↦ elim (parse_body body) [
      | none ↦ none
      | some r ↦ Option.map (◌∷◌ r) (read_frames fuel rest')
    ]
  ]
]

unfoldable pub read_all : Bytes → Option (List LogRecord)
unfolding read_frames
read_all file = read_frames (suc (length file)) file

-- `file` is the log as the operating system has it, `synced` as it was at the last
-- `syncFileToDisk`.
pub record WriteAheadLog : Type 0 where
  pub file : Bytes
  pub synced : Bytes
  pub next_lsn : ℕ
  pub appends_since_reset : ℕ

unfoldable pub next_lsn_after : ℕ → List LogRecord → ℕ
next_lsn_after next [] = next
next_lsn_after next (r ∷ rs) =
    next_lsn_after (if leb next r.lsn then (r.lsn + 1) % 2 ^ 64 else next) rs

-- The constructor, on the bytes that the file holds.
unfoldable pub open_log : Bool → Bytes → Option WriteAheadLog
unfolding read_all next_lsn_after
open_log truncate bytes =
    let file = if truncate then [] else bytes in
    do
      existing ← read_all file
      some (record {
        file = file;
        synced = file;
        next_lsn = next_lsn_after 1 existing;
        appends_since_reset = 0;
      })

unfoldable pub append : WriteAheadLog → LogRecord → WriteAheadLog × ℕ
unfolding encode
append w r = (
  record w {
    file = w.file ++ encode (record r { lsn = w.next_lsn });
    next_lsn = (w.next_lsn + 1) % 2 ^ 64;
    appends_since_reset = (w.appends_since_reset + 1) % 2 ^ 64;
  },
  w.next_lsn,
)

unfoldable pub flush : WriteAheadLog → WriteAheadLog
flush w = record w { synced = w.file }

unfoldable pub reset : WriteAheadLog → WriteAheadLog
reset w = record { file = []; synced = []; next_lsn = 1; appends_since_reset = 0 }

pub pending_records : WriteAheadLog → ℕ
pending_records w = w.appends_since_reset

unfoldable pub is_commit : LogType → Bool
is_commit commit = true
is_commit _ = false

-- `unordered_set::insert`
pub insert_once : ℤ → List ℤ → List ℤ
insert_once t [] = t ∷ []
insert_once t (u ∷ us) = if int_beq u t then u ∷ us else u ∷ insert_once t us

-- The set's iteration order is not specified: the list stands for its elements.
unfoldable pub committed_txns : List LogRecord → List ℤ
unfolding is_commit insert_once
committed_txns [] = []
committed_txns (r ∷ rs) =
    let rest = committed_txns rs in if is_commit r.type then insert_once r.txn_id rest else rest
