-- ===== src/Txn/Wal/RoundTrip.antt =====
-- src/txn/wal.cpp: what `encode` writes, `readAll` reads back.
use mathlib.Core.Option
use prqlite.Base.{
  ℕ, suc, ◌+◌, ◌%◌, ◌^◌, ◌<◌, ◌≤◌, ◌-◌, ℤ, InRange, to_unsigned, of_unsigned-to_unsigned,
  to_unsigned-lt, List, [], ◌∷◌, ◌++◌, some, Bytes, le_bytes, length, split-append, length-le_bytes,
  of_le-le_bytes, take-append, drop-append, length-append, ◌≡◌, refl, arith, append_assoc,
  append-nil, sym, ◌∙◌, ap,
}
use native.Mathlib.Nat.{mod-eq_of_lt}
use prqlite.Txn.Wal.{
  LogType, begin, unnamed, LogRecord, type_byte, of_type_byte, int_half, put_u32, put_u64, put_i32,
  put_str, encode_body, encode, get_u32, get_u64, get_i32, get_str, parse_body, read_frames,
}

-- A type byte without an enumerator is above those that have one.
abbrev pub IsByteType : LogType → Type 0
IsByteType (unnamed n) = 6 ≤ n
IsByteType _ = Unit

-- The C++ fields hold no other values, and the body's length fits its prefix.
pub record IsEncodable (r : LogRecord) : Type 0 where
  pub lsn : r.lsn < 2 ^ 64
  pub txn_id : InRange int_half r.txn_id
  pub type : IsByteType r.type
  pub table_id : InRange int_half r.table_id
  pub page_id : InRange int_half r.rid.page_id
  pub slot_id : InRange int_half r.rid.slot_id
  pub size : length r.before_image + length r.after_image + 33 < 2 ^ 32

get_u32-put_u32 : (v : ℕ) (rest : Bytes) → v < 2 ^ 32 → get_u32 (put_u32 v ++ rest) ≡ some (v, rest)
unfolding get_u32 put_u32
get_u32-put_u32 v rest h =
    rw (split-append 4 (le_bytes 4 v) rest (length-le_bytes 4 v), of_le-le_bytes 4 v h)

get_u64-put_u64 : (v : ℕ) (rest : Bytes) → v < 2 ^ 64 → get_u64 (put_u64 v ++ rest) ≡ some (v, rest)
unfolding get_u64 put_u64
get_u64-put_u64 v rest h =
    rw (split-append 8 (le_bytes 8 v) rest (length-le_bytes 8 v), of_le-le_bytes 8 v h)

get_i32-put_i32 :
    (v : ℤ) (rest : Bytes) → InRange int_half v → get_i32 (put_i32 v ++ rest) ≡ some (v, rest)
unfolding get_i32 put_i32 put_u32
get_i32-put_i32 v rest h =
    let u = to_unsigned int_half v in
    rw (
      split-append 4 (le_bytes 4 u) rest (length-le_bytes 4 u),
      of_le-le_bytes 4 u (to_unsigned-lt int_half v (omega arith)),
      of_unsigned-to_unsigned int_half v h,
    )

get_str-put_str :
    (s rest : Bytes) → length s < 2 ^ 32 → get_str (put_str s ++ rest) ≡ some (s, rest)
unfolding get_str put_str
get_str-put_str s rest h = rw (
  mod-eq_of_lt h,
  append_assoc (put_u32 (length s)) s rest,
  get_u32-put_u32 (length s) (s ++ rest) h,
  take-append (length s) s rest refl,
  drop-append (length s) s rest refl,
)

of_type_byte-type_byte : (t : LogType) → IsByteType t → of_type_byte (type_byte t) ≡ t
unfolding of_type_byte type_byte
of_type_byte-type_byte (unnamed n) h =
    let e : n ≡ suc (suc (suc (suc (suc (suc (n - 6)))))) = omega arith in rw e
of_type_byte-type_byte begin h = refl
of_type_byte-type_byte _ h = refl

get_str-put_str_last : (s : Bytes) → length s < 2 ^ 32 → get_str (put_str s) ≡ some (s, [])
get_str-put_str_last s h = ap get_str (sym (append-nil (put_str s))) ∙ get_str-put_str s [] h

parse_body-encode_body : (r : LogRecord) → IsEncodable r → parse_body (encode_body r) ≡ some r
unfolding parse_body encode_body
parse_body-encode_body r h =
    let small : length r.before_image < 2 ^ 32 = omega (arith, h.size) in
    let small' : length r.after_image < 2 ^ 32 = omega (arith, h.size) in
    simp (
      get_u64-put_u64 r.lsn _ h.lsn,
      get_i32-put_i32 r.txn_id _ h.txn_id,
      of_type_byte-type_byte r.type h.type,
      get_i32-put_i32 r.table_id _ h.table_id,
      get_i32-put_i32 r.rid.page_id _ h.page_id,
      get_i32-put_i32 r.rid.slot_id _ h.slot_id,
      get_str-put_str r.before_image _ small,
      get_str-put_str_last r.after_image small',
    )

length-put_str : (s : Bytes) → length (put_str s) ≡ length s + 4
unfolding put_str put_u32
length-put_str s = omega (
  arith,
  length-append {0} (put_u32 (length s % 2 ^ 32)) s,
  length-le_bytes 4 (length s % 2 ^ 32),
)

pub length-encode_body :
    (r : LogRecord) → length (encode_body r) ≡ length r.before_image + length r.after_image + 33
unfolding encode_body put_u64 put_i32 put_u32
length-encode_body r = simp (length-append, length-le_bytes) (omega arith)

-- One whole record in front of the file is one step of the loop.
pub read_frames-encode :
    (fuel : ℕ) (r : LogRecord) (rest : Bytes)
    → IsEncodable r
    → read_frames (suc fuel) (encode r ++ rest) ≡ Option.map (◌∷◌ r) (read_frames fuel rest)
unfolding read_frames encode put_u32
read_frames-encode fuel r rest h =
    let body = encode_body r in
    let small : length body < 2 ^ 32 = omega (arith, length-encode_body r, h.size) in
    rw (mod-eq_of_lt small, append_assoc (le_bytes 4 (length body)) body rest)
      (rw
        (
          split-append 4 (le_bytes 4 (length body)) (body ++ rest)
              (length-le_bytes 4 (length body)),
          read_frames,
        )
        (rw
          (
            of_le-le_bytes 4 (length body) small,
            split-append (length body) body rest refl,
            read_frames,
          )
          (rw (parse_body-encode_body r h, read_frames))))

unfoldable pub encode_all : List LogRecord → Bytes
encode_all [] = []
encode_all (r ∷ rs) = encode r ++ encode_all rs

abbrev pub AllEncodable : List LogRecord → Type 0
AllEncodable [] = Unit
AllEncodable (r ∷ rs) = IsEncodable r × AllEncodable rs
