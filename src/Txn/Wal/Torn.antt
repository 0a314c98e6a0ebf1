-- ===== src/Txn/Wal/Torn.antt =====
-- src/txn/wal.cpp: reading a file of whole records, and one whose last record is torn.
use prqlite.Base.{
  ℕ, zero, suc, ◌%◌, ◌^◌, ◌<◌, ◌≤◌, List, [], ◌∷◌, ◌++◌, some, Bytes, le_bytes, length, split_short,
  split-append, length-append, length-le_bytes, of_le-le_bytes, ◌≡◌, refl, arith, append_assoc,
  append-nil, append_cut, sym, ◌∙◌, ap,
}
use native.Mathlib.Nat.{mod-eq_of_lt}
use native.Mathlib.Decide.{dec_lt}
use prqlite.Txn.Wal.{LogRecord, encode, encode_body, put_u32, read_frames, read_all}
use prqlite.Txn.Wal.RoundTrip.{
  IsEncodable, AllEncodable, encode_all, read_frames-encode, length-encode_body,
}

-- A file that holds no whole frame is the end of the loop.
abbrev IsTail : Bytes → Type 0
IsTail tail = (fuel : ℕ) → read_frames fuel tail ≡ some []

length-encode : (r : LogRecord) → 4 ≤ length (encode r)
unfolding encode put_u32
length-encode r = omega (
  arith,
  length-append {0} (le_bytes 4 (length (encode_body r) % 2 ^ 32)) (encode_body r),
  length-le_bytes 4 (length (encode_body r) % 2 ^ 32),
)

read_frames-tail :
    (fuel : ℕ) (rs : List LogRecord) (tail : Bytes)
    → AllEncodable rs
    → length (encode_all rs) < fuel
    → IsTail tail
    → read_frames fuel (encode_all rs ++ tail) ≡ some rs
unfolding encode_all
read_frames-tail fuel [] tail h f t = t fuel
read_frames-tail zero (r ∷ rs) tail h f t = absurd (omega arith)
read_frames-tail (suc fuel) (r ∷ rs) tail h f t = rw (
  append_assoc (encode r) (encode_all rs) tail,
  read_frames-encode fuel r (encode_all rs ++ tail) h.0,
  read_frames-tail fuel rs tail h.1
      (omega (arith, length-encode r, length-append {0} (encode r) (encode_all rs))) t,
)

read_all-tail :
    (rs : List LogRecord) (tail : Bytes)
    → AllEncodable rs
    → IsTail tail
    → read_all (encode_all rs ++ tail) ≡ some rs
unfolding read_all
read_all-tail rs tail h t =
    read_frames-tail (suc (length (encode_all rs ++ tail))) rs tail h
      (omega (arith, length-append {0} (encode_all rs) tail)) t

nil-IsTail : IsTail []
unfolding read_frames
nil-IsTail zero = refl
nil-IsTail (suc fuel) = rw (split_short 4 [] (omega arith), read_frames)

-- The records written one after the other are what is read, all of them and in order.
pub read_all-encode_all :
    (rs : List LogRecord) → AllEncodable rs → read_all (encode_all rs) ≡ some rs
read_all-encode_all rs h =
    ap read_all (sym (append-nil (encode_all rs))) ∙ read_all-tail rs [] h nil-IsTail

-- A proper prefix of a record: too short for the length, or for what the length says.
torn-IsTail :
    (r : LogRecord) (written lost : Bytes)
    → IsEncodable r
    → written ++ lost ≡ encode r
    → 0 < length lost
    → IsTail written
unfolding read_frames encode put_u32
torn-IsTail r written lost h e l zero = refl
torn-IsTail r written lost h e l (suc fuel) =
    let body = encode_body r in
    let small : length body < 2 ^ 32 = omega (arith, length-encode_body r, h.size) in
    let frame = le_bytes 4 (length body) in
    let e' : written ++ lost ≡ frame ++ body = e ∙ rw (mod-eq_of_lt small) in
    elim (dec_lt (length written) 4) [
      | yes short ↦ rw (split_short 4 written short, read_frames)
      | no long ↦
          let (part, p, q) =
            append_cut frame body written lost e'
              (omega (arith, length-le_bytes 4 (length body))) in
          rw (p, split-append 4 frame part (length-le_bytes 4 (length body)), read_frames)
            (rw (
              of_le-le_bytes 4 (length body) small,
              split_short (length body) part
                  (omega (arith, ap length q, length-append {0} part lost)),
              read_frames,
            ))
    ]

-- After a crash in the middle of an append, when only a part of the last record is in the file,
-- reading gives exactly the records before it.
pub read_all_torn :
    (rs : List LogRecord) (r : LogRecord) (written lost : Bytes)
    → AllEncodable rs
    → IsEncodable r
    → written ++ lost ≡ encode r
    → 0 < length lost
    → read_all (encode_all rs ++ written) ≡ some rs
read_all_torn rs r written lost h hr e l =
    read_all-tail rs written h (torn-IsTail r written lost hr e l)
