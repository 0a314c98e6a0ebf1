-- ===== src/Backend/Page/Layout.antt =====
-- src/backend/page.cpp: the layout of a page, and what one record written into a slot changes.
use prqlite.Base.{ℕ, ◌+◌, ◌^◌, ◌<◌, ◌≤◌, Bytes, length, of_le, ◌≡◌, ◌≢◌, inl, inr, arith, ap, ◌∙◌}
use prqlite.Backend.Page.{
  Page, page_size, slot_base, write, read, read_u16, write_u16, read_u64, page_lsn, slot_offset,
  slot_length, set_slot, slot_count, free_end, free_start,
}
use prqlite.Backend.Page.Memory.{
  Apart, read-write-Apart, read-write, read_u16-write-Apart, read_u16-write_u16,
  read_u16-write_u16-Apart, read-write_u16-Apart,
}

-- The slot array ends before the free space does, and each live record lies behind the free
-- space and inside the page, apart from the other records.
pub record IsValid (p : Page) : Type 0 where
  pub room : free_start p ≤ free_end p
  pub bound : free_end p ≤ page_size
  pub inside :
      (s : ℕ)
      → s < slot_count p
      → slot_length p s ≢ 0
      → (free_end p ≤ slot_offset p s) × (slot_offset p s + slot_length p s ≤ page_size)
  pub apart :
      (s t : ℕ)
      → s < slot_count p
      → t < slot_count p
      → s ≢ t
      → slot_length p s ≢ 0
      → slot_length p t ≢ 0
      → Apart (slot_offset p s) (slot_length p s) (slot_offset p t) (slot_length p t)

-- A record at an offset, and the slot set to it.
abbrev pub put : Page → ℕ → ℕ → Bytes → Page
put p slot offset bytes = set_slot (write p offset bytes) slot offset (length bytes)

module _ (p : Page) (slot offset len : ℕ) where
  pub slot_offset-set_slot :
      offset < 2 ^ 16 → slot_offset (set_slot p slot offset len) slot ≡ offset
  unfolding slot_offset set_slot
  slot_offset-set_slot h =
      read_u16-write_u16-Apart (write_u16 p (slot_base slot) offset) (slot_base slot + 2) len
        (slot_base slot) (inr (omega arith))
      ∙ read_u16-write_u16 p (slot_base slot) offset h

  pub slot_length-set_slot : len < 2 ^ 16 → slot_length (set_slot p slot offset len) slot ≡ len
  unfolding slot_length set_slot
  slot_length-set_slot h =
      read_u16-write_u16 (write_u16 p (slot_base slot) offset) (slot_base slot + 2) len h

  pub read_u16-set_slot :
      (o : ℕ)
      → Apart (slot_base slot) 4 o 2
      → read_u16 (set_slot p slot offset len) o ≡ read_u16 p o
  unfolding set_slot
  read_u16-set_slot o h =
      read_u16-write_u16-Apart (write_u16 p (slot_base slot) offset) (slot_base slot + 2) len o
        (ground (arith, h))
      ∙ read_u16-write_u16-Apart p (slot_base slot) offset o (ground (arith, h))

  pub read-set_slot :
      (o n : ℕ) → Apart (slot_base slot) 4 o n → read (set_slot p slot offset len) o n ≡ read p o n
  unfolding set_slot
  read-set_slot o n h =
      read-write_u16-Apart (write_u16 p (slot_base slot) offset) (slot_base slot + 2) len o n
        (ground (arith, h))
      ∙ read-write_u16-Apart p (slot_base slot) offset o n (ground (arith, h))

-- Everything that the readers see of a slot, but for the record's bytes.
abbrev pub SameSlot : Page → Page → ℕ → Type 0
SameSlot p q s = (slot_offset q s ≡ slot_offset p s) × (slot_length q s ≡ slot_length p s)

abbrev pub SameHeader : Page → Page → Type 0
SameHeader p q =
    (slot_count q ≡ slot_count p) × (free_end q ≡ free_end p) × (page_lsn q ≡ page_lsn p)

module _ (p : Page) (slot offset : ℕ) (bytes : Bytes) (behind : slot_base slot + 4 ≤ offset)
    (fits : offset + length bytes ≤ page_size) where
  pub put_header : SameHeader p (put p slot offset bytes)
  unfolding slot_count free_end page_lsn read_u64
  put_header = (
    read_u16-set_slot (write p offset bytes) slot offset (length bytes) 0 (inr (omega arith))
        ∙ read_u16-write-Apart p offset bytes 0 (inr (omega arith)),
    read_u16-set_slot (write p offset bytes) slot offset (length bytes) 2 (inr (omega arith))
        ∙ read_u16-write-Apart p offset bytes 2 (inr (omega arith)),
    ap of_le (
        read-set_slot (write p offset bytes) slot offset (length bytes) 4 8 (inr (omega arith))
        ∙ read-write-Apart p offset bytes 4 8 (inr (omega arith))),
  )

  pub put_self :
      (slot_offset (put p slot offset bytes) slot ≡ offset)
      × (slot_length (put p slot offset bytes) slot ≡ length bytes)
      × (read (put p slot offset bytes) offset (length bytes) ≡ bytes)
  put_self = (
    slot_offset-set_slot (write p offset bytes) slot offset (length bytes) (omega arith),
    slot_length-set_slot (write p offset bytes) slot offset (length bytes) (omega arith),
    read-set_slot (write p offset bytes) slot offset (length bytes) offset (length bytes)
          (inl (omega arith))
        ∙ read-write p offset bytes,
  )

  pub put_other :
      (s : ℕ) → s ≢ slot → slot_base s + 4 ≤ offset → SameSlot p (put p slot offset bytes) s
  unfolding slot_offset slot_length
  put_other s ne h = (
    read_u16-set_slot (write p offset bytes) slot offset (length bytes) (slot_base s) (ground arith)
        ∙ read_u16-write-Apart p offset bytes (slot_base s) (inr (omega arith)),
    read_u16-set_slot (write p offset bytes) slot offset (length bytes) (slot_base s + 2)
          (ground arith)
        ∙ read_u16-write-Apart p offset bytes (slot_base s + 2) (inr (omega arith)),
  )

  pub put_record :
      (o n : ℕ)
      → slot_base slot + 4 ≤ o
      → Apart offset (length bytes) o n
      → read (put p slot offset bytes) o n ≡ read p o n
  put_record o n h a =
      read-set_slot (write p offset bytes) slot offset (length bytes) o n (inl h)
      ∙ read-write-Apart p offset bytes o n a
