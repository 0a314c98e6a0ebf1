-- ===== src/Backend/Page.antt =====
-- include/backend/page.hpp and src/backend/page.cpp: a slotted page of 4096 bytes. The header
-- holds the slot count, the end of the free space and the page's LSN; the slot array grows up
-- behind it, and the records grow down from the page's end.
pub mod Memory
pub mod Layout
pub mod Items
pub mod Compact
pub mod Place
pub mod Insert
pub mod Fits
pub mod Shrink
pub mod Redo
pub mod Twice
use prqlite.Base.{
  ℕ, zero, suc, ◌+◌, ◌-◌, ◌*◌, ◌%◌, ◌^◌, Bool, true, false, ◌&&◌, ◌||◌, not, List, [], ◌∷◌, ◌++◌,
  Option, none, some, if◌then◌else◌, leb, ltb, ◌==◌, Bytes, le_bytes, of_le, length, take,
  take-append, append-nil, ◌<◌, ◌≡◌, refl, sym, ap, ◌∙◌, arith,
}
use native.Mathlib.Nat.{mod-eq_of_lt}

abbrev pub page_size : ℕ
page_size = 4096

abbrev pub header_size : ℕ
header_size = 12

abbrev pub slot_size : ℕ
slot_size = 4

abbrev pub lsn_offset : ℕ
lsn_offset = 4

-- `bytes_`, by offset.
abbrev pub Page : Type 0
Page = ℕ → ℕ

-- `memcpy(bytes_ + offset, …)`
unfoldable pub write : Page → ℕ → Bytes → Page
write p offset [] = p
write p offset (b ∷ bs) = λ i. if i == offset then b else write p (offset + 1) bs i

-- The `n` bytes at an offset.
unfoldable pub read : Page → ℕ → ℕ → Bytes
read p offset zero = []
read p offset (suc n) = p offset ∷ read p (offset + 1) n

unfoldable pub read_u16 : Page → ℕ → ℕ
unfolding read
read_u16 p offset = of_le (read p offset 2)

unfoldable pub write_u16 : Page → ℕ → ℕ → Page
unfolding write
write_u16 p offset v = write p offset (le_bytes 2 v)

unfoldable pub read_u64 : Page → ℕ → ℕ
unfolding read
read_u64 p offset = of_le (read p offset 8)

unfoldable pub write_u64 : Page → ℕ → ℕ → Page
unfolding write
write_u64 p offset v = write p offset (le_bytes 8 v)

unfoldable pub page_lsn : Page → ℕ
unfolding read_u64
page_lsn p = read_u64 p lsn_offset

unfoldable pub set_page_lsn : Page → ℕ → Page
unfolding write_u64
set_page_lsn p lsn = write_u64 p lsn_offset lsn

-- `init` on a page of any contents.
unfoldable pub init : Page
unfolding write_u16
init = write_u16 (write_u16 (λ _. 0) 0 0) 2 page_size

abbrev pub slot_base : ℕ → ℕ
slot_base slot = header_size + slot * slot_size

-- The two parts of `slotAt`.
unfoldable pub slot_offset : Page → ℕ → ℕ
unfolding read_u16
slot_offset p slot = read_u16 p (slot_base slot)

unfoldable pub slot_length : Page → ℕ → ℕ
unfolding read_u16
slot_length p slot = read_u16 p (slot_base slot + 2)

unfoldable pub set_slot : Page → ℕ → ℕ → ℕ → Page
unfolding write_u16
set_slot p slot offset len =
    write_u16 (write_u16 p (slot_base slot) offset) (slot_base slot + 2) len

unfoldable pub slot_count : Page → ℕ
unfolding read_u16
slot_count p = read_u16 p 0

-- `readU16(2)`
unfoldable pub free_end : Page → ℕ
unfolding read_u16
free_end p = read_u16 p 2

abbrev pub free_start : Page → ℕ
free_start p = slot_base (slot_count p)

-- `freeSpace() < need`; the difference in the source may be negative.
unfoldable pub lacks_space : Page → ℕ → Bool
lacks_space p need = ltb (free_end p) (free_start p + need)

-- A slot below 0 is a caller's -1, which is not live either.
unfoldable pub is_live : Page → ℕ → Bool
is_live p slot = ltb slot (slot_count p) && not (slot_length p slot == 0)

-- The loop of `usableSpace` over the slots below a count.
unfoldable pub live_bytes : Page → ℕ → ℕ
live_bytes p zero = 0
live_bytes p (suc s) = live_bytes p s + slot_length p s

-- `usableSpace() < need`
unfoldable pub lacks_usable : Page → ℕ → Bool
unfolding live_bytes
lacks_usable p need = ltb page_size (free_start p + live_bytes p (slot_count p) + need)

-- `freeBytes()`, where it is not negative.
unfoldable pub free_bytes : Page → ℕ
unfolding live_bytes
free_bytes p = page_size - free_start p - live_bytes p (slot_count p)

-- The first loop of `compact`: the live slots from `s` on, with their records.
unfoldable pub live_slots : Page → ℕ → ℕ → List (ℕ × Bytes)
live_slots p s zero = []
live_slots p s (suc n) =
    let rest = live_slots p (s + 1) n in
    if slot_length p s == 0 then rest else (s, read p (slot_offset p s) (slot_length p s)) ∷ rest

-- The second loop: each record goes below the one before it.
unfoldable pub place_all : Page → ℕ → List (ℕ × Bytes) → Page × ℕ
place_all p free [] = (p, free)
place_all p free ((slot, record_bytes) ∷ rest) =
    let free' = (free + 2 ^ 16 - length record_bytes) % 2 ^ 16 in
    place_all (set_slot (write p free' record_bytes) slot free' (length record_bytes)) free' rest

unfoldable pub compact : Page → Page
unfolding live_slots place_all
compact p =
    let (p', free) = place_all p page_size (live_slots p 0 (slot_count p)) in write_u16 p' 2 free

-- The end of `insert` and `redoSet`: the record goes below the free space, into the slot.
unfoldable pub place : Page → ℕ → Bytes → Page
place p slot bytes =
    let offset = (free_end p + 2 ^ 16 - length bytes) % 2 ^ 16 in
    set_slot (write p offset bytes) slot offset (length bytes)

-- `static_cast<int>(record.size())`, and the bytes of the record that `memcpy` copies with it;
-- `none` where that int is negative, for which `memcpy` is undefined.
unfoldable pub copied : Bytes → Option Bytes
copied bytes =
    let need = length bytes % 2 ^ 32 in if ltb need (2 ^ 31) then some (take need bytes) else none

-- `insert` with the bytes that it copies: `none` where the source returns false, else the page
-- and the new slot.
unfoldable pub insert_data : Page → Bytes → Option (Page × ℕ)
unfolding place
insert_data p bytes =
    let need = length bytes in
    if need == 0 || ltb 0xFFFF need
    then none
    else let roomy = not (lacks_space p (need + slot_size)) in
      if not roomy && lacks_usable p (need + slot_size)
      then none
      else let p₁ = if roomy then p else compact p in
        let count = slot_count p₁ in
        let offset = (free_end p₁ + 2 ^ 16 - need) % 2 ^ 16 in
        some (write_u16 (write_u16 (place p₁ count bytes) 0 ((count + 1) % 2 ^ 16)) 2 offset, count)

-- `insert`. A copy that is undefined in the source counts as a refusal, here and in `update`.
unfoldable pub insert : Page → Bytes → Option (Page × ℕ)
unfolding copied insert_data
insert p bytes = elim (copied bytes) [ none ↦ none | some taken ↦ insert_data p taken ]

unfoldable pub get : Page → ℕ → Option Bytes
unfolding is_live
get p slot =
    if is_live p slot then some (read p (slot_offset p slot) (slot_length p slot)) else none

unfoldable pub erase : Page → ℕ → Option Page
unfolding is_live
erase p slot = if is_live p slot then some (set_slot p slot (slot_offset p slot) 0) else none

-- `update` with the bytes that it copies; the source tests the slot before it casts the size.
unfoldable pub update_data : Page → ℕ → Bytes → Option Page
unfolding is_live
update_data p slot bytes =
    let need = length bytes in
    if not (is_live p slot)
    then none
    else if need == 0 || ltb (slot_length p slot) need
    then none
    else some (set_slot (write p (slot_offset p slot) bytes) slot (slot_offset p slot) need)

unfoldable pub update : Page → ℕ → Bytes → Option Page
unfolding copied update_data
update p slot bytes = elim (copied bytes) [ none ↦ none | some taken ↦ update_data p slot taken ]

-- A record of less than 2 ^ 31 bytes is copied whole.
pub copied_lem : (bytes : Bytes) → length bytes < 2 ^ 31 → copied bytes ≡ some bytes
unfolding copied
copied_lem bytes h =
    let n = length bytes in
    let e : n % 2 ^ 32 ≡ n = mod-eq_of_lt (omega (arith, h)) in
    let whole : take n bytes ≡ bytes =
      ap (take n) (sym (append-nil bytes)) ∙ take-append n bytes [] refl in
    rw e (ground (arith, h, whole))

pub insert-insert_data :
    (p : Page) (bytes : Bytes) → length bytes < 2 ^ 31 → insert p bytes ≡ insert_data p bytes
unfolding insert
insert-insert_data p bytes h =
    ap
      (λ (o : Option Bytes). elim o as (λ _. Option (Page × ℕ)) [
        | none ↦ none
        | some taken ↦ insert_data p taken
      ])
      (copied_lem bytes h)

pub update-update_data :
    (p : Page) (slot : ℕ) (bytes : Bytes)
    → length bytes < 2 ^ 31
    → update p slot bytes ≡ update_data p slot bytes
unfolding update
update-update_data p slot bytes h =
    ap
      (λ (o : Option Bytes). elim o as (λ _. Option Page) [
        | none ↦ none
        | some taken ↦ update_data p slot taken
      ])
      (copied_lem bytes h)
