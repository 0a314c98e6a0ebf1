-- ===== src/Backend/Page/Redo.antt =====
-- src/backend/page.cpp: `redoSet` and `redoClear`, which recovery applies to a page.
use prqlite.Base.{
  ℕ, zero, suc, ◌+◌, ◌-◌, ◌%◌, ◌^◌, Bool, true, false, ◌&&◌, ◌||◌, not, Option, none, some,
  if◌then◌else◌, leb, ltb, ◌==◌, Bytes, length, bytes_beq,
}
use prqlite.Backend.Page.{
  Page, header_size, init, page_lsn, set_page_lsn, set_slot, slot_offset, slot_count, free_end,
  lacks_space, lacks_usable, compact, place, get, write_u16, copied,
}

-- `if (readU16(2) < HEADER_SIZE) init();`
unfoldable pub ensure_init : Page → Page
ensure_init p = if ltb (free_end p) header_size then init else p

-- `lsn != 0 && pageLSN() >= lsn`
unfoldable pub already_applied : Page → ℕ → Bool
already_applied p lsn = not (lsn == 0) && leb lsn (page_lsn p)

unfoldable pub stamp_lsn : Page → ℕ → Page
stamp_lsn p lsn = if lsn == 0 then p else set_page_lsn p lsn

-- `for (int s = count; s <= slot; ++s) setSlot(s, 0, 0);` over `n` slots.
unfoldable pub clear_slots : Page → ℕ → ℕ → Page
clear_slots p s zero = p
clear_slots p s (suc n) = clear_slots (set_slot p s 0 0) (s + 1) n

-- The slot array is made long enough for the slot.
unfoldable pub grow : Page → ℕ → Page
unfolding clear_slots
grow p slot =
    let count = slot_count p in
    if leb count slot
    then write_u16 (clear_slots p count (slot + 1 - count)) 0 ((slot + 1) % 2 ^ 16)
    else p

unfoldable pub holds_record : Option Bytes → Bytes → Bool
holds_record none bytes = false
holds_record (some current) bytes = bytes_beq current bytes

-- The part of `redoSet` behind the test of the record that is there, with the bytes that it
-- copies. A refusal may leave a page that has grown.
unfoldable pub redo_data : Page → ℕ → Bytes → ℕ → Page × Bool
unfolding stamp_lsn grow
redo_data p slot bytes lsn =
    let need = length bytes in
    if need == 0 || ltb 0xFFFF need
    then (p, false)
    else let p₁ = grow p slot in
      let roomy = not (lacks_space p₁ need) in
      if not roomy && lacks_usable p₁ need
      then (p₁, false)
      else let p₂ = if roomy then p₁ else compact p₁ in
        let offset = (free_end p₂ + 2 ^ 16 - need) % 2 ^ 16 in
        (stamp_lsn (write_u16 (place p₂ slot bytes) 2 offset) lsn, true)

-- The page, and what the source returns; a copy that is undefined counts as a refusal.
unfoldable pub redo_set : Page → ℕ → Bytes → ℕ → Page × Bool
unfolding ensure_init already_applied stamp_lsn holds_record redo_data copied
redo_set page slot bytes lsn =
    let p = ensure_init page in
    let written : Page × Bool = elim (copied bytes) [
      | none ↦ (p, false)
      | some taken ↦ redo_data p slot taken lsn
    ] in
    if already_applied p lsn
    then (p, true)
    else if holds_record (get p slot) bytes
    then (stamp_lsn p lsn, true)
    else written

unfoldable pub redo_clear : Page → ℕ → ℕ → Page
unfolding ensure_init already_applied stamp_lsn
redo_clear page slot lsn =
    let p = ensure_init page in
    if already_applied p lsn
    then p
    else stamp_lsn (if ltb slot (slot_count p) then set_slot p slot (slot_offset p slot) 0 else p)
        lsn
