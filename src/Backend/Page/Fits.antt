-- ===== src/Backend/Page/Fits.antt =====
-- src/backend/page.cpp: when an insert has room, by what the slots hold.
use prqlite.Base.{
  ℕ, zero, suc, ◌+◌, ◌*◌, ◌<◌, ◌≤◌, Option, none, some, ltb, Bytes, length, ◌≡◌, ◌≢◌, inl, inr,
  refl, ap, ap₂, subst, ◌∙◌, arith, Bool-cases,
}
use prqlite.Backend.Page.{
  Page, page_size, header_size, slot_size, slot_count, slot_length, slot_offset, free_end,
  free_start, live_bytes, compact, insert, get, is_live, insert-insert_data,
}
use prqlite.Backend.Page.Layout.{IsValid}
use prqlite.Backend.Page.Items.{length-read}
use prqlite.Backend.Page.Compact.{compact_lem}
use prqlite.Backend.Page.Place.{Inserted, inserted, q}
use prqlite.Backend.Page.Insert.{insert_roomy, insert_compacted, through_compact}

abbrev size_of : Option Bytes → ℕ
size_of none = 0
size_of (some bytes) = length bytes

-- The bytes of the records that the slots below a number hold.
abbrev pub held : Page → ℕ → ℕ
held p zero = 0
held p (suc s) = held p s + size_of (get p s)

slot_length-get : (p : Page) (s : ℕ) → s < slot_count p → slot_length p s ≡ size_of (get p s)
unfolding get is_live
slot_length-get p s h = ground (arith, h, length-read p (slot_offset p s) (slot_length p s))

live_bytes-held : (p : Page) (n : ℕ) → n ≤ slot_count p → live_bytes p n ≡ held p n
unfolding live_bytes
live_bytes-held p zero h = refl
live_bytes-held p (suc s) h =
    ap₂ ◌+◌ (live_bytes-held p s (omega (arith, h))) (slot_length-get p s (omega (arith, h)))

module _ (p : Page) (bytes : Bytes) where
  -- On a valid page, a record that is not empty is inserted as soon as it, the records that the
  -- page's slots hold, the header of 12 bytes and 4 bytes for each slot, the new one included, are
  -- 4096 bytes or less, wherever the free space lies: it then stands in the next slot, and the other
  -- slots, the LSN and the layout's validity are kept.
  pub insert_fits :
      IsValid p
      → length bytes ≢ 0
      → header_size + slot_size * (slot_count p + 1) + held p (slot_count p) + length bytes
        ≤ page_size
      → (q' : Page) × (insert p bytes ≡ some (q', slot_count p))
        × Inserted p q' (slot_count p) bytes
  insert_fits v need space =
      let live = live_bytes-held p (slot_count p) (omega arith) in
      let short : length bytes ≤ 0xFFFF = omega (arith, space) in
      let whole = insert-insert_data p bytes (omega (arith, space)) in
      elim (Bool-cases (ltb (free_end p) (free_start p + (length bytes + slot_size)))) [
        | inr roomy ↦
            let fits : free_start p + 4 + length bytes ≤ free_end p = ground (arith, roomy) in
            (
              q p bytes v need fits,
              whole ∙ insert_roomy p bytes need short v need fits,
              inserted p bytes v need fits,
            )
        | inl full ↦
            let c = compact_lem p (omega (arith, live, space)) in
            let fits : free_start (compact p) + 4 + length bytes ≤ free_end (compact p) =
              omega (arith, c.free, c.count, live, space) in
            (
              q (compact p) bytes c.valid need fits,
              whole
                  ∙ insert_compacted p bytes need short (ground (arith, full))
                      (omega (arith, live, space)) c.valid need fits
                  ∙ ap (λ s. some (q (compact p) bytes c.valid need fits, s)) c.count,
              subst (λ s. Inserted p (q (compact p) bytes c.valid need fits) s bytes) c.count
                  (through_compact p bytes c (inserted (compact p) bytes c.valid need fits)),
            )
      ]
