-- ===== src/Backend/Page/Insert.antt =====
-- src/backend/page.cpp: `insert`, with or without a compaction before it.
use prqlite.Base.{
  ℕ, ◌+◌, ◌<◌, ◌≤◌, some, Bytes, length, ◌^◌, ◌≡◌, ◌≢◌, ◌⊎◌, inl, inr, sym, subst₂, arith, ap, ◌∙◌,
}
use prqlite.Backend.Page.{
  Page, page_size, slot_count, free_end, free_start, live_bytes, lacks_space, lacks_usable, compact,
  place, insert, insert_data, insert-insert_data,
}
use prqlite.Backend.Page.Layout.{IsValid}
use prqlite.Backend.Page.Compact.{Compacted, compact_lem}
use prqlite.Backend.Page.Place.{Inserted, inserted, q, q₁, offset}

module _ (p : Page) (bytes : Bytes) where
  pub insert_roomy :
      length bytes ≢ 0
      → length bytes ≤ 0xFFFF
      → (v : IsValid p) (need : length bytes ≢ 0)
        (fits : free_start p + 4 + length bytes ≤ free_end p)
      → insert_data p bytes ≡ some (q p bytes v need fits, slot_count p)
  unfolding insert_data lacks_space place q q₁ offset
  insert_roomy n b v need fits = ground arith

  pub insert_compacted :
      length bytes ≢ 0
      → length bytes ≤ 0xFFFF
      → free_end p < free_start p + (length bytes + 4)
      → free_start p + live_bytes p (slot_count p) + (length bytes + 4) ≤ page_size
      → (v : IsValid (compact p)) (need : length bytes ≢ 0)
        (fits : free_start (compact p) + 4 + length bytes ≤ free_end (compact p))
      → insert_data p bytes ≡ some (q (compact p) bytes v need fits, slot_count (compact p))
  unfolding insert_data lacks_space lacks_usable place q q₁ offset
  insert_compacted n b full usable v need fits = ground arith

  -- What a success says of the sizes.
  insert_sizes :
      {r : Page × ℕ}
      → insert_data p bytes ≡ some r
      → (length bytes ≢ 0)
        × (length bytes ≤ 0xFFFF)
        × ((free_start p + (length bytes + 4) ≤ free_end p)
            ⊎ ((free_end p < free_start p + (length bytes + 4))
                × (free_start p + live_bytes p (slot_count p) + (length bytes + 4) ≤ page_size)))
  unfolding insert_data lacks_space lacks_usable
  insert_sizes h = ground arith

  pub through_compact :
      {q' : Page} {slot : ℕ}
      → Compacted p (compact p)
      → Inserted (compact p) q' slot bytes
      → Inserted p q' slot bytes
  through_compact c i = record {
    valid = i.valid;
    stored = i.stored;
    others = λ s ne. i.others s ne ∙ c.same s;
    count = i.count ∙ ap (λ n. n + 1) c.count;
    lsn = i.lsn ∙ c.lsn;
  }

  insert_data-Inserted :
      {q' : Page} {slot : ℕ}
      → IsValid p
      → insert_data p bytes ≡ some (q', slot)
      → Inserted p q' slot bytes × (slot ≡ slot_count p)
  insert_data-Inserted {q'} {slot} v h =
      let (need, short, space) = insert_sizes h in
      elim space [
        | inl roomy ↦
            let fits : free_start p + 4 + length bytes ≤ free_end p = omega arith in
            let e = sym (insert_roomy need short v need fits) ∙ h in
            let at : slot_count p ≡ slot = cc e in
            let page : q p bytes v need fits ≡ q' = cc e in
            (subst₂ (λ x s. Inserted p x s bytes) page at (inserted p bytes v need fits), sym at)
        | inr (full, usable) ↦
            let c = compact_lem p (omega arith) in
            let fits : free_start (compact p) + 4 + length bytes ≤ free_end (compact p) =
              omega (arith, c.free, c.count) in
            let e = sym (insert_compacted need short full usable c.valid need fits) ∙ h in
            let at : slot_count (compact p) ≡ slot = cc e in
            let page : q (compact p) bytes c.valid need fits ≡ q' = cc e in
            (
              through_compact c (
                  subst₂ (λ x s. Inserted (compact p) x s bytes) page at
                    (inserted (compact p) bytes c.valid need fits)),
              sym at ∙ c.count,
            )
      ]

  -- On a valid page, an insert of a record of less than 2 ^ 31 bytes that succeeds gives the next
  -- slot of the array, stores the record there, keeps what every other slot holds, the LSN and the
  -- layout's validity, whether or not the page had to be compacted first.
  pub insert-Inserted :
      {q' : Page} {slot : ℕ}
      → IsValid p
      → length bytes < 2 ^ 31
      → insert p bytes ≡ some (q', slot)
      → Inserted p q' slot bytes × (slot ≡ slot_count p)
  insert-Inserted v small h = insert_data-Inserted v (sym (insert-insert_data p bytes small) ∙ h)
