-- ===== src/Backend/Page/Shrink.antt =====
-- src/backend/page.cpp: `erase` and `update`, which write into a live slot in place.
use prqlite.Base.{
  ℕ, ◌+◌, ◌<◌, ◌≤◌, ◌||◌, [], Option, none, some, if◌then◌else◌, ltb, ltb→lt, ◌==◌, Bytes, length,
  ==_iff, true, false, ◌^◌, subst, ◌↔◌, ◌≡◌, ◌≢◌, ◌⊎◌, inl, inr, sym, arith, ap, ◌∙◌, Bool-cases,
}
use prqlite.Backend.Page.{
  Page, page_size, slot_base, read, write, set_slot, slot_offset, slot_length, slot_count, erase,
  update, update_data, update-update_data, get, is_live,
}
use prqlite.Backend.Page.Items.{length-read}
use prqlite.Backend.Page.Layout.{
  IsValid, put, SameSlot, SameHeader, put_header, put_self, put_other, put_record,
}

-- What a change of one live slot does to a page.
pub record Rewritten (p q : Page) (slot : ℕ) (now : Option Bytes) : Type 0 where
  pub valid : IsValid q
  pub stored : get q slot ≡ now
  pub others : (s : ℕ) → s ≢ slot → get q s ≡ get p s
  pub header : SameHeader p q

module _ (p : Page) (slot : ℕ) (bytes : Bytes) (v : IsValid p) (below : slot < slot_count p)
    (live : slot_length p slot ≢ 0) (short : length bytes ≤ slot_length p slot) where
  behind : slot_base slot + 4 ≤ slot_offset p slot
  behind = omega (arith, v.room, (v.inside slot below live).0)

  inside : slot_offset p slot + length bytes ≤ page_size
  inside = omega (arith, (v.inside slot below live).1)

  q : Page
  q = put p slot (slot_offset p slot) bytes

  header : SameHeader p q
  unfolding q
  header = put_header p slot (slot_offset p slot) bytes behind inside

  self :
      (slot_offset q slot ≡ slot_offset p slot)
      × (slot_length q slot ≡ length bytes)
      × (read q (slot_offset p slot) (length bytes) ≡ bytes)
  unfolding q
  self = put_self p slot (slot_offset p slot) bytes behind inside

  other : (s : ℕ) → s < slot_count p → s ≢ slot → SameSlot p q s
  unfolding q
  other s b ne =
      put_other p slot (slot_offset p slot) bytes behind inside s ne
        (omega (arith, v.room, (v.inside slot below live).0))

  other_read :
      (s : ℕ)
      → s < slot_count p
      → s ≢ slot
      → slot_length p s ≢ 0
      → read q (slot_offset p s) (slot_length p s) ≡ read p (slot_offset p s) (slot_length p s)
  unfolding q
  other_read s b ne l =
      put_record p slot (slot_offset p slot) bytes behind inside (slot_offset p s) (slot_length p s)
        (omega (arith, v.room, (v.inside s b l).0))
        (ground (arith, v.apart slot s below b (λ e. ne (sym e)) live l))

  q_others : (s : ℕ) → s ≢ slot → get q s ≡ get p s
  unfolding get is_live
  q_others s ne = elim (Bool-cases (ltb s (slot_count p))) [
    | inr out ↦ ground (arith, header.0, out)
    | inl b ↦
        let (off, len) = other s (ltb→lt _ _ b) ne in
        elim (Bool-cases (slot_length p s == 0)) [
          | inl gone ↦ ground (arith, header.0, b, gone, len)
          | inr full ↦ ground (
            arith,
            header.0,
            b,
            full,
            len,
            ap (λ i. read q i (slot_length q s)) off,
            ap (read q (slot_offset p s)) len,
            other_read s (ltb→lt _ _ b) ne,
          )
        ]
  ]

  q_stored : get q slot ≡ (if length bytes == 0 then none else some bytes)
  unfolding get is_live
  q_stored =
      let (off, len, got) = self in
      ground (
        arith,
        header.0,
        len,
        ap (λ i. read q i (slot_length q slot)) off,
        ap (read q (slot_offset p slot)) len,
        got,
        below,
      )

  -- No record gets longer or moves.
  slot_shrinks :
      (s : ℕ)
      → s < slot_count p
      → (slot_offset q s ≡ slot_offset p s) × (slot_length q s ≤ slot_length p s)
  slot_shrinks s b = elim (Bool-cases (s == slot)) [
    | inl same ↦
        let e = (==_iff s slot).0 same in
        (
          ap (slot_offset q) e ∙ self.0 ∙ sym (ap (slot_offset p) e),
          omega (arith, ap (slot_length q) e, self.1, ap (slot_length p) e, short),
        )
    | inr ne ↦ let (off, len) = other s b (λ e. ground (arith, ne, e)) in (off, omega (arith, len))
  ]

  q-IsValid : IsValid q
  q-IsValid = record {
    room = omega (arith, header.0, header.1, v.room);
    bound = omega (arith, header.1, v.bound);
    inside = λ s b l.
        let b' : s < slot_count p = omega (arith, header.0) in
        let (off, len) = slot_shrinks s b' in
        let old = v.inside s b' (λ z. l (omega (arith, len, z))) in
        (omega (arith, header.1, off, old.0), omega (arith, off, len, old.1));
    apart = λ s t a b ne l m.
        let a' : s < slot_count p = omega (arith, header.0) in
        let b' : t < slot_count p = omega (arith, header.0) in
        let (off, len) = slot_shrinks s a' in
        let (off', len') = slot_shrinks t b' in
        ground (
          arith,
          off,
          len,
          off',
          len',
          v.apart s t a' b' ne (λ z. l (omega (arith, len, z))) (λ z. m (omega (arith, len', z))),
        );
  }

  rewritten : Rewritten p q slot (if length bytes == 0 then none else some bytes)
  rewritten = record { valid = q-IsValid; stored = q_stored; others = q_others; header = header }

filled :
    {p q : Page} {slot : ℕ} (bytes : Bytes)
    → Rewritten p q slot (if length bytes == 0 then none else some bytes)
    → length bytes ≢ 0
    → Rewritten p q slot (some bytes)
filled bytes r n = record {
  valid = r.valid;
  stored = r.stored ∙ ground arith;
  others = r.others;
  header = r.header;
}

module _ (p : Page) (slot : ℕ) (v : IsValid p) where
  live_slot : is_live p slot ≡ true → (slot < slot_count p) × (slot_length p slot ≢ 0)
  unfolding is_live
  live_slot h = (ground (arith, h), (λ z. ground (arith, h)))

  -- On a valid page `erase` fails exactly on a slot that holds nothing. Where it succeeds, it
  -- empties the slot and keeps what the other slots hold, the header and the layout's validity.
  pub erase_lem :
      ((erase p slot ≡ none) ↔ (get p slot ≡ none))
      × ((q' : Page) → erase p slot ≡ some q' → Rewritten p q' slot none)
  unfolding erase get q write
  erase_lem = (
    ((λ h. ground (arith, h)), (λ h. ground (arith, h))),
    (λ q' h.
        let live : is_live p slot ≡ true = ground (arith, h) in
        let page : set_slot p slot (slot_offset p slot) 0 ≡ q' = ground (arith, h) in
        let (below, full) = live_slot live in
        subst (λ x. Rewritten p x slot none) page (rewritten p slot [] v below full (omega arith))),
  )

  -- The slot holds nothing, or the new record is empty, or it is longer than the one that is there.
  abbrev pub Refused : Bytes → Type 0
  Refused bytes =
      (get p slot ≡ none)
      ⊎ ((length bytes ≡ 0)
          ⊎ ((old : Bytes) × (get p slot ≡ some old) × (length old < length bytes)))

  update_data-none : (bytes : Bytes) → update_data p slot bytes ≡ none → Refused bytes
  unfolding update_data get
  update_data-none bytes h = elim (Bool-cases (is_live p slot)) [
    | inr dead ↦ inl (ground (arith, dead))
    | inl live ↦ elim (Bool-cases (length bytes == 0)) [
      | inl nothing ↦ inr (inl (ground (arith, nothing)))
      | inr something ↦ inr (
          inr (
            read p (slot_offset p slot) (slot_length p slot),
            ground (arith, live),
            ground (
              arith,
              h,
              live,
              something,
              length-read p (slot_offset p slot) (slot_length p slot),
            ),
          ))
    ]
  ]

  update_data-Refused : (bytes : Bytes) → Refused bytes → update_data p slot bytes ≡ none
  unfolding update_data get
  update_data-Refused bytes (inl gone) = ground (arith, gone)
  update_data-Refused bytes (inr (inl nothing)) = ground (arith, nothing)
  update_data-Refused bytes (inr (inr (old, here, longer))) =
      let size : slot_length p slot ≡ length old = elim (Bool-cases (is_live p slot)) [
        | inr dead ↦ absurd (ground (arith, here, dead))
        | inl live ↦
            sym (length-read p (slot_offset p slot) (slot_length p slot))
            ∙ ap length (ground (arith, here, live))
      ] in
      ground (arith, longer, size)

  update_data-Rewritten :
      (bytes : Bytes) (q' : Page)
      → update_data p slot bytes ≡ some q'
      → Rewritten p q' slot (some bytes)
  unfolding update_data q
  update_data-Rewritten bytes q' h =
      let live : is_live p slot ≡ true = ground (arith, h) in
      let good : (length bytes == 0 || ltb (slot_length p slot) (length bytes)) ≡ false =
        ground (arith, h) in
      let page : put p slot (slot_offset p slot) bytes ≡ q' = ground (arith, h) in
      let (below, full) : (slot < slot_count p) × (slot_length p slot ≢ 0) = live_slot live in
      subst (λ x. Rewritten p x slot (some bytes)) page
        (filled bytes (rewritten p slot bytes v below full (ground (arith, good)))
          (ground (arith, good)))

  -- On a valid page, with a record of less than 2 ^ 31 bytes, `update` fails exactly where the slot
  -- holds nothing, the new record is empty, or it is longer than the record that the slot holds.
  -- Where it succeeds, it stores the new record in the slot and keeps what the other slots hold, the
  -- header and the layout's validity.
  pub update_lem :
      (bytes : Bytes)
      → length bytes < 2 ^ 31
      → ((update p slot bytes ≡ none) ↔ Refused bytes)
        × ((q' : Page) → update p slot bytes ≡ some q' → Rewritten p q' slot (some bytes))
  update_lem bytes small =
      let same = update-update_data p slot bytes small in
      (
        ((λ h. update_data-none bytes (sym same ∙ h)), (λ h. same ∙ update_data-Refused bytes h)),
        (λ q' h. update_data-Rewritten bytes q' (sym same ∙ h)),
      )
