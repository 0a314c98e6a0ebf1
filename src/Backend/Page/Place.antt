-- ===== src/Backend/Page/Place.antt =====
-- src/backend/page.cpp: a record placed into the free space, in the slot behind the last one.
use prqlite.Base.{
  ℕ, ◌+◌, ◌-◌, ◌%◌, ◌^◌, ◌<◌, ◌≤◌, some, ltb, ltb→lt, ◌==◌, Bytes, length, of_le, ◌≡◌, ◌≢◌, ◌⊎◌,
  inl, inr, sym, arith, ap, ◌∙◌, Bool-cases,
}
use prqlite.Backend.Page.{
  Page, page_size, slot_base, read, write_u16, read_u16, page_lsn, read_u64, slot_offset,
  slot_length, slot_count, free_end, free_start, get, is_live,
}
use prqlite.Backend.Page.Memory.{
  Apart, read_u16-write_u16, read_u16-write_u16-Apart, read-write_u16-Apart,
}
use prqlite.Backend.Page.Layout.{
  IsValid, put, SameSlot, put_header, put_self, put_other, put_record,
}

-- The writes of a new count and a new end of the free space.
module _ (p : Page) (count free : ℕ) (small : count < 2 ^ 16) (small' : free < 2 ^ 16) where
  abbrev headed : Page
  headed = write_u16 (write_u16 p 0 count) 2 free

  headed_count : slot_count headed ≡ count
  unfolding slot_count
  headed_count =
      read_u16-write_u16-Apart (write_u16 p 0 count) 2 free 0 (inr (omega arith))
      ∙ read_u16-write_u16 p 0 count small

  headed_free : free_end headed ≡ free
  unfolding free_end
  headed_free = read_u16-write_u16 (write_u16 p 0 count) 2 free small'

  headed-read : (o n : ℕ) → 4 ≤ o → read headed o n ≡ read p o n
  headed-read o n h =
      read-write_u16-Apart (write_u16 p 0 count) 2 free o n (inl h)
      ∙ read-write_u16-Apart p 0 count o n (inl (omega arith))

  headed_lsn : page_lsn headed ≡ page_lsn p
  unfolding page_lsn read_u64
  headed_lsn = ap of_le (headed-read 4 8 (omega arith))

  headed_slot : (s : ℕ) → SameSlot p headed s
  unfolding slot_offset slot_length read_u16
  headed_slot s = (
    ap of_le (headed-read (slot_base s) 2 (omega arith)),
    ap of_le (headed-read (slot_base s + 2) 2 (omega arith)),
  )

-- What a successful insert does to a page.
pub record Inserted (p q : Page) (slot : ℕ) (bytes : Bytes) : Type 0 where
  pub valid : IsValid q
  pub stored : get q slot ≡ some bytes
  pub others : (s : ℕ) → s ≢ slot → get q s ≡ get p s
  pub count : slot_count q ≡ slot_count p + 1
  pub lsn : page_lsn q ≡ page_lsn p

module _ (p : Page) (bytes : Bytes) (v : IsValid p) (need : length bytes ≢ 0)
    (fits : free_start p + 4 + length bytes ≤ free_end p) where
  unfoldable pub offset : ℕ
  offset = (free_end p + 2 ^ 16 - length bytes) % 2 ^ 16

  offset_lem : offset + length bytes ≡ free_end p
  unfolding offset
  offset_lem = omega (arith, v.bound)

  behind : slot_base (slot_count p) + 4 ≤ offset
  behind = omega (arith, offset_lem)

  inside : offset + length bytes ≤ page_size
  inside = omega (arith, offset_lem, v.bound)

  unfoldable pub q₁ : Page
  unfolding offset
  q₁ = put p (slot_count p) offset bytes

  unfoldable pub q : Page
  unfolding offset
  q = write_u16 (write_u16 q₁ 0 ((slot_count p + 1) % 2 ^ 16)) 2 offset

  next_count : (slot_count p + 1) % 2 ^ 16 ≡ slot_count p + 1
  next_count = omega (arith, v.bound)

  small : (slot_count p + 1) % 2 ^ 16 < 2 ^ 16
  small = omega arith

  small' : offset < 2 ^ 16
  small' = omega (arith, inside)

  q_count : slot_count q ≡ slot_count p + 1
  unfolding q
  q_count = headed_count q₁ ((slot_count p + 1) % 2 ^ 16) offset small small' ∙ next_count

  q_free : free_end q ≡ offset
  unfolding q
  q_free = headed_free q₁ ((slot_count p + 1) % 2 ^ 16) offset small small'

  q_lsn : page_lsn q ≡ page_lsn p
  unfolding q q₁
  q_lsn =
      headed_lsn q₁ ((slot_count p + 1) % 2 ^ 16) offset small small'
      ∙ (put_header p (slot_count p) offset bytes behind inside).2

  q_slot : (s : ℕ) → SameSlot q₁ q s
  unfolding q
  q_slot = headed_slot q₁ ((slot_count p + 1) % 2 ^ 16) offset small small'

  q-read : (o n : ℕ) → 4 ≤ o → read q o n ≡ read q₁ o n
  unfolding q
  q-read = headed-read q₁ ((slot_count p + 1) % 2 ^ 16) offset small small'

  -- The new slot, and those before it.
  new_slot :
      (slot_offset q (slot_count p) ≡ offset)
      × (slot_length q (slot_count p) ≡ length bytes)
      × (read q offset (length bytes) ≡ bytes)
  unfolding q₁
  new_slot =
      let self = put_self p (slot_count p) offset bytes behind inside in
      let slot = q_slot (slot_count p) in
      (
        slot.0 ∙ self.0,
        slot.1 ∙ self.1,
        q-read offset (length bytes) (omega (arith, behind)) ∙ self.2,
      )

  old_slot : (s : ℕ) → s < slot_count p → SameSlot p q s
  unfolding q₁
  old_slot s b =
      let other =
        put_other p (slot_count p) offset bytes behind inside s (λ e. absurd (omega arith))
          (omega (arith, behind)) in
      let slot = q_slot s in (slot.0 ∙ other.0, slot.1 ∙ other.1)

  old_read :
      (s : ℕ)
      → s < slot_count p
      → slot_length p s ≢ 0
      → read q (slot_offset p s) (slot_length p s) ≡ read p (slot_offset p s) (slot_length p s)
  unfolding q₁
  old_read s b l =
      let (low, high) = v.inside s b l in
      q-read (slot_offset p s) (slot_length p s) (omega (arith, behind, offset_lem))
      ∙ put_record p (slot_count p) offset bytes behind inside (slot_offset p s) (slot_length p s)
          (omega (arith, behind, offset_lem)) (inl (omega (arith, offset_lem)))

  q_others : (s : ℕ) → s ≢ slot_count p → get q s ≡ get p s
  unfolding get is_live
  q_others s ne = elim (Bool-cases (ltb s (slot_count p))) [
    | inr out ↦ ground (arith, q_count, out)
    | inl below ↦
        let (off, len) = old_slot s (ltb→lt _ _ below) in
        elim (Bool-cases (slot_length p s == 0)) [
          | inl gone ↦ ground (arith, q_count, below, gone, len)
          | inr live ↦ ground (
            arith,
            q_count,
            below,
            live,
            len,
            ap (λ o. read q o (slot_length q s)) off,
            ap (read q (slot_offset p s)) len,
            old_read s (ltb→lt _ _ below),
          )
        ]
  ]

  q_stored : get q (slot_count p) ≡ some bytes
  unfolding get is_live
  q_stored =
      let (off, len, got) = new_slot in
      ground (
        arith,
        q_count,
        len,
        ap (λ o. read q o (slot_length q (slot_count p))) off,
        ap (read q offset) len,
        got,
        need,
      )

  slot_cases :
      (s : ℕ)
      → s < slot_count q
      → ((s < slot_count p) × SameSlot p q s)
        ⊎ ((s ≡ slot_count p) × (slot_offset q s ≡ offset) × (slot_length q s ≡ length bytes))
  slot_cases s b = elim (Bool-cases (ltb s (slot_count p))) [
    | inl below ↦ inl (ltb→lt _ _ below, old_slot s (ltb→lt _ _ below))
    | inr out ↦
        let same : s ≡ slot_count p = ground (arith, out, q_count) in
        inr (same, ap (slot_offset q) same ∙ new_slot.0, ap (slot_length q) same ∙ new_slot.1)
  ]

  q_inside :
      (s : ℕ)
      → s < slot_count q
      → slot_length q s ≢ 0
      → (free_end q ≤ slot_offset q s) × (slot_offset q s + slot_length q s ≤ page_size)
  q_inside s b l = elim (slot_cases s b) [
    | inl (below, same) ↦
        let (low, high) = v.inside s below (λ z. l (same.1 ∙ z)) in
        (omega (arith, q_free, offset_lem, same.0), omega (arith, same.0, same.1))
    | inr (_, off, len) ↦ (omega (arith, q_free, off), omega (arith, off, len, inside))
  ]

  q-Apart :
      (s t : ℕ)
      → s < slot_count q
      → t < slot_count q
      → s ≢ t
      → slot_length q s ≢ 0
      → slot_length q t ≢ 0
      → Apart (slot_offset q s) (slot_length q s) (slot_offset q t) (slot_length q t)
  q-Apart s t a b ne l m = elim (slot_cases s a) [
    | inl (sb, same) ↦ elim (slot_cases t b) [
      | inl (tb, same') ↦ ground (
        arith,
        same.0,
        same.1,
        same'.0,
        same'.1,
        v.apart s t sb tb ne (λ z. l (same.1 ∙ z)) (λ z. m (same'.1 ∙ z)),
      )
      | inr (_, off, len) ↦
          inr (omega (arith, off, len, offset_lem, same.0, (v.inside s sb (λ z. l (same.1 ∙ z))).0))
    ]
    | inr (e, off, len) ↦ elim (slot_cases t b) [
      | inl (tb, same') ↦
          inl
            (omega (arith, off, len, offset_lem, same'.0, (v.inside t tb (λ z. m (same'.1 ∙ z))).0))
      | inr (e', _, _) ↦ absurd (ne (e ∙ sym e'))
    ]
  ]

  pub inserted : Inserted p q (slot_count p) bytes
  inserted = record {
    valid = record {
      room = omega (arith, q_count, q_free, behind);
      bound = omega (arith, q_free, inside);
      inside = q_inside;
      apart = q-Apart;
    };
    stored = q_stored;
    others = q_others;
    count = q_count;
    lsn = q_lsn;
  }
