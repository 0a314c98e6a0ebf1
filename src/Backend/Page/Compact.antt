-- ===== src/Backend/Page/Compact.antt =====
-- src/backend/page.cpp: `compact` moves the live records together and changes nothing else.
use prqlite.Base.{
  ℕ, ◌+◌, ◌^◌, ◌<◌, ◌≤◌, none, some, ltb, ltb→lt, ◌==◌, length, of_le, ==_iff, ◌≡◌, ◌≢◌, inl, inr,
  sym, subst, arith, ap, ◌∙◌, Bool-cases,
}
use prqlite.Backend.Page.{
  Page, page_size, slot_base, read, page_lsn, read_u64, slot_offset, slot_length, slot_count,
  free_end, free_start, live_bytes, live_slots, place_all, compact, get, is_live,
}
use prqlite.Backend.Page.Memory.{
  Apart, read_u16-write_u16, read_u16-write_u16-Apart, read-write_u16-Apart,
}
use prqlite.Backend.Page.Layout.{IsValid, SameSlot}
use prqlite.Backend.Page.Items.{
  Items, total, item, length-read, Ascending, Moved, place_all_lem, live_slots-Ascending,
  total-live_slots, item-live_slots, Placed-item, Placed-Apart,
}

-- What `compact` does: every slot reads as before, and all the usable space is free space.
pub record Compacted (p q : Page) : Type 0 where
  pub count : slot_count q ≡ slot_count p
  pub lsn : page_lsn q ≡ page_lsn p
  pub free : free_end q + live_bytes p (slot_count p) ≡ page_size
  pub same : (s : ℕ) → get q s ≡ get p s
  pub valid : IsValid q

module _ (p : Page) (h : free_start p + live_bytes p (slot_count p) ≤ page_size) where
  items : Items
  items = live_slots p 0 (slot_count p)

  q₀ : Page
  unfolding items
  q₀ = (place_all p page_size items).0

  free₀ : ℕ
  unfolding items
  free₀ = (place_all p page_size items).1

  ascending : Ascending 0 (slot_count p) items
  unfolding items
  ascending =
      let e : 0 + slot_count p ≡ slot_count p = omega arith in
      subst (λ n. Ascending 0 n (live_slots p 0 (slot_count p))) e
        (live_slots-Ascending p 0 (slot_count p))

  sum : total items ≡ live_bytes p (slot_count p)
  unfolding items live_bytes
  sum =
      let e : 0 + slot_count p ≡ slot_count p = omega arith in
      omega (arith, total-live_slots p 0 (slot_count p), ap (live_bytes p) e)

  moved : Moved p q₀ page_size free₀ (slot_base (slot_count p)) items
  unfolding q₀ free₀
  moved =
      place_all_lem p page_size (slot_count p) 0 items (omega (arith, sum)) (omega arith) ascending

  low : free₀ < 2 ^ 16
  low = omega (arith, moved.sum)

  -- The header write at the end leaves slots and records.
  compact_slot : (s : ℕ) → SameSlot q₀ (compact p) s
  unfolding compact q₀ free₀ items slot_offset slot_length
  compact_slot s = (
    read_u16-write_u16-Apart q₀ 2 free₀ (slot_base s) (inl (omega arith)),
    read_u16-write_u16-Apart q₀ 2 free₀ (slot_base s + 2) (inl (omega arith)),
  )

  read-compact : (o n : ℕ) → 4 ≤ o → read (compact p) o n ≡ read q₀ o n
  unfolding compact q₀ free₀ items
  read-compact o n d = read-write_u16-Apart q₀ 2 free₀ o n (inl d)

  compact_count : slot_count (compact p) ≡ slot_count p
  unfolding compact q₀ free₀ items slot_count
  compact_count = read_u16-write_u16-Apart q₀ 2 free₀ 0 (inr (omega arith)) ∙ moved.header.0

  compact_lsn : page_lsn (compact p) ≡ page_lsn p
  unfolding compact q₀ free₀ items page_lsn read_u64
  compact_lsn = ap of_le (read-write_u16-Apart q₀ 2 free₀ 4 8 (inl (omega arith))) ∙ moved.header.2

  compact_free : free_end (compact p) ≡ free₀
  unfolding compact q₀ free₀ items free_end
  compact_free = read_u16-write_u16 q₀ 2 free₀ low

  -- Where a live record lies afterwards.
  record Lies (s : ℕ) : Type 0 where
    len : slot_length (compact p) s ≡ slot_length p s
    behind : free₀ ≤ slot_offset (compact p) s
    inside : slot_offset (compact p) s + slot_length p s ≤ page_size
    bytes :
        read (compact p) (slot_offset (compact p) s) (slot_length p s)
        ≡ read p (slot_offset p s) (slot_length p s)

  live_item :
      (s : ℕ)
      → s < slot_count p
      → slot_length p s ≢ 0
      → item s items ≡ some (read p (slot_offset p s) (slot_length p s))
  unfolding items
  live_item s b l = item-live_slots p 0 (slot_count p) s (omega arith) (omega arith) ∙ ground arith

  lies : (s : ℕ) → s < slot_count p → slot_length p s ≢ 0 → Lies s
  lies s b l =
      let bs = read p (slot_offset p s) (slot_length p s) in
      let size : length bs ≡ slot_length p s = length-read p (slot_offset p s) (slot_length p s) in
      let at =
        Placed-item q₀ free₀ page_size (slot_count p) 0 items s bs moved.placed ascending
          (live_item s b l) in
      let slot = compact_slot s in
      let start : free_start p ≤ free₀ = omega (arith, moved.sum, sum) in
      record {
        len = slot.1 ∙ at.0 ∙ size;
        behind = omega (arith, slot.0, at.1);
        inside = omega (arith, slot.0, at.2, size);
        bytes =
            read-compact (slot_offset (compact p) s) (slot_length p s)
              (omega (arith, slot.0, at.1, start))
            ∙ ap (λ o. read q₀ o (slot_length p s)) slot.0
            ∙ ap (read q₀ (slot_offset q₀ s)) (sym size)
            ∙ at.3;
      }

  dead : (s : ℕ) → s < slot_count p → slot_length p s ≡ 0 → slot_length (compact p) s ≡ 0
  unfolding items
  dead s b l =
      let gone : item s (live_slots p 0 (slot_count p)) ≡ none =
        item-live_slots p 0 (slot_count p) s (omega arith) (omega arith) ∙ ground arith in
      (compact_slot s).1 ∙ (moved.other s gone (omega arith)).1 ∙ l

  compact_length : (s : ℕ) → s < slot_count p → slot_length (compact p) s ≡ slot_length p s
  compact_length s b = elim (Bool-cases (slot_length p s == 0)) [
    | inl gone ↦ let l = (==_iff (slot_length p s) 0).0 gone in dead s b l ∙ sym l
    | inr live ↦ (lies s b (ground (arith, live))).len
  ]

  get-compact : (s : ℕ) → get (compact p) s ≡ get p s
  unfolding get is_live
  get-compact s = elim (Bool-cases (ltb s (slot_count p))) [
    | inr out ↦ ground (arith, compact_count, out)
    | inl in_count ↦ elim (Bool-cases (slot_length p s == 0)) [
      | inl gone ↦
          ground (arith, compact_count, in_count, gone, compact_length s (ltb→lt _ _ in_count))
      | inr live ↦
          let l = lies s (ltb→lt _ _ in_count) (ground (arith, live)) in
          ground (
            arith,
            compact_count,
            in_count,
            live,
            l.len,
            l.bytes,
            ap (read (compact p) (slot_offset (compact p) s)) l.len,
          )
    ]
  ]

  compact-Apart :
      (s t : ℕ)
      → s < slot_count p
      → t < slot_count p
      → s ≢ t
      → slot_length p s ≢ 0
      → slot_length p t ≢ 0
      → Apart
          (slot_offset (compact p) s)
          (slot_length p s)
          (slot_offset (compact p) t)
          (slot_length p t)
  compact-Apart s t a b ne l m =
      let size = length-read p (slot_offset p s) (slot_length p s) in
      let size' = length-read p (slot_offset p t) (slot_length p t) in
      let apart =
        Placed-Apart q₀ free₀ page_size (slot_count p) 0 items s t _ _ moved.placed ascending ne
          (live_item s a l) (live_item t b m) in
      ground (arith, apart, size, size', (compact_slot s).0, (compact_slot t).0)

  -- Where the live records and the slot array fit the page, compacting it keeps the layout
  -- valid, keeps what every slot holds and the page's LSN, and leaves all the space that dead
  -- records took as free space.
  pub compact_lem : Compacted p (compact p)
  compact_lem = record {
    count = compact_count;
    lsn = compact_lsn;
    free = omega (arith, compact_free, moved.sum, sum);
    same = get-compact;
    valid = record {
      room = omega (arith, compact_count, compact_free, moved.sum, sum);
      bound = omega (arith, compact_free, moved.sum);
      inside = λ s b l.
          let b' : s < slot_count p = omega (arith, compact_count) in
          let e = compact_length s b' in
          let at = lies s b' (λ z. l (e ∙ z)) in
          (omega (arith, at.behind, compact_free), omega (arith, at.inside, e));
      apart = λ s t a b ne l m.
          let a' : s < slot_count p = omega (arith, compact_count) in
          let b' : t < slot_count p = omega (arith, compact_count) in
          let e = compact_length s a' in
          let f = compact_length t b' in
          ground (arith, e, f, compact-Apart s t a' b' ne (λ z. l (e ∙ z)) (λ z. m (f ∙ z)));
    };
  }
