-- ===== src/Backend/Page/Items.antt =====
-- src/backend/page.cpp: the loops of `compact` over the live records.
use prqlite.Base.{
  ℕ, zero, suc, ◌+◌, ◌-◌, ◌%◌, ◌^◌, ◌<◌, ◌≤◌, List, [], ◌∷◌, Option, none, some, if◌then◌else◌,
  ◌==◌, Bytes, length, if_intro, ==_iff, ◌≡◌, ◌≢◌, inl, inr, refl, sym, subst, arith, ap, ◌∙◌,
  Bool-cases,
}
use prqlite.Backend.Page.{
  Page, page_size, slot_base, read, slot_offset, slot_length, live_bytes, live_slots, place_all,
}
use prqlite.Backend.Page.Memory.{Apart}
use prqlite.Backend.Page.Layout.{
  put, SameSlot, SameHeader, put_header, put_self, put_other, put_record,
}

abbrev pub Items : Type 0
Items = List (ℕ × Bytes)

pub total : Items → ℕ
total [] = 0
total ((s, bs) ∷ items) = length bs + total items

-- The record of a slot among the items.
pub item : ℕ → Items → Option Bytes
item t [] = none
item t ((s, bs) ∷ items) = if s == t then some bs else item t items

abbrev pub Ascending : ℕ → ℕ → Items → Type 0
Ascending lo hi [] = Unit
Ascending lo hi ((s, bs) ∷ items) = (lo ≤ s) × (s < hi) × Ascending (s + 1) hi items

-- The items stand one below the other, from `hi` down to `lo`.
abbrev pub Placed : Page → ℕ → ℕ → Items → Type 0
Placed q lo hi [] = lo ≡ hi
Placed q lo hi ((s, bs) ∷ items) =
    (slot_length q s ≡ length bs)
    × (slot_offset q s + length bs ≡ hi)
    × (read q (slot_offset q s) (length bs) ≡ bs)
    × Placed q lo (slot_offset q s) items

item_below : (lo hi t : ℕ) (items : Items) → Ascending lo hi items → t < lo → item t items ≡ none
unfolding item
item_below lo hi t [] a h = refl
item_below lo hi t ((s, bs) ∷ items) a h = ground (arith, a.0, item_below (s + 1) hi t items a.2)

pub record Moved (q q' : Page) (free free' dir : ℕ) (items : Items) : Type 0 where
  pub sum : free' + total items ≡ free
  pub header : SameHeader q q'
  pub placed : Placed q' free' free items
  pub other : (t : ℕ) → item t items ≡ none → slot_base t + 4 ≤ dir → SameSlot q q' t
  pub above : (o n : ℕ) → free ≤ o → read q' o n ≡ read q o n

pub place_all_lem :
    (q : Page) (free count lo : ℕ) (items : Items)
    → slot_base count + total items ≤ free
    → free ≤ page_size
    → Ascending lo count items
    → Moved q (place_all q free items).0 free (place_all q free items).1 (slot_base count) items
unfolding place_all total item
place_all_lem q free count lo [] h b a = record {
  sum = omega arith;
  header = (refl, refl, refl);
  placed = refl;
  other = λ t n d. (refl, refl);
  above = λ o n d. refl;
}
place_all_lem q free count lo ((s, bs) ∷ items) h b a =
    let free₁ = (free + 2 ^ 16 - length bs) % 2 ^ 16 in
    let e : free₁ + length bs ≡ free = omega arith in
    let q₁ = put q s free₁ bs in
    let behind : slot_base s + 4 ≤ free₁ = omega (arith, e, a.1) in
    let fits : free₁ + length bs ≤ page_size = omega (arith, e) in
    let ih = place_all_lem q₁ free₁ count (s + 1) items (omega (arith, e)) (omega arith) a.2 in
    let self = put_self q s free₁ bs behind fits in
    let kept =
      ih.other s (item_below (s + 1) count s items a.2 (omega arith)) (omega (arith, a.1)) in
    let head = put_header q s free₁ bs behind fits in
    let off : slot_offset (place_all q₁ free₁ items).0 s ≡ free₁ = kept.0 ∙ self.0 in
    record {
      sum = omega (arith, ih.sum, e);
      header = (ih.header.0 ∙ head.0, ih.header.1 ∙ head.1, ih.header.2 ∙ head.2);
      placed = (
        kept.1 ∙ self.1,
        ap (λ n. n + length bs) off ∙ e,
        ap (λ o. read (place_all q₁ free₁ items).0 o (length bs)) off
            ∙ ih.above free₁ (length bs) (omega arith)
            ∙ self.2,
        subst (λ o. Placed (place_all q₁ free₁ items).0 (place_all q₁ free₁ items).1 o items)
            (sym off) ih.placed,
      );
      other = λ t n d.
          let ne : t ≢ s = λ same. ground (arith, n, same) in
          let others = ih.other t (ground (arith, n, ne)) d in
          let mine = put_other q s free₁ bs behind fits t ne (omega (arith, e)) in
          (others.0 ∙ mine.0, others.1 ∙ mine.1);
      above = λ o n d.
          ih.above o n (omega (arith, e))
          ∙ put_record q s free₁ bs behind fits o n (omega (arith, e)) (inl (omega (arith, e)));
    }

pub length-read : (p : Page) (o n : ℕ) → length (read p o n) ≡ n
unfolding read
length-read p o zero = refl
length-read p o (suc n) = ap suc (length-read p (o + 1) n)

Ascending-lower :
    (lo lo' hi : ℕ) (items : Items) → lo ≤ lo' → Ascending lo' hi items → Ascending lo hi items
Ascending-lower lo lo' hi [] h a = tt
Ascending-lower lo lo' hi ((s, bs) ∷ items) h a = (omega (arith, a.0), a.1, a.2)

pub live_slots-Ascending : (p : Page) (s n : ℕ) → Ascending s (s + n) (live_slots p s n)
unfolding live_slots
live_slots-Ascending p s zero = tt
live_slots-Ascending p s (suc n) =
    let rest = rw (← e) at (live_slots-Ascending p (s + 1) n) in
    if_intro (Ascending s (s + suc n)) (slot_length p s == 0) _ _
      (λ _. Ascending-lower s (s + 1) (s + suc n) (live_slots p (s + 1) n) (omega arith) rest)
      (λ _. (omega arith, omega arith, rest))
  where
    e : s + suc n ≡ s + 1 + n
    e = omega arith

pub total-live_slots :
    (p : Page) (s n : ℕ) → total (live_slots p s n) + live_bytes p s ≡ live_bytes p (s + n)
unfolding live_slots total live_bytes
total-live_slots p s zero = let e : s ≡ s + 0 = omega arith in omega (arith, ap (live_bytes p) e)
total-live_slots p s (suc n) =
    let e : s + suc n ≡ s + 1 + n = omega arith in
    let e' : suc s ≡ s + 1 = omega arith in
    rw e (
      ground (
        arith,
        total-live_slots p (s + 1) n,
        ap (live_bytes p) e',
        length-read p (slot_offset p s) (slot_length p s),
      ))

pub item-live_slots :
    (p : Page) (s n t : ℕ)
    → s ≤ t
    → t < s + n
    → item t (live_slots p s n)
      ≡ (if slot_length p t == 0 then none else some (read p (slot_offset p t) (slot_length p t)))
unfolding live_slots item
item-live_slots p s zero t a b = absurd (omega arith)
item-live_slots p s (suc n) t a b = elim (Bool-cases (s == t)) [
  | inl here ↦ ground (
    arith,
    here,
    ap (slot_length p) ((==_iff s t).0 here),
    ap (slot_offset p) ((==_iff s t).0 here),
    item_below (s + 1) (s + 1 + n) t (live_slots p (s + 1) n) (live_slots-Ascending p (s + 1) n),
  )
  | inr past ↦ ground (arith, past, item-live_slots p (s + 1) n t)
]

pub Placed-le : (q : Page) (lo hi : ℕ) (items : Items) → Placed q lo hi items → lo ≤ hi
Placed-le q lo hi [] p = omega arith
Placed-le q lo hi ((s, bs) ∷ items) p =
    omega (arith, p.1, Placed-le q lo (slot_offset q s) items p.3)

pub Placed-item :
    (q : Page) (lo hi top : ℕ) (l : ℕ) (items : Items) (t : ℕ) (bs : Bytes)
    → Placed q lo hi items
    → Ascending l top items
    → item t items ≡ some bs
    → (slot_length q t ≡ length bs)
      × (lo ≤ slot_offset q t)
      × (slot_offset q t + length bs ≤ hi)
      × (read q (slot_offset q t) (length bs) ≡ bs)
unfolding item
Placed-item q lo hi top l [] t bs p a e = cc
Placed-item q lo hi top l ((s, cs) ∷ items) t bs p a e = elim (Bool-cases (s == t)) [
  | inl here ↦
      let same : s ≡ t = (==_iff s t).0 here in
      let e' : cs ≡ bs = ground (arith, here, e) in
      let low = Placed-le q lo (slot_offset q s) items p.3 in
      rw (← same, ← e') (p.0, low, omega (arith, p.1), p.2)
  | inr past ↦
      let ih =
        Placed-item q lo (slot_offset q s) top (s + 1) items t bs p.3 a.2
          (ground (arith, past, e)) in
      (ih.0, ih.1, omega (arith, ih.2, p.1), ih.3)
]

pub Placed-Apart :
    (q : Page) (lo hi top : ℕ) (l : ℕ) (items : Items) (t u : ℕ) (bs cs : Bytes)
    → Placed q lo hi items
    → Ascending l top items
    → t ≢ u
    → item t items ≡ some bs
    → item u items ≡ some cs
    → Apart (slot_offset q t) (length bs) (slot_offset q u) (length cs)
unfolding item
Placed-Apart q lo hi top l [] t u bs cs p a ne e f = cc
Placed-Apart q lo hi top l ((s, ds) ∷ items) t u bs cs p a ne e f = elim (Bool-cases (s == t)) [
  | inl here ↦
      let same : s ≡ t = (==_iff s t).0 here in
      let e' : ds ≡ bs = ground (arith, here, e) in
      let rest : item u items ≡ some cs = ground (arith, f, ne, same) in
      let below = Placed-item q lo (slot_offset q s) top (s + 1) items u cs p.3 a.2 rest in
      rw (← same) (inr below.2)
  | inr past ↦ elim (Bool-cases (s == u)) [
    | inl here ↦
        let same : s ≡ u = (==_iff s u).0 here in
        let rest : item t items ≡ some bs = ground (arith, past, e) in
        let below = Placed-item q lo (slot_offset q s) top (s + 1) items t bs p.3 a.2 rest in
        rw (← same) (inl below.2)
    | inr past' ↦
        Placed-Apart q lo (slot_offset q s) top (s + 1) items t u bs cs p.3 a.2 ne
          (ground (arith, past, e)) (ground (arith, past', f))
  ]
]
