-- ===== src/Backend/Page/Twice.antt =====
-- src/backend/page.cpp: recovery may apply the same log record to a page more than once.
use prqlite.Base.{
  ℕ, zero, suc, ◌+◌, ◌-◌, ◌%◌, ◌^◌, ◌<◌, ◌≤◌, Bool, true, false, ◌&&◌, ◌||◌, not, if◌then◌else◌,
  Option, none, some, leb, ltb, ◌==◌, Bytes, length, le_bytes, of_le, length-le_bytes,
  of_le-le_bytes, inl, inr, ◌≡◌, ◌≢◌, refl, ap, ◌∙◌, arith, Bool-cases, if_intro,
}
use prqlite.Backend.Page.{
  Page, page_size, slot_base, header_size, init, page_lsn, set_page_lsn, set_slot, slot_offset,
  slot_count, free_end, free_start, lacks_space, lacks_usable, compact, place, get, write_u16,
  copied, write_u64, read_u16, read_u64,
}
use prqlite.Backend.Page.Memory.{
  read-write, read_u16-write-Apart, read_u16-write_u16, read_u16-write_u16-Apart,
}
use prqlite.Backend.Page.Compact.{compact_lem}
use prqlite.Backend.Page.Redo.{
  ensure_init, already_applied, stamp_lsn, grow, holds_record, clear_slots, redo_data, redo_set,
  redo_clear,
}

-- The page has a header, and the record with this LSN is known to be applied.
record IsDone (lsn : ℕ) (p : Page) : Type 0 where
  pub ready : header_size ≤ free_end p
  pub applied : lsn ≤ page_lsn p

page_lsn-set_page_lsn : (p : Page) (lsn : ℕ) → lsn < 2 ^ 64 → page_lsn (set_page_lsn p lsn) ≡ lsn
unfolding page_lsn set_page_lsn read_u64 write_u64
page_lsn-set_page_lsn p lsn h =
    ap of_le (rw (length-le_bytes 8 lsn) at (read-write p 4 (le_bytes 8 lsn)))
    ∙ of_le-le_bytes 8 lsn h

free_end-set_page_lsn : (p : Page) (lsn : ℕ) → free_end (set_page_lsn p lsn) ≡ free_end p
unfolding free_end set_page_lsn write_u64
free_end-set_page_lsn p lsn =
    read_u16-write-Apart p 4 (le_bytes 8 lsn) 2 (inr (omega (arith, length-le_bytes 8 lsn)))

free_end-write : (p : Page) (v : ℕ) → v < 2 ^ 16 → free_end (write_u16 p 2 v) ≡ v
unfolding free_end
free_end-write p v h = read_u16-write_u16 p 2 v h

free_end-init : free_end init ≡ page_size
unfolding free_end init
free_end-init = read_u16-write_u16 _ 2 page_size (omega arith)

ensure_init-ready : (p : Page) → header_size ≤ free_end (ensure_init p)
unfolding ensure_init
ensure_init-ready p = elim (Bool-cases (ltb (free_end p) header_size)) [
  | inl fresh ↦ rw fresh (omega (arith, free_end-init))
  | inr old ↦ rw old (ground (arith, old))
]

ensure_init-word : (p : Page) → free_end p < 2 ^ 16 → free_end (ensure_init p) < 2 ^ 16
unfolding ensure_init
ensure_init-word p h =
    if_intro (λ x. free_end x < 2 ^ 16) (ltb (free_end p) header_size) _ _
      (λ _. omega (arith, free_end-init)) (λ _. h)

ensure_init-done : (p : Page) → header_size ≤ free_end p → ensure_init p ≡ p
unfolding ensure_init
ensure_init-done p h = ground arith

already_applied-done :
    (p : Page) (lsn : ℕ) → lsn ≢ 0 → lsn ≤ page_lsn p → already_applied p lsn ≡ true
unfolding already_applied
already_applied-done p lsn n h = ground arith

stamp_lsn-IsDone :
    (p : Page) (lsn : ℕ)
    → lsn ≢ 0
    → lsn < 2 ^ 64
    → header_size ≤ free_end p
    → IsDone lsn (stamp_lsn p lsn)
unfolding stamp_lsn
stamp_lsn-IsDone p lsn n small h =
    let zero : (lsn == 0) ≡ false = ground arith in
    rw zero (record {
      ready = omega (arith, free_end-set_page_lsn p lsn);
      applied = omega (arith, page_lsn-set_page_lsn p lsn small);
    })

applied_le : (p : Page) (lsn : ℕ) → already_applied p lsn ≡ true → lsn ≤ page_lsn p
unfolding already_applied
applied_le p lsn h = ground arith

free_end-set_slot : (p : Page) (s o n : ℕ) → free_end (set_slot p s o n) ≡ free_end p
unfolding free_end set_slot
free_end-set_slot p s o n =
    read_u16-write_u16-Apart (write_u16 p (slot_base s) o) (slot_base s + 2) n 2 (inr (omega arith))
    ∙ read_u16-write_u16-Apart p (slot_base s) o 2 (inr (omega arith))

free_end-clear_slots : (p : Page) (s n : ℕ) → free_end (clear_slots p s n) ≡ free_end p
unfolding clear_slots
free_end-clear_slots p s zero = refl
free_end-clear_slots p s (suc n) =
    free_end-clear_slots (set_slot p s 0 0) (s + 1) n ∙ free_end-set_slot p s 0 0

free_end-grow : (p : Page) (slot : ℕ) → free_end (grow p slot) ≡ free_end p
unfolding grow read_u16 free_end
free_end-grow p slot =
    if_intro (λ x. free_end x ≡ free_end p) (leb (slot_count p) slot) _ _
      (λ _.
        read_u16-write_u16-Apart (clear_slots p (slot_count p) (slot + 1 - slot_count p)) 0
          ((slot + 1) % 2 ^ 16) 2 (inl (omega arith))
        ∙ free_end-clear_slots p (slot_count p) (slot + 1 - slot_count p))
      (λ _. refl)

-- The end of `redoSet`, on a page where the record fits below the free space.
placed-IsDone :
    (p : Page) (slot : ℕ) (bytes : Bytes) (lsn : ℕ)
    → lsn ≢ 0
    → lsn < 2 ^ 64
    → free_end p < 2 ^ 16
    → free_start p + length bytes ≤ free_end p
    → IsDone lsn (
        stamp_lsn
          (write_u16 (place p slot bytes) 2 ((free_end p + 2 ^ 16 - length bytes) % 2 ^ 16))
          lsn)
placed-IsDone p slot bytes lsn n small word fits =
    let offset = (free_end p + 2 ^ 16 - length bytes) % 2 ^ 16 in
    let written : free_end (write_u16 (place p slot bytes) 2 offset) ≡ offset =
      free_end-write (place p slot bytes) offset (omega arith) in
    stamp_lsn-IsDone _ lsn n small (omega (arith, written))

-- The part of `redoSet` behind the growth of the slot array.
fitted : Page → ℕ → Bytes → ℕ → Page × Bool
unfolding place stamp_lsn
fitted p slot bytes lsn =
    let need = length bytes in
    let roomy = not (lacks_space p need) in
    if not roomy && lacks_usable p need
    then (p, false)
    else let p₂ = if roomy then p else compact p in
      let offset = (free_end p₂ + 2 ^ 16 - need) % 2 ^ 16 in
      (stamp_lsn (write_u16 (place p₂ slot bytes) 2 offset) lsn, true)

fitted-IsDone :
    (p : Page) (slot : ℕ) (bytes : Bytes) (lsn : ℕ)
    → lsn ≢ 0
    → lsn < 2 ^ 64
    → free_end p < 2 ^ 16
    → (fitted p slot bytes lsn).1 ≡ true
    → IsDone lsn (fitted p slot bytes lsn).0
unfolding fitted lacks_space lacks_usable
fitted-IsDone p slot bytes lsn n small word h = elim (Bool-cases (lacks_space p (length bytes))) [
  | inr roomy ↦ rw roomy (placed-IsDone p slot bytes lsn n small word (ground (arith, roomy)))
  | inl full ↦ elim (Bool-cases (lacks_usable p (length bytes))) [
    | inl packed ↦ absurd (ground (arith, full, packed, h))
    | inr usable ↦
        let c = compact_lem p (ground (arith, usable)) in
        rw (full, usable)
          (placed-IsDone (compact p) slot bytes lsn n small (omega (arith, c.free))
            (ground (arith, usable, c.free, c.count)))
  ]
]

redo_data-IsDone :
    (q : Page) (slot : ℕ) (bytes : Bytes) (lsn : ℕ)
    → lsn ≢ 0
    → lsn < 2 ^ 64
    → free_end q < 2 ^ 16
    → (redo_data q slot bytes lsn).1 ≡ true
    → IsDone lsn (redo_data q slot bytes lsn).0
unfolding redo_data fitted
redo_data-IsDone q slot bytes lsn n small word h =
    elim (Bool-cases (length bytes == 0 || ltb 0xFFFF (length bytes))) [
      | inl bad ↦ absurd (ground (arith, bad, h))
      | inr good ↦ rw good (
          fitted-IsDone (grow q slot) slot bytes lsn n small
            (omega (arith, free_end-grow q slot, word)) (rw good at h))
    ]

-- The record is copied and set, or it is not.
copied-IsDone :
    (o : Option Bytes) (q : Page) (slot : ℕ) (lsn : ℕ)
    → lsn ≢ 0
    → lsn < 2 ^ 64
    → free_end q < 2 ^ 16
    → let r : Page × Bool = elim o [
      | none ↦ (q, false)
      | some taken ↦ redo_data q slot taken lsn
    ] in
      r.1 ≡ true → IsDone lsn r.0
copied-IsDone none q slot lsn n small word h = absurd (ground (arith, h))
copied-IsDone (some taken) q slot lsn n small word h =
    redo_data-IsDone q slot taken lsn n small word h

redo_set-IsDone :
    (p : Page) (slot : ℕ) (bytes : Bytes) (lsn : ℕ)
    → lsn ≢ 0
    → lsn < 2 ^ 64
    → free_end p < 2 ^ 16
    → (redo_set p slot bytes lsn).1 ≡ true
    → IsDone lsn (redo_set p slot bytes lsn).0
unfolding redo_set
redo_set-IsDone p slot bytes lsn n small word h =
    let q = ensure_init p in
    elim (Bool-cases (already_applied q lsn)) [
      | inl done ↦ rw done (record { ready = ensure_init-ready p; applied = applied_le q lsn done })
      | inr todo ↦ elim (Bool-cases (holds_record (get q slot) bytes)) [
        | inl held ↦ rw (todo, held) (stamp_lsn-IsDone q lsn n small (ensure_init-ready p))
        | inr other ↦
            rw (todo, other)
              (copied-IsDone (copied bytes) q slot lsn n small (ensure_init-word p word)
                (rw (todo, other) at h))
      ]
    ]

redo_clear-IsDone :
    (p : Page) (slot lsn : ℕ) → lsn ≢ 0 → lsn < 2 ^ 64 → IsDone lsn (redo_clear p slot lsn)
unfolding redo_clear
redo_clear-IsDone p slot lsn n small = elim (Bool-cases (already_applied (ensure_init p) lsn)) [
  | inl done ↦
      rw done
        (record { ready = ensure_init-ready p; applied = applied_le (ensure_init p) lsn done })
  | inr todo ↦ rw todo (
      stamp_lsn-IsDone _ lsn n small (
        if_intro (λ x. header_size ≤ free_end x) (ltb slot (slot_count (ensure_init p))) _ _
          (λ _. omega (
            arith,
            ensure_init-ready p,
            free_end-set_slot (ensure_init p) slot (slot_offset (ensure_init p) slot) 0,
          ))
          (λ _. ensure_init-ready p)))
]

redo_set-done :
    (p : Page) (slot : ℕ) (bytes : Bytes) (lsn : ℕ)
    → lsn ≢ 0
    → IsDone lsn p
    → redo_set p slot bytes lsn ≡ (p, true)
unfolding redo_set
redo_set-done p slot bytes lsn n d =
    rw (ensure_init-done p d.ready, already_applied-done p lsn n d.applied)

redo_clear-done : (p : Page) (slot lsn : ℕ) → lsn ≢ 0 → IsDone lsn p → redo_clear p slot lsn ≡ p
unfolding redo_clear
redo_clear-done p slot lsn n d =
    rw (ensure_init-done p d.ready, already_applied-done p lsn n d.applied)

-- Applying a log record a second time, be it a set that succeeded or a clear, leaves the page as
-- the first time left it, and the set succeeds again. The record's LSN is not 0 and fits 64 bits,
-- and the page's free end is a 16-bit word.
pub redo_twice :
    (p : Page) (slot : ℕ) (bytes : Bytes) (lsn : ℕ)
    → lsn ≢ 0
    → lsn < 2 ^ 64
    → free_end p < 2 ^ 16
    → ((redo_set p slot bytes lsn).1 ≡ true
        → redo_set (redo_set p slot bytes lsn).0 slot bytes lsn
          ≡ ((redo_set p slot bytes lsn).0, true))
      × (redo_clear (redo_clear p slot lsn) slot lsn ≡ redo_clear p slot lsn)
redo_twice p slot bytes lsn n small word = (
  (λ h.
      redo_set-done (redo_set p slot bytes lsn).0 slot bytes lsn n
        (redo_set-IsDone p slot bytes lsn n small word h)),
  redo_clear-done (redo_clear p slot lsn) slot lsn n (redo_clear-IsDone p slot lsn n small),
)
