-- ===== src/Tests/Pages.antt =====
-- src/backend/page.cpp on an empty page and on one with a record.
use prqlite.Base.{
  ◌^◌, true, ℕ, ◌<◌, [], ◌∷◌, ◌≡◌, ◌↔◌, take, refl, none, some, le_bytes, of_le, arith,
}
use prqlite.Backend.Page.{
  Page, init, insert, get, erase, update, write, read, read_u16, write_u16, slot_count, slot_length,
  slot_offset, set_slot, free_end, lacks_space, lacks_usable, live_bytes, compact, page_lsn, place,
  is_live, copied, insert_data, update_data,
}
use prqlite.Backend.Page.Layout.{IsValid}
use prqlite.Backend.Page.Compact.{Compacted, compact_lem}
use prqlite.Backend.Page.Place.{Inserted}
use prqlite.Backend.Page.Insert.{insert-Inserted}
use prqlite.Backend.Page.Fits.{insert_fits}
use prqlite.Backend.Page.Redo.{redo_set, redo_data, redo_clear}
use prqlite.Backend.Page.Twice.{redo_twice}
use prqlite.Backend.Page.Shrink.{Rewritten, Refused, erase_lem, update_lem}

run_page : Page → Unit {0}
unfolding init insert get erase update write read read_u16 write_u16 slot_count slot_length
    slot_offset set_slot free_end lacks_space lacks_usable live_bytes compact page_lsn place is_live
    le_bytes of_le copied insert_data update_data take
run_page p = tt

init-IsValid : IsValid init
unfolding run_page
init-IsValid = record {
  room = omega arith;
  bound = omega arith;
  inside = λ s b l. absurd (omega arith);
  apart = λ s t b b' ne l l'. absurd (omega arith);
}

-- `insert` on the empty page.
abbrev one : Page
one = write_u16 (write_u16 (place init 0 (7 ∷ 8 ∷ [])) 0 1) 2 4094

inserts : insert init (7 ∷ 8 ∷ []) ≡ some (one, 0)
unfolding run_page
inserts = refl

insert-Inserted_example : Inserted init one 0 (7 ∷ 8 ∷ []) × (◌≡◌ {A = ℕ} 0 (slot_count init))
insert-Inserted_example = insert-Inserted init (7 ∷ 8 ∷ []) init-IsValid (omega arith) inserts

one-IsValid : IsValid one
one-IsValid = (insert-Inserted init (7 ∷ 8 ∷ []) init-IsValid (omega arith) inserts).0.valid

insert_fits_example :
    (q' : Page) × (insert one (1 ∷ 2 ∷ 3 ∷ []) ≡ some (q', slot_count one))
    × Inserted one q' (slot_count one) (1 ∷ 2 ∷ 3 ∷ [])
unfolding run_page
insert_fits_example =
    insert_fits one (1 ∷ 2 ∷ 3 ∷ []) one-IsValid (λ e. absurd (omega arith)) (omega arith)

compact_lem_example : Compacted one (compact one)
unfolding run_page
compact_lem_example = compact_lem one (omega arith)

erase_lem_example :
    ((erase one 0 ≡ none) ↔ (get one 0 ≡ none))
    × ((q' : Page) → erase one 0 ≡ some q' → Rewritten one q' 0 none)
erase_lem_example = erase_lem one 0 one-IsValid

update_lem_example :
    ((update one 0 (9 ∷ []) ≡ none) ↔ Refused one 0 one-IsValid (9 ∷ []))
    × ((q' : Page) → update one 0 (9 ∷ []) ≡ some q' → Rewritten one q' 0 (some (9 ∷ [])))
update_lem_example = update_lem one 0 one-IsValid (9 ∷ []) (omega arith)

one-free_end : free_end one < 2 ^ 16
unfolding run_page
one-free_end = omega arith

-- The set succeeds.
redo_succeeds : (redo_set one 3 (9 ∷ 9 ∷ []) 5).1 ≡ true
unfolding run_page redo_set redo_data
redo_succeeds = refl

redo_twice_example :
    ((redo_set one 3 (9 ∷ 9 ∷ []) 5).1 ≡ true
      → redo_set (redo_set one 3 (9 ∷ 9 ∷ []) 5).0 3 (9 ∷ 9 ∷ []) 5
        ≡ ((redo_set one 3 (9 ∷ 9 ∷ []) 5).0, true))
    × (redo_clear (redo_clear one 3 5) 3 5 ≡ redo_clear one 3 5)
redo_twice_example =
    redo_twice one 3 (9 ∷ 9 ∷ []) 5 (λ e. absurd (omega arith)) (omega arith) one-free_end
