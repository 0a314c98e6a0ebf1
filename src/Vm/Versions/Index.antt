-- ===== src/Vm/Versions/Index.antt =====
-- src/vm/version_store.cpp: the index `pos` of the rebuilt rows, and what a rebuild says of a row.
use mathlib.Core.Option
use prqlite.Base.{
  ℕ, zero, suc, ◌<◌, Bool, true, false, List, [], ◌∷◌, ◌++◌, Option, none, some, find, find-insert,
  if_intro, if◌then◌else◌, ◌==◌, Bytes, length, modify, get_elem?, length-modify, get_elem?-modify,
  get_elem?-snoc, get_elem?-lt, get_elem?_of_lt, length-append, ◌≡◌, ◌≢◌, refl, sym, arith, ◌∙◌,
  Option-cases, Bool-cases, inl, inr,
}
use prqlite.RecordId.{RecordId, rid_beq, rid_beq_iff, rid_eq}
use prqlite.Vm.Versions.{Change, BaseRow, Rebuild, no_rows, push, overlay, live_rows}

-- The image of the row with the record id, in a list of rows.
unfoldable pub lookup_row : RecordId → List BaseRow → Option Bytes
lookup_row r [] = none
lookup_row r (row ∷ rows) =
    let rest = lookup_row r rows in if rid_beq row.rid r then some row.bytes else rest

abbrev row_of : Change → BaseRow
row_of c = record { rid = c.rid; bytes = c.bytes }

-- The image of the row in a rebuild, by way of its position.
unfoldable pub value : Rebuild → RecordId → Option Bytes
value st r = elim (find r st.pos) [
  | none ↦ none
  | some i ↦ elim (get_elem? st.live i) [
    | none ↦ none
    | some b ↦ if b then Option.map (λ row. row.bytes) (get_elem? st.rows i) else none
  ]
]

-- The record id of the row at a position.
unfoldable pub rid_at : List BaseRow → ℕ → Option RecordId
rid_at rows i = Option.map (λ row. row.rid) (get_elem? rows i)

rid_at-snoc :
    (rows : List BaseRow) (row : BaseRow) (i : ℕ)
    → rid_at (rows ++ row ∷ []) i ≡ (if i == length rows then some row.rid else rid_at rows i)
unfolding rid_at
rid_at-snoc rows row i = ground (arith, get_elem?-snoc rows row i)

rid_at-modify :
    (rows : List BaseRow) (j : ℕ) (bytes : Bytes) (i : ℕ)
    → rid_at (modify rows j (λ row. record row { bytes = bytes })) i ≡ rid_at rows i
unfolding rid_at
rid_at-modify rows j bytes i =
    ground (arith, get_elem?-modify rows j i (λ row. record row { bytes = bytes }))

rid_at-lt : (rows : List BaseRow) (i : ℕ) (r : RecordId) → rid_at rows i ≡ some r → i < length rows
unfolding rid_at
rid_at-lt rows i r h = elim (Option-cases (get_elem? rows i)) [
  | inl out ↦ absurd (ground (arith, out))
  | inr (row, at) ↦ get_elem?-lt rows i row at
]

-- `pos` and the rows belong together, and each row has its flag.
pub record IsIndexed (st : Rebuild) : Type 0 where
  pub flags : length st.live ≡ length st.rows
  pub forward : (r : RecordId) (i : ℕ) → find r st.pos ≡ some i → rid_at st.rows i ≡ some r
  pub backward : (r : RecordId) (i : ℕ) → rid_at st.rows i ≡ some r → find r st.pos ≡ some i

pub no_rows-IsIndexed : IsIndexed no_rows
unfolding get_elem? find rid_at
no_rows-IsIndexed = record { flags = refl; forward = λ r i h. cc; backward = λ r i h. cc }

module _ (st : Rebuild) (h : IsIndexed st) where
  module _ (row : BaseRow) (new : find row.rid st.pos ≡ none) where
    pub push-IsIndexed : IsIndexed (push st row)
    unfolding push
    push-IsIndexed = record {
      flags = omega (
        arith,
        h.flags,
        length-append {0} st.live (true ∷ []),
        length-append {0} st.rows (row ∷ []),
      );
      forward = λ r i e. ground (
        arith,
        find-insert row.rid r (length st.rows) st.pos,
        rid_beq_iff row.rid r,
        rid_at-snoc st.rows row i,
        rid_at-lt st.rows i r,
        h.forward r i,
      );
      backward = λ r i e. ground (
        arith,
        find-insert row.rid r (length st.rows) st.pos,
        rid_beq_iff row.rid r,
        rid_at-snoc st.rows row i,
        rid_at-lt st.rows i r,
        h.backward r i,
      );
    }

    pub value-push :
        (r : RecordId)
        → value (push st row) r ≡ (if rid_beq row.rid r then some row.bytes else value st r)
    unfolding value push
    value-push r = elim (Option-cases (find r st.pos)) [
      | inl out ↦ ground (
        arith,
        out,
        h.flags,
        find-insert row.rid r (length st.rows) st.pos,
        get_elem?-snoc st.rows row (length st.rows),
        get_elem?-snoc st.live true (length st.rows),
      )
      | inr (i, at) ↦ ground (
        arith,
        at,
        new,
        h.flags,
        rid_beq_iff row.rid r,
        find-insert row.rid r (length st.rows) st.pos,
        rid_at-lt st.rows i r (h.forward r i at),
        get_elem?-snoc st.rows row i,
        get_elem?-snoc st.live true i,
      )
    ]

  pub overlay-IsIndexed : (c : Change) → IsIndexed (overlay st c)
  unfolding overlay
  overlay-IsIndexed c = elim (Option-cases (find c.rid st.pos)) [
    | inl new ↦
        rw (new, overlay)
          (if_intro IsIndexed c.is_delete _ _ (λ _. h) (λ _. push-IsIndexed (row_of c) new))
    | inr (i, old) ↦
        rw (old, overlay)
          (if_intro IsIndexed c.is_delete _ _
            (λ _. record {
              flags = length-modify st.live i (λ _. false) ∙ h.flags;
              forward = h.forward;
              backward = h.backward;
            })
            (λ _. record {
              flags = omega (
                arith,
                h.flags,
                length-modify {0} st.live i (λ _. true),
                length-modify {0} st.rows i (λ row. record row { bytes = c.bytes }),
              );
              forward = λ r j e. rid_at-modify st.rows i c.bytes j ∙ h.forward r j e;
              backward = λ r j e. h.backward r j (sym (rid_at-modify st.rows i c.bytes j) ∙ e);
            }))
  ]

  value-overlay_new :
      (c : Change) (r : RecordId)
      → find c.rid st.pos ≡ none
      → value (overlay st c) r
        ≡ (if rid_beq c.rid r then if c.is_delete then none else some c.bytes else value st r)
  unfolding overlay value
  value-overlay_new c r new = elim (Bool-cases c.is_delete) [
    | inl gone ↦ ground (arith, new, gone, rid_beq_iff c.rid r)
    | inr put ↦ rw (new, overlay) (rw put (value-push (row_of c) new r))
  ]

  value-overlay_old :
      (c : Change) (r : RecordId) (i : ℕ)
      → find c.rid st.pos ≡ some i
      → value (overlay st c) r
        ≡ (if rid_beq c.rid r then if c.is_delete then none else some c.bytes else value st r)
  unfolding overlay value
  value-overlay_old c r i old =
      let at = rid_at-lt st.rows i c.rid (h.forward c.rid i old) in
      let (row, in_rows) = get_elem?_of_lt {A = BaseRow} st.rows i at in
      let (b, in_live) = get_elem?_of_lt {A = Bool} st.live i (omega (arith, h.flags)) in
      elim (Option-cases (find r st.pos)) [
        | inl out ↦ ground (arith, old, out, rid_beq_iff c.rid r)
        | inr (j, here) ↦ ground (
          arith,
          old,
          here,
          in_rows,
          in_live,
          rid_beq_iff c.rid r,
          h.forward r j here,
          h.forward c.rid i old,
          get_elem?-modify st.live i j (λ _. false),
          get_elem?-modify st.live i j (λ _. true),
          get_elem?-modify st.rows i j (λ row. record row { bytes = c.bytes }),
        )
      ]

  -- A change puts or takes away the row that it names, and no other row.
  pub value-overlay :
      (c : Change) (r : RecordId)
      → value (overlay st c) r
        ≡ (if rid_beq c.rid r then if c.is_delete then none else some c.bytes else value st r)
  value-overlay c r = elim (Option-cases (find c.rid st.pos)) [
    | inl new ↦ value-overlay_new c r new
    | inr (i, old) ↦ value-overlay_old c r i old
  ]

pub lookup_row_absent :
    (r : RecordId) (rows : List BaseRow) (live : List Bool)
    → ((j : ℕ) → rid_at rows j ≢ some r)
    → lookup_row r (live_rows rows live) ≡ none
unfolding lookup_row live_rows rid_at get_elem?
lookup_row_absent r [] live out = refl
lookup_row_absent r (row ∷ rows) [] out = refl
lookup_row_absent r (row ∷ rows) (b ∷ live) out =
    ground (arith, rid_beq_iff row.rid r, out 0, lookup_row_absent r rows live (λ j. out (suc j)))

-- The rows that come out are looked up with the values of the rebuild.
lookup_row_present :
    (r : RecordId) (rows : List BaseRow) (live : List Bool) (i : ℕ)
    → length live ≡ length rows
    → rid_at rows i ≡ some r
    → ((j : ℕ) → rid_at rows j ≡ some r → j ≡ i)
    → lookup_row r (live_rows rows live) ≡ elim (get_elem? live i) [
      | none ↦ none
      | some b ↦ if b then Option.map (λ row. row.bytes) (get_elem? rows i) else none
    ]
unfolding lookup_row live_rows rid_at get_elem?
lookup_row_present r [] live i l at once = cc
lookup_row_present r (row ∷ rows) [] i l at once = absurd (omega arith)
lookup_row_present r (row ∷ rows) (b ∷ live) zero l at once = ground (
  arith,
  rid_beq_iff row.rid r,
  lookup_row_absent r rows live (λ j e. absurd (omega (arith, once (suc j) e))),
)
lookup_row_present r (row ∷ rows) (b ∷ live) (suc i) l at once = ground (
  arith,
  rid_beq_iff row.rid r,
  once 0,
  lookup_row_present r rows live i (omega arith) at (λ j e. omega (arith, once (suc j) e)),
)

pub lookup_row-live_rows :
    (st : Rebuild) (r : RecordId)
    → IsIndexed st
    → lookup_row r (live_rows st.rows st.live) ≡ value st r
unfolding value
lookup_row-live_rows st r h = elim (Option-cases (find r st.pos)) [
  | inl out ↦ rw (out, value) (lookup_row_absent r st.rows st.live (λ j e. cc (h.backward r j e)))
  | inr (i, here) ↦
      rw (here, value)
        (lookup_row_present r st.rows st.live i h.flags (h.forward r i here)
          (λ j e. ground (arith, h.backward r j e)))
]
