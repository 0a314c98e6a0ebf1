-- ===== src/Vm/Versions/History.antt =====
-- src/vm/version_store.cpp: `reconstruct` against the plain history of each row.
use prqlite.Base.{
  ℕ, suc, ◌<◌, ◌≤◌, ℤ, int_beq, int_eq, Bool, ◌&&◌, List, [], ◌∷◌, Option, none, some, find, get_or,
  find-insert, find-nil, if_intro, if◌then◌else◌, ltb, leb, Bytes, length, get_elem?, ◌≡◌, ◌≢◌,
  refl, arith, ap, ◌∙◌,
}
use prqlite.RecordId.{RecordId, rid_beq, rid_beq_iff, rid_eq}
use prqlite.Vm.Versions.{
  Change, BaseRow, Rebuild, VersionStore, no_rows, push, load, overlay, replay, live_rows,
  reconstruct,
}
use prqlite.Vm.Versions.Index.{
  lookup_row, value, rid_at, IsIndexed, no_rows-IsIndexed, push-IsIndexed, value-push,
  overlay-IsIndexed, value-overlay, lookup_row_absent, lookup_row-live_rows,
}

-- What a row holds after a change.
abbrev pub changed : Change → RecordId → Option Bytes → Option Bytes
changed c r o = if rid_beq c.rid r then if c.is_delete then none else some c.bytes else o

-- What a row of a table holds after the changes whose versions lie above `lo` and up to `hi`.
unfoldable pub row_history : ℤ → ℕ → ℕ → RecordId → Option Bytes → List Change → Option Bytes
row_history table lo hi r o [] = o
row_history table lo hi r o (c ∷ cs) =
    row_history table lo hi r
      (if ltb lo c.version && (leb c.version hi && int_beq c.table_id table)
        then changed c r o
        else o)
      cs

-- The versions do not fall, and lie between two bounds.
abbrev pub Sorted : ℕ → ℕ → List Change → Type 0
Sorted lo hi [] = lo ≤ hi
Sorted lo hi (c ∷ cs) = (lo ≤ c.version) × Sorted c.version hi cs

abbrev pub DistinctRows : List BaseRow → Type 0
DistinctRows [] = Unit
DistinctRows (row ∷ rows) = (lookup_row row.rid rows ≡ none) × DistinctRows rows

-- Past its upper bound a history stands still.
pub row_history_after :
    (table : ℤ) (lo hi : ℕ) (r : RecordId) (o : Option Bytes) (v top : ℕ) (cs : List Change)
    → hi < v
    → Sorted v top cs
    → row_history table lo hi r o cs ≡ o
unfolding row_history
row_history_after table lo hi r o v top [] h s = refl
row_history_after table lo hi r o v top (c ∷ cs) h s =
    ground (arith, row_history_after table lo hi r o c.version top cs (omega arith) s.1)

pub replay-IsIndexed :
    (table : ℤ) (base version : ℕ) (st : Rebuild) (cs : List Change)
    → IsIndexed st
    → IsIndexed (replay table base version st cs)
unfolding replay
replay-IsIndexed table base version st [] h = h
replay-IsIndexed table base version st (c ∷ cs) h =
    if_intro IsIndexed (leb c.version base) _ _ (λ _. replay-IsIndexed table base version st cs h)
      (λ _.
        if_intro IsIndexed (ltb version c.version) _ _ (λ _. h)
          (λ _.
            if_intro IsIndexed (int_beq c.table_id table) _ _
              (λ _.
                replay-IsIndexed table base version (overlay st c) cs (overlay-IsIndexed st h c))
              (λ _. replay-IsIndexed table base version st cs h)))

pub value-replay :
    (table : ℤ) (base version : ℕ) (st : Rebuild) (lo top : ℕ) (cs : List Change) (r : RecordId)
    → IsIndexed st
    → Sorted lo top cs
    → value (replay table base version st cs) r ≡ row_history table base version r (value st r) cs
unfolding replay row_history
value-replay table base version st lo top [] r h s = refl
value-replay table base version st lo top (c ∷ cs) r h s = ground (
  arith,
  value-overlay st h c r,
  value-replay table base version st c.version top cs r h s.1,
  value-replay table base version (overlay st c) c.version top cs r (overlay-IsIndexed st h c) s.1,
  row_history_after table base version r (value st r) c.version top cs,
  s.1,
)

-- No row of the list has a position yet.
abbrev Fresh : Rebuild → List BaseRow → Type 0
Fresh st rows = (r : RecordId) → lookup_row r rows ≢ none → find r st.pos ≡ none

Fresh-push :
    (st : Rebuild) (row : BaseRow) (rows : List BaseRow)
    → DistinctRows (row ∷ rows)
    → Fresh st (row ∷ rows)
    → Fresh (push st row) rows
unfolding push lookup_row
Fresh-push st row rows d f r there =
    ground
      (arith, there, d.0, f r, rid_beq_iff row.rid r, find-insert row.rid r (length st.rows) st.pos)

load_lem :
    (st : Rebuild) (rows : List BaseRow)
    → IsIndexed st
    → DistinctRows rows
    → Fresh st rows
    → IsIndexed (load st rows)
      × ((r : RecordId)
          → value (load st rows) r
            ≡ elim (lookup_row r rows) [ none ↦ value st r | some b ↦ some b ])
unfolding load lookup_row
load_lem st [] h d f = (h, (λ r. refl))
load_lem st (row ∷ rows) h d f =
    let new : find row.rid st.pos ≡ none =
      f row.rid (λ e. ground (arith, rid_beq_iff row.rid row.rid)) in
    let (indexed, values) =
      load_lem (push st row) rows (push-IsIndexed st h row new) d.1
        (λ r there. Fresh-push st row rows d f r there) in
    (
      indexed,
      (λ r. ground (arith, values r, value-push st h row new r, rid_beq_iff row.rid r, d.0)),
    )

pub no_rows-load :
    (rows : List BaseRow)
    → DistinctRows rows
    → IsIndexed (load no_rows rows)
      × ((r : RecordId) → value (load no_rows rows) r ≡ lookup_row r rows)
unfolding value
no_rows-load rows d =
    let (indexed, values) = load_lem no_rows rows no_rows-IsIndexed d (λ r there. find-nil r) in
    (indexed, (λ r. ground (arith, values r, find-nil {V = ℕ} r)))

-- What comes out names no row twice.
DistinctRows-live_rows :
    (rows : List BaseRow) (live : List Bool)
    → ((i j : ℕ) (r : RecordId) → rid_at rows i ≡ some r → rid_at rows j ≡ some r → i ≡ j)
    → DistinctRows (live_rows rows live)
unfolding live_rows rid_at get_elem?
DistinctRows-live_rows [] live one = tt
DistinctRows-live_rows (row ∷ rows) [] one = tt
DistinctRows-live_rows (row ∷ rows) (b ∷ live) one =
    let rest =
      DistinctRows-live_rows rows live (λ i j r p q. omega (arith, one (suc i) (suc j) r p q)) in
    if_intro DistinctRows b _ _
      (λ _. (
        lookup_row_absent row.rid rows live
            (λ j e. absurd (omega (arith, one 0 (suc j) row.rid refl e))),
        rest,
      ))
      (λ _. rest)

pub DistinctRows-rebuilt : (st : Rebuild) → IsIndexed st → DistinctRows (live_rows st.rows st.live)
DistinctRows-rebuilt st h =
    DistinctRows-live_rows st.rows st.live (λ i j r p q. cc (h.backward r i p, h.backward r j q))

-- Over distinct baseline rows and a sorted log, the rows of a reconstruction are those of the
-- plain histories, and none stands twice.
pub reconstruct_lem :
    (s : VersionStore) (table : ℤ) (version lo top : ℕ)
    → DistinctRows (get_or [] table s.baseline)
    → Sorted lo top s.log
    → DistinctRows (reconstruct s table version)
      × ((r : RecordId)
          → lookup_row r (reconstruct s table version)
            ≡ row_history table s.baseline_version version r
                (lookup_row r (get_or [] table s.baseline))
                s.log)
unfolding reconstruct
reconstruct_lem s table version lo top d sorted =
    let rows = get_or [] table s.baseline in
    let (indexed, values) = no_rows-load rows d in
    let st = replay table s.baseline_version version (load no_rows rows) s.log in
    let done : IsIndexed st =
      replay-IsIndexed table s.baseline_version version (load no_rows rows) s.log indexed in
    (
      DistinctRows-rebuilt st done,
      (λ r.
          lookup_row-live_rows st r done
          ∙ value-replay table s.baseline_version version (load no_rows rows) lo top s.log r indexed
              sorted
          ∙ ap (λ o. row_history table s.baseline_version version r o s.log) (values r)),
    )
