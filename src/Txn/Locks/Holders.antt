-- ===== src/Txn/Locks/Holders.antt =====
-- src/txn/lock_manager.cpp: who holds a row, and how each operation changes it.
use prqlite.Base.{
  ℤ, int_beq, int_eq, int_beq_iff, Bool, true, false, ◌&&◌, List, [], ◌∷◌, Option, none, some, Dict,
  find, insert, erase, get_or, get_or_found, get_or_missing, get_or-insert, get_or-erase,
  find-insert, find-erase, erase-nil, if◌then◌else◌, ◌≡◌, refl, arith, Option-cases, inl, inr,
}
use prqlite.RecordId.{RecordId, rid_beq, rid_beq_iff, rid_eq}
use prqlite.Txn.Locks.{
  Entry, LockMode, shared, exclusive, LockManager, is_exclusive, touch, grant, release, release_all,
}

unfoldable pub contains : RecordId → List RecordId → Bool
contains rid [] = false
contains rid (r ∷ rs) = let rest = contains rid rs in if rid_beq r rid then true else rest

-- The mode in which a transaction holds a row.
unfoldable pub holds : Dict RecordId Entry → RecordId → ℤ → Option LockMode
holds table rid txn = find txn (get_or [] rid table)

pub holds-touch :
    (s : LockManager) (rid r : RecordId) (u : ℤ) → holds (touch s rid).table r u ≡ holds s.table r u
unfolding holds touch
holds-touch s rid r u =
    ground (arith, get_or-insert [] rid r (get_or [] rid s.table) s.table, rid_beq_iff rid r)

pub contains_nil : (rid : RecordId) → contains rid [] ≡ false
unfolding contains
contains_nil rid = refl

-- The mode that a grant leaves: an exclusive lock is not weakened.
abbrev pub join : LockMode → Option LockMode → LockMode
join mode none = mode
join shared (some old) = old
join exclusive (some old) = exclusive

pub holds-grant :
    (s : LockManager) (rid : RecordId) (txn : ℤ) (mode : LockMode) (r : RecordId) (u : ℤ)
    → holds (grant s rid txn mode).table r u ≡ (
        if rid_beq rid r && int_beq txn u
        then some (join mode (holds s.table r u))
        else holds s.table r u)
unfolding holds grant is_exclusive
holds-grant s rid txn mode r u =
    let entry = get_or [] rid s.table in
    ground (
      arith,
      get_or-insert [] rid r (insert txn mode entry) s.table,
      get_or-insert [] rid r (insert txn exclusive entry) s.table,
      get_or-insert [] rid r entry s.table,
      find-insert txn u mode entry,
      find-insert txn u exclusive entry,
      rid_beq_iff rid r,
      int_beq_iff txn u,
    )

-- A release drops the transaction from the row's entry; a dropped entry is an empty one.
pub get_or-release :
    (txn : ℤ) (rid : RecordId) (table : Dict RecordId Entry) (r : RecordId)
    → get_or [] r (release txn rid table)
      ≡ (if rid_beq rid r then erase txn (get_or [] rid table) else get_or [] r table)
unfolding release
get_or-release txn rid table r = elim (Option-cases (find rid table)) [
  | inl missing ↦ ground (
    arith,
    missing,
    get_or_missing [] rid table missing,
    erase-nil {V = LockMode} txn,
    rid_beq_iff rid r,
  )
  | inr (entry, found) ↦ ground (
    arith,
    found,
    get_or_found [] entry rid table found,
    get_or-erase [] rid r table,
    get_or-insert [] rid r (erase txn entry) table,
    rid_beq_iff rid r,
  )
]

pub holds-release :
    (txn : ℤ) (rid : RecordId) (table : Dict RecordId Entry) (r : RecordId) (u : ℤ)
    → holds (release txn rid table) r u
      ≡ (if rid_beq rid r && int_beq txn u then none else holds table r u)
unfolding holds
holds-release txn rid table r u = ground (
  arith,
  get_or-release txn rid table r,
  find-erase txn u (get_or [] rid table),
  rid_beq_iff rid r,
)

pub holds-release_all :
    (txn : ℤ) (rids : List RecordId) (table : Dict RecordId Entry) (r : RecordId) (u : ℤ)
    → holds (release_all txn rids table) r u
      ≡ (if contains r rids && int_beq txn u then none else holds table r u)
unfolding release_all contains
holds-release_all txn [] table r u = refl
holds-release_all txn (rid ∷ rids) table r u =
    ground (
      arith,
      holds-release_all txn rids (release txn rid table) r u,
      holds-release txn rid table r u,
    )
