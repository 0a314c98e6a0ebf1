-- ===== src/Txn/Locks/Release.antt =====
-- src/txn/lock_manager.cpp: what a request and a release do to every holder.
use prqlite.Base.{
  ℤ, int_beq, int_eq, int_beq_iff, true, ◌&&◌, List, [], ◌∷◌, none, some, find, get_or,
  if◌then◌else◌, get_or_found, get_or_missing, ◌≡◌, ◌≢◌, ◌↔◌, arith, Option-cases, Bool-cases, inl,
  inr,
}
use prqlite.RecordId.{RecordId, rid_beq, rid_beq_iff, rid_eq}
use prqlite.Txn.Locks.{
  LockMode, exclusive, LockManager, can_grant, touch, grant, try_lock, lock, unlock_all,
}
use prqlite.Txn.Locks.Valid.{IsValid, Compatible, can_grant_sound, can_grant_complete}
use prqlite.Txn.Locks.Holders.{
  holds, holds-touch, holds-grant, join, contains_nil, holds-release_all,
}

granted :
    (s : LockManager) (txn : ℤ) (rid : RecordId) (mode : LockMode)
    → (m : LockMode) × (holds (grant s rid txn mode).table rid txn ≡ some m)
      × (mode ≡ exclusive → m ≡ exclusive)
granted s txn rid mode = (
  join mode (holds s.table rid txn),
  ground (arith, holds-grant s rid txn mode rid txn, rid_beq_iff rid rid, int_beq_iff txn txn),
  (λ e. ground arith),
)

-- On a valid table `try_lock` succeeds exactly when every other transaction that holds the row
-- shares it and the request shares it too.
pub try_lock_iff :
    {s : LockManager}
    → IsValid s
    → (txn : ℤ) (rid : RecordId) (mode : LockMode)
    → ((try_lock s txn rid mode).1 ≡ true) ↔ (
        (u : ℤ) (held : LockMode)
        → holds s.table rid u ≡ some held
        → u ≢ txn
        → Compatible mode held)
unfolding try_lock holds
try_lock_iff {s} v txn rid mode =
    let entry = get_or [] rid s.table in
    (
      (λ h u held e ne. can_grant_sound entry txn mode u held (ground arith) e ne),
      (λ all. ground (arith, can_grant_complete entry txn mode (v.distinct rid) all)),
    )

-- A refused `try_lock` leaves every holder as it was; a granted one gives the row to the
-- transaction, in the stronger of the mode asked for and the mode that it had, and leaves every
-- other holder as it was.
pub holds-try_lock :
    (s : LockManager) (txn : ℤ) (rid : RecordId) (mode : LockMode) (r : RecordId) (u : ℤ)
    → holds (try_lock s txn rid mode).0.table r u ≡ (
        if (try_lock s txn rid mode).1 && (rid_beq rid r && int_beq txn u)
        then some (join mode (holds s.table r u))
        else holds s.table r u)
unfolding try_lock
holds-try_lock s txn rid mode r u =
    ground (arith, holds-grant s rid txn mode r u, holds-touch s rid r u)

-- However often a waiting `lock` is woken, and whatever other threads did in between: if it
-- returns true, the transaction holds the row, and exclusively if it asked for that.
pub lock-holds :
    (others : List (LockManager → LockManager)) (s : LockManager) (txn : ℤ) (rid : RecordId)
    (mode : LockMode)
    → (lock others s txn rid mode).1 ≡ true
    → (m : LockMode) × (holds (lock others s txn rid mode).0.table rid txn ≡ some m)
      × (mode ≡ exclusive → m ≡ exclusive)
unfolding lock
lock-holds [] s txn rid mode h = elim (Bool-cases (can_grant (get_or [] rid s.table) txn mode)) [
  | inl free ↦ rw (free, lock) (granted s txn rid mode)
  | inr taken ↦ absurd (ground (arith, taken))
]
lock-holds (f ∷ fs) s txn rid mode h =
    elim (Bool-cases (can_grant (get_or [] rid s.table) txn mode)) [
      | inl free ↦ rw (free, lock) (granted s txn rid mode)
      | inr taken ↦
          rw (taken, lock) (lock-holds fs (f (touch s rid)) txn rid mode (rw (taken, lock) at h))
    ]

-- The end of a transaction: on a valid table `unlock_all` takes the transaction off every row,
-- and leaves every other transaction's locks as they were.
pub holds-unlock_all :
    {s : LockManager}
    → IsValid s
    → (txn : ℤ) (r : RecordId) (u : ℤ)
    → holds (unlock_all s txn).table r u ≡ (if int_beq txn u then none else holds s.table r u)
unfolding unlock_all
holds-unlock_all {s} v txn r u = elim (Option-cases (find txn s.held_by_txn)) [
  | inl missing ↦ ground (
    arith,
    missing,
    get_or_missing [] txn s.held_by_txn missing,
    contains_nil r,
    int_beq_iff txn u,
    v.listed r u,
  )
  | inr (rids, found) ↦ ground (
    arith,
    found,
    get_or_found [] rids txn s.held_by_txn found,
    holds-release_all txn rids s.table r u,
    int_beq_iff txn u,
    v.listed r u,
  )
]
