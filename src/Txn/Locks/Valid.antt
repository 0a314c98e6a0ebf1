-- ===== src/Txn/Locks/Valid.antt =====
-- src/txn/lock_manager.cpp: the invariant of the lock table, kept by each operation.
use prqlite.Base.{
  ℤ, int_eq, int_beq_iff, true, false, List, [], ◌∷◌, ◌++◌, none, some, Dict, find, get_or,
  if◌then◌else◌, if_intro, get_or-insert, get_or-erase, get_or_found, ◌≡◌, ◌≢◌, refl, arith,
  Option-cases, Bool-cases, inl, inr, Distinct, insert-Distinct, erase-Distinct,
}
use prqlite.RecordId.{RecordId, rid_beq, rid_beq_iff, rid_eq}
use prqlite.Txn.Locks.{
  Entry, LockMode, shared, exclusive, LockManager, no_locks, can_grant, is_exclusive, touch, grant,
  try_lock, lock, release, remove_rid, release_all, unlock, unlock_all,
}
use prqlite.Txn.Locks.Holders.{
  holds, holds-touch, holds-grant, holds-release, get_or-release, contains, holds-release_all,
}

-- Two transactions may hold a row together only if both share it.
abbrev pub Compatible : LockMode → LockMode → Type 0
Compatible mode held = (mode ≡ shared) × (held ≡ shared)

pub can_grant_sound :
    (entry : Entry) (txn : ℤ) (mode : LockMode) (u : ℤ) (held : LockMode)
    → can_grant entry txn mode ≡ true
    → find u entry ≡ some held
    → u ≢ txn
    → Compatible mode held
unfolding can_grant is_exclusive find
can_grant_sound [] txn mode u held g f ne = cc
can_grant_sound ((h, m) ∷ entry) txn mode u held g f ne =
    ground (arith, int_beq_iff h txn, int_beq_iff h u, can_grant_sound entry txn mode u held)

-- A refused request meets a holder that it is not compatible with.
pub can_grant_complete :
    (entry : Entry) (txn : ℤ) (mode : LockMode)
    → Distinct entry
    → ((u : ℤ) (held : LockMode) → find u entry ≡ some held → u ≢ txn → Compatible mode held)
    → can_grant entry txn mode ≡ true
unfolding can_grant is_exclusive find
can_grant_complete [] txn mode d all = refl
can_grant_complete ((h, m) ∷ entry) txn mode d all =
    let ih : can_grant entry txn mode ≡ true =
      can_grant_complete entry txn mode d.1
        (λ u held f ne. all u held (ground (arith, int_beq_iff h u)) ne) in
    ground (arith, int_beq_iff h txn, int_beq_iff h h, all h m, ih)

contains-append :
    (rid r : RecordId) (rs : List RecordId)
    → contains rid (rs ++ r ∷ []) ≡ (if rid_beq r rid then true else contains rid rs)
unfolding contains
contains-append rid r [] = refl
contains-append rid r (x ∷ rs) = ground (arith, contains-append rid r rs)

contains-remove_rid :
    (rid r : RecordId) (rs : List RecordId)
    → contains r (remove_rid rid rs) ≡ (if rid_beq rid r then false else contains r rs)
unfolding contains remove_rid
contains-remove_rid rid r [] = ground arith
contains-remove_rid rid r (x ∷ rs) =
    ground
      (arith, contains-remove_rid rid r rs, rid_beq_iff x rid, rid_beq_iff x r, rid_beq_iff rid r)

pub record IsValid (s : LockManager) : Type 0 where
  pub distinct : (rid : RecordId) → Distinct (get_or [] rid s.table)
  pub exclusion :
      (rid : RecordId) (t u : ℤ)
      → t ≢ u
      → holds s.table rid t ≡ some exclusive
      → holds s.table rid u ≡ none
  pub listed :
      (rid : RecordId) (t : ℤ)
      → holds s.table rid t ≢ none
      → contains rid (get_or [] t s.held_by_txn) ≡ true

pub no_locks-IsValid : IsValid no_locks
unfolding holds find get_or
no_locks-IsValid = record {
  distinct = λ rid. tt;
  exclusion = λ rid t u ne h. refl;
  listed = λ rid t h. absurd (h refl);
}

touch-IsValid : {s : LockManager} (rid : RecordId) → IsValid s → IsValid (touch s rid)
unfolding touch
touch-IsValid {s} rid v = record {
  distinct = λ r.
      rw get_or-insert
        (if_intro Distinct (rid_beq rid r) _ _ (λ _. v.distinct rid) (λ _. v.distinct r));
  exclusion = λ r t u ne. rw (holds-touch s rid r t, holds-touch s rid r u) (v.exclusion r t u ne);
  listed = λ r t. rw holds-touch (v.listed r t);
}

module _ (s : LockManager) (rid : RecordId) (txn : ℤ) (mode : LockMode)
    (free : can_grant (get_or [] rid s.table) txn mode ≡ true) where
  granted-Compatible :
      (r : RecordId) (u : ℤ) (held : LockMode)
      → rid_beq rid r ≡ true
      → holds s.table r u ≡ some held
      → u ≢ txn
      → Compatible mode held
  unfolding holds
  granted-Compatible r u held e h ne =
      can_grant_sound (get_or [] rid s.table) txn mode u held free (rw ((rid_beq_iff rid r).0 e) h)
        ne

  grant-exclusion :
      IsValid s
      → (r : RecordId) (t u : ℤ) → t ≢ u
      → holds (grant s rid txn mode).table r t ≡ some exclusive
      → holds (grant s rid txn mode).table r u ≡ none
  grant-exclusion v r t u ne h = elim (Option-cases (holds s.table r u)) [
    | inl unheld ↦ ground (
      arith,
      unheld,
      holds-grant s rid txn mode r t,
      holds-grant s rid txn mode r u,
      int_beq_iff txn t,
      int_beq_iff txn u,
      granted-Compatible r t exclusive,
    )
    | inr (held, e) ↦ ground (
      arith,
      e,
      holds-grant s rid txn mode r t,
      holds-grant s rid txn mode r u,
      int_beq_iff txn t,
      int_beq_iff txn u,
      v.exclusion r t u ne,
      granted-Compatible r t exclusive,
      granted-Compatible r u held,
    )
  ]

  grant-Distinct : IsValid s → (r : RecordId) → Distinct (get_or [] r (grant s rid txn mode).table)
  unfolding grant is_exclusive
  grant-Distinct v r = elim (Option-cases (find txn (get_or [] rid s.table))) [
    | inl new ↦
        rw (new, grant)
          (rw get_or-insert (
            if_intro Distinct (rid_beq rid r) _ _ (λ _. insert-Distinct txn mode _ (v.distinct rid))
              (λ _. v.distinct r)))
    | inr (old, e) ↦
        rw (e, grant)
          (rw get_or-insert (
            if_intro Distinct (rid_beq rid r) _ _
              (λ _.
                if_intro Distinct (is_exclusive mode) _ _
                  (λ _. insert-Distinct txn exclusive _ (v.distinct rid)) (λ _. v.distinct rid))
              (λ _. v.distinct r)))
  ]

  grant-listed :
      IsValid s
      → (r : RecordId) (t : ℤ) → holds (grant s rid txn mode).table r t ≢ none
      → contains r (get_or [] t (grant s rid txn mode).held_by_txn) ≡ true
  unfolding grant is_exclusive holds
  grant-listed v r t h =
      let rids = get_or [] txn s.held_by_txn in
      ground (
        arith,
        holds-grant s rid txn mode r t,
        get_or-insert [] txn t (rids ++ rid ∷ []) s.held_by_txn,
        contains-append r rid rids,
        int_beq_iff txn t,
        rid_beq_iff rid r,
        v.listed r t,
      )

  grant-IsValid : IsValid s → IsValid (grant s rid txn mode)
  grant-IsValid v = record {
    distinct = grant-Distinct v;
    exclusion = grant-exclusion v;
    listed = grant-listed v;
  }

pub try_lock-IsValid :
    {s : LockManager} (txn : ℤ) (rid : RecordId) (mode : LockMode)
    → IsValid s
    → IsValid (try_lock s txn rid mode).0
unfolding try_lock
try_lock-IsValid {s} txn rid mode v =
    elim (Bool-cases (can_grant (get_or [] rid s.table) txn mode)) [
      | inl free ↦ rw free (grant-IsValid s rid txn mode free v)
      | inr taken ↦ rw taken (touch-IsValid rid v)
    ]

-- What other threads do while one waits keeps the invariant.
abbrev pub AllKeep : List (LockManager → LockManager) → Type 0
AllKeep [] = Unit
AllKeep (f ∷ fs) = ((s : LockManager) → IsValid s → IsValid (f s)) × AllKeep fs

pub lock-IsValid :
    (others : List (LockManager → LockManager)) {s : LockManager} (txn : ℤ) (rid : RecordId)
    (mode : LockMode)
    → AllKeep others
    → IsValid s
    → IsValid (lock others s txn rid mode).0
unfolding lock
lock-IsValid [] {s} txn rid mode k v =
    elim (Bool-cases (can_grant (get_or [] rid s.table) txn mode)) [
      | inl free ↦ rw free (grant-IsValid s rid txn mode free v)
      | inr taken ↦ rw taken (touch-IsValid rid v)
    ]
lock-IsValid (f ∷ fs) {s} txn rid mode k v =
    elim (Bool-cases (can_grant (get_or [] rid s.table) txn mode)) [
      | inl free ↦ rw free (grant-IsValid s rid txn mode free v)
      | inr taken ↦
          rw taken (lock-IsValid fs txn rid mode k.1 (k.0 (touch s rid) (touch-IsValid rid v)))
    ]

release-Distinct :
    (txn : ℤ) (rid : RecordId) (table : Dict RecordId Entry)
    → ((r : RecordId) → Distinct (get_or [] r table))
    → (r : RecordId) → Distinct (get_or [] r (release txn rid table))
release-Distinct txn rid table d r =
    rw get_or-release
      (if_intro Distinct (rid_beq rid r) _ _ (λ _. erase-Distinct txn _ (d rid)) (λ _. d r))

release_all-Distinct :
    (txn : ℤ) (rids : List RecordId) (table : Dict RecordId Entry)
    → ((r : RecordId) → Distinct (get_or [] r table))
    → (r : RecordId) → Distinct (get_or [] r (release_all txn rids table))
unfolding release_all
release_all-Distinct txn [] table d = d
release_all-Distinct txn (rid ∷ rids) table d =
    release_all-Distinct txn rids (release txn rid table) (release-Distinct txn rid table d)

pub unlock-IsValid :
    {s : LockManager} (txn : ℤ) (rid : RecordId) → IsValid s → IsValid (unlock s txn rid)
unfolding unlock
unlock-IsValid {s} txn rid v =
    let rids = get_or [] txn s.held_by_txn in
    record {
      distinct = release-Distinct txn rid s.table v.distinct;
      exclusion = λ r t u ne h. ground (
        arith,
        holds-release txn rid s.table r t,
        holds-release txn rid s.table r u,
        v.exclusion r t u ne,
      );
      listed = λ r t h. ground (
        arith,
        holds-release txn rid s.table r t,
        get_or-insert [] txn t (remove_rid rid rids) s.held_by_txn,
        contains-remove_rid rid r rids,
        int_beq_iff txn t,
        v.listed r t,
      );
    }

pub unlock_all-IsValid : {s : LockManager} (txn : ℤ) → IsValid s → IsValid (unlock_all s txn)
unfolding unlock_all
unlock_all-IsValid {s} txn v = elim (Option-cases (find txn s.held_by_txn)) [
  | inl missing ↦ rw (missing, unlock_all) v
  | inr (rids, found) ↦
      rw (found, unlock_all)
        (record {
          distinct = release_all-Distinct txn rids s.table v.distinct;
          exclusion = λ r t u ne h. ground (
            arith,
            holds-release_all txn rids s.table r t,
            holds-release_all txn rids s.table r u,
            v.exclusion r t u ne,
          );
          listed = λ r t h. ground (
            arith,
            holds-release_all txn rids s.table r t,
            get_or-erase [] txn t s.held_by_txn,
            get_or_found [] rids txn s.held_by_txn found,
            int_beq_iff txn t,
            v.listed r t,
          );
        })
]
