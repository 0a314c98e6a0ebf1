-- ===== src/Txn/Manager/Rollback.antt =====
-- src/txn/transaction_manager.cpp: `rollback` against the closures that were registered.
use mathlib.Core.List.{reverse-cons}
use prqlite.Base.{
  ℤ, int_eq, int_beq, int_beq_iff, List, [], ◌∷◌, ◌++◌, reverse, none, some, find, find-insert,
  find-erase, append-nil, insert, false, append_assoc, ◌≡◌, refl, sym, ap, ◌∙◌, if◌then◌else◌,
  Bool-cases, inl, inr,
}
use prqlite.Txn.Locks.{LockManager}
use prqlite.Txn.Locks.Valid.{IsValid}
use prqlite.Txn.Locks.Release.{holds-unlock_all}
use prqlite.Txn.Wal
use prqlite.Txn.Wal.{LogType, WriteAheadLog}
use prqlite.Txn.Manager.{TransactionManager, register_undo, undo_all, rollback, finish, log_flush}
use prqlite.Txn.Manager.Ends.{EndLogged, OnlyReleased}

module _ {S : Type 0} where
  -- The closures are registered one by one.
  abbrev pub register_all : List (S → S) → ℤ → TransactionManager S → TransactionManager S
  register_all [] txn m = m
  register_all (f ∷ fs) txn m = register_all fs txn (register_undo m txn f)

  -- One closure after the other, from the front.
  abbrev pub run_all : List (S → S) → S → S
  run_all [] s = s
  run_all (f ∷ fs) s = run_all fs (f s)

  run_all-append : (fs gs : List (S → S)) (s : S) → run_all (fs ++ gs) s ≡ run_all gs (run_all fs s)
  run_all-append [] gs s = refl
  run_all-append (f ∷ fs) gs s = run_all-append fs gs (f s)

  undo_all-run_all : (fs : List (S → S)) (s : S) → undo_all fs s ≡ run_all (reverse fs) s
  unfolding undo_all
  undo_all-run_all [] s = refl
  undo_all-run_all (f ∷ fs) s =
      ap f (undo_all-run_all fs s)
      ∙ sym (run_all-append (reverse fs) (f ∷ []) s)
      ∙ ap (λ gs. run_all gs s) (sym (reverse-cons f fs))

  -- What registering leaves alone, and what it adds.
  record Registered (m m' : TransactionManager S) (txn : ℤ) (us : List (S → S)) : Type 0 where
    wal : m'.wal ≡ m.wal
    locks : m'.locks ≡ m.locks
    own : find txn m'.active ≡ some us
    others : (u : ℤ) → int_beq txn u ≡ false → find u m'.active ≡ find u m.active

  register_undo_lem :
      (m : TransactionManager S) (txn : ℤ) (f : S → S) (us : List (S → S))
      → find txn m.active ≡ some us
      → register_undo m txn f ≡ record m { active = insert txn (us ++ f ∷ []) m.active }
  unfolding register_undo
  register_undo_lem m txn f us h = rw (h, register_undo)

  register_all_lem :
      (fs : List (S → S)) (m : TransactionManager S) (txn : ℤ) (us : List (S → S))
      → find txn m.active ≡ some us
      → Registered m (register_all fs txn m) txn (us ++ fs)
  register_all_lem [] m txn us h = record {
    wal = refl;
    locks = refl;
    own = h ∙ ap some (sym (append-nil us));
    others = λ u ne. refl;
  }
  register_all_lem (f ∷ fs) m txn us h =
      let e = register_undo_lem m txn f us h in
      let r = register_all_lem fs (register_undo m txn f) txn (us ++ f ∷ []) (
        ap (λ (x : TransactionManager S). find txn x.active) e
        ∙ find-insert txn txn (us ++ f ∷ []) m.active
        ∙ rw ((int_beq_iff txn txn).1 refl)) in
      record {
        wal = r.wal ∙ ap (λ (x : TransactionManager S). x.wal) e;
        locks = r.locks ∙ ap (λ (x : TransactionManager S). x.locks) e;
        own = r.own ∙ ap some (append_assoc us (f ∷ []) fs);
        others = λ u ne.
            r.others u ne
            ∙ ap (λ (x : TransactionManager S). find u x.active) e
            ∙ find-insert txn u (us ++ f ∷ []) m.active
            ∙ rw ne;
      }

  -- What `rollback` does for an active transaction, by its undo list.
  rollback_lem :
      (m : TransactionManager S) (txn : ℤ) (us : List (S → S)) (s : S) (w : WriteAheadLog)
      (l : LockManager)
      → find txn m.active ≡ some us
      → m.wal ≡ some w
      → m.locks ≡ some l
      → IsValid l
      → ((rollback m txn s).1 ≡ undo_all us s)
        × EndLogged LogType.abort txn w (rollback m txn s).0.wal
        × OnlyReleased txn l (rollback m txn s).0.locks
        × ((u : ℤ)
            → find u (rollback m txn s).0.active
              ≡ (if int_beq txn u then none else find u m.active))
  unfolding rollback finish log_flush Wal.append Wal.flush
  rollback_lem m txn us s w l found hw hl v =
      rw (found, rollback, hw, hl)
        (refl, (refl, refl), (λ r u. holds-unlock_all v txn r u), (λ u. find-erase txn u m.active))

  -- An active transaction with some undo closures registers more of them and rolls back: all of
  -- them run, each once, from the last registered one to the first. Then its abort record is the
  -- last of the log, which is synced, its locks are given up and no others, and it is forgotten
  -- while all others stay active with their undo lists. The lock table has to be valid.
  pub rollback-register_all :
      (m : TransactionManager S) (txn : ℤ) (us fs : List (S → S)) (s : S) (w : WriteAheadLog)
      (l : LockManager)
      → find txn m.active ≡ some us
      → m.wal ≡ some w
      → m.locks ≡ some l
      → IsValid l
      → let done = rollback (register_all fs txn m) txn s in
        (done.1 ≡ run_all (reverse (us ++ fs)) s)
        × EndLogged LogType.abort txn w done.0.wal
        × OnlyReleased txn l done.0.locks
        × ((u : ℤ) → find u done.0.active ≡ (if int_beq txn u then none else find u m.active))
  rollback-register_all m txn us fs s w l found hw hl v =
      let r = register_all_lem fs m txn us found in
      let (undone, logged, released, active) =
        rollback_lem (register_all fs txn m) txn (us ++ fs) s w l r.own (r.wal ∙ hw) (r.locks ∙ hl)
          v in
      (
        undone ∙ undo_all-run_all (us ++ fs) s,
        logged,
        released,
        λ u. active u ∙ elim (Bool-cases (int_beq txn u)) [
          | inl same ↦ rw same
          | inr ne ↦ rw ne (r.others u ne)
        ],
      )
