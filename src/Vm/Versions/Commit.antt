-- ===== src/Vm/Versions/Commit.antt =====
-- src/vm/version_store.cpp: what a commit publishes, and what a transaction reads before it.
use prqlite.Base.{
  ℕ, ◌+◌, ◌<◌, ◌≤◌, ◌^◌, ℤ, int_beq, int_eq, ◌&&◌, List, [], ◌∷◌, ◌++◌, Option, get_or,
  if◌then◌else◌, ltb, leb, Bytes, ◌≡◌, refl, sym, arith, ap, ◌∙◌, Bool-cases, List-cases, inl, inr,
  ◌⊎◌, subst,
}
use native.Mathlib.Nat.{mod-eq_of_lt}
use prqlite.RecordId.{RecordId}
use prqlite.Vm.Versions.{
  Change, Rebuild, VersionStore, no_rows, load, overlay, overlay_pending, rows_as_of, rows_for_txn,
  stamp, maybe_gc, commit_changes, commit_pending,
}
use prqlite.Vm.Versions.Index.{
  lookup_row, value, IsIndexed, overlay-IsIndexed, value-overlay, lookup_row-live_rows,
}
use prqlite.Vm.Versions.History.{
  Sorted, DistinctRows, row_history, row_history_after, changed, reconstruct_lem, no_rows-load,
}
use prqlite.Vm.Versions.Valid.{IsValid, commit_changes-IsValid, maybe_gc-IsValid, Sorted-stamp}
use prqlite.Vm.Versions.Collect.{maybe_gc_exact}

-- What a row of a table holds after pending changes.
unfoldable pub pending_history : ℤ → RecordId → Option Bytes → List Change → Option Bytes
pending_history table r o [] = o
pending_history table r o (c ∷ cs) =
    pending_history table r (if int_beq c.table_id table then changed c r o else o) cs

overlay_pending_lem :
    (table : ℤ) (st : Rebuild) (cs : List Change) (r : RecordId)
    → IsIndexed st
    → IsIndexed (overlay_pending table st cs)
      × (value (overlay_pending table st cs) r ≡ pending_history table r (value st r) cs)
unfolding overlay_pending pending_history
overlay_pending_lem table st [] r h = (h, refl)
overlay_pending_lem table st (c ∷ cs) r h = elim (Bool-cases (int_beq c.table_id table)) [
  | inl mine ↦
      rw (mine, ← value-overlay st h c r)
        (overlay_pending_lem table (overlay st c) cs r (overlay-IsIndexed st h c))
  | inr other ↦ rw other (overlay_pending_lem table st cs r h)
]

-- The pending changes, stamped with a version in reach, are what the history then applies.
row_history-stamp :
    (table : ℤ) (lo hi v : ℕ) (r : RecordId) (o : Option Bytes) (cs : List Change)
    → lo < v
    → v ≤ hi
    → row_history table lo hi r o (stamp v cs) ≡ pending_history table r o cs
unfolding row_history pending_history stamp
row_history-stamp table lo hi v r o [] a b = refl
row_history-stamp table lo hi v r o (c ∷ cs) a b =
    let next = if int_beq c.table_id table then changed c r o else o in
    ground (arith, row_history-stamp table lo hi v r next cs a b)

row_history-append :
    (table : ℤ) (lo hi : ℕ) (r : RecordId) (o : Option Bytes) (cs ds : List Change)
    → row_history table lo hi r o (cs ++ ds)
      ≡ row_history table lo hi r (row_history table lo hi r o cs) ds
unfolding row_history
row_history-append table lo hi r o [] ds = refl
row_history-append table lo hi r o (c ∷ cs) ds =
    row_history-append table lo hi r
      (if ltb lo c.version && (leb c.version hi && int_beq c.table_id table)
        then changed c r o
        else o)
      cs ds

Sorted-le : (lo hi : ℕ) (cs : List Change) → Sorted lo hi cs → lo ≤ hi
Sorted-le lo hi [] s = s
Sorted-le lo hi (c ∷ cs) s = omega (arith, Sorted-le c.version hi cs s.1)

-- Upper bounds above every version make no difference.
row_history_upper :
    (table : ℤ) (lo hi hi' : ℕ) (r : RecordId) (o : Option Bytes) (v top : ℕ) (cs : List Change)
    → top ≤ hi
    → top ≤ hi'
    → Sorted v top cs
    → row_history table lo hi r o cs ≡ row_history table lo hi' r o cs
unfolding row_history
row_history_upper table lo hi hi' r o v top [] a b s = refl
row_history_upper table lo hi hi' r o v top (c ∷ cs) a b s =
    let below : c.version ≤ top = Sorted-le c.version top cs s.1 in
    let next = if ltb lo c.version && int_beq c.table_id table then changed c r o else o in
    ground (arith, below, row_history_upper table lo hi hi' r next c.version top cs a b s.1)

-- The row as a version that is still kept reads it.
abbrev read : VersionStore → ℤ → ℕ → RecordId → Option Bytes
read s table version r =
    row_history table s.baseline_version version r (lookup_row r (get_or [] table s.baseline)) s.log

rows_as_of_lem :
    {s : VersionStore} (table : ℤ) (version : ℕ) (r : RecordId)
    → IsValid s
    → s.baseline_version ≤ version
    → DistinctRows (rows_as_of s table version)
      × (lookup_row r (rows_as_of s table version) ≡ read s table version r)
unfolding rows_as_of
rows_as_of_lem {s} table version r v reach =
    let at : (if ltb version s.baseline_version then s.baseline_version else version) ≡ version =
      ground arith in
    let (d, reads) =
      reconstruct_lem s table version s.baseline_version s.version (v.distinct table) v.sorted in
    rw at (d, reads r)

module _ {s : VersionStore} (v : IsValid s) (small : s.version + 1 < 2 ^ 64) where
  commit_version : (commit_changes s).version ≡ s.version + 1
  unfolding commit_changes
  commit_version = mod-eq_of_lt small

  read-commit_changes :
      (table : ℤ) (version : ℕ) (r : RecordId)
      → read (commit_changes s) table version r
        ≡ row_history table s.baseline_version version r
            (read s table version r)
            (stamp (s.version + 1) s.pending)
  unfolding commit_changes
  read-commit_changes table version r =
      rw (mod-eq_of_lt small) (row_history-append table s.baseline_version version r _ s.log _)

  read-new :
      (table : ℤ) (r : RecordId)
      → read (commit_changes s) table (s.version + 1) r
        ≡ pending_history table r (read s table s.version r) s.pending
  read-new table r =
      read-commit_changes table (s.version + 1) r
      ∙ row_history-stamp table s.baseline_version (s.version + 1) (s.version + 1) r _ s.pending
          (omega (arith, v.horizon)) (omega arith)
      ∙ ap (λ o. pending_history table r o s.pending)
          (row_history_upper table s.baseline_version (s.version + 1) s.version r _
            s.baseline_version s.version s.log (omega arith) (omega arith) v.sorted)

  read-old :
      (table : ℤ) (version : ℕ) (r : RecordId)
      → version ≤ s.version
      → read (commit_changes s) table version r ≡ read s table version r
  read-old table version r old =
      read-commit_changes table version r
      ∙ row_history_after table s.baseline_version version r (read s table version r)
          (s.version + 1) (s.version + 1) (stamp (s.version + 1) s.pending) (omega arith)
          (Sorted-stamp (s.version + 1) (s.version + 1) s.pending (omega arith))

-- What a transaction reads at a version: the committed rows, and its own writes over them.
rows_for_txn_lem :
    {s : VersionStore} (table : ℤ) (version : ℕ) (r : RecordId)
    → IsValid s
    → s.baseline_version ≤ version
    → lookup_row r (rows_for_txn s table version)
      ≡ pending_history table r (lookup_row r (rows_as_of s table version)) s.pending
unfolding rows_for_txn
rows_for_txn_lem {s} table version r v reach =
    let rows = rows_as_of s table version in
    let (indexed, values) = no_rows-load rows (rows_as_of_lem table version r v reach).0 in
    let (done, reads) = overlay_pending_lem table (load no_rows rows) s.pending r indexed in
    lookup_row-live_rows (overlay_pending table (load no_rows rows) s.pending) r done
    ∙ reads
    ∙ ap (λ o. pending_history table r o s.pending) (values r)

commit_pending_cases :
    (s : VersionStore)
    → ((s.pending ≡ []) × (commit_pending s ≡ (s, s.version)))
      ⊎ (commit_pending s ≡ (maybe_gc (commit_changes s), (maybe_gc (commit_changes s)).version))
unfolding commit_pending
commit_pending_cases s = elim (List-cases s.pending) [
  | inl e ↦ inl (e, ground (arith, e))
  | inr (c, cs, e) ↦ inr (ground (arith, e))
]

version-maybe_gc : (s : VersionStore) → (maybe_gc s).version ≡ s.version
unfolding maybe_gc
version-maybe_gc s = ground arith

baseline-maybe_gc : (s : VersionStore) → s.baseline_version ≤ (maybe_gc s).baseline_version
unfolding maybe_gc
baseline-maybe_gc s = ground arith

baseline-commit_changes :
    (s : VersionStore) → (commit_changes s).baseline_version ≡ s.baseline_version
unfolding commit_changes
baseline-commit_changes s = refl

-- On a valid store whose versions have not filled 64 bits, a commit publishes exactly what the
-- transaction read: at the version that it returns, every row of every table reads as it read
-- inside the transaction at the last version before, own writes included.
pub commit_publishes :
    {s : VersionStore} (table : ℤ) (r : RecordId)
    → IsValid s
    → s.version + 1 < 2 ^ 64
    → lookup_row r (rows_as_of (commit_pending s).0 table (commit_pending s).1)
      ≡ lookup_row r (rows_for_txn s table s.version)
unfolding pending_history
commit_publishes {s} table r v small = elim (commit_pending_cases s) [
  | inl (e, done) ↦ rw done (
      sym (
        rows_for_txn_lem table s.version r v v.horizon
        ∙ ap (λ cs. pending_history table r (lookup_row r (rows_as_of s table s.version)) cs) e))
  | inr done ↦
      let w = commit_changes-IsValid small v in
      rw done (
        ap (λ n. lookup_row r (rows_as_of (maybe_gc (commit_changes s)) table n))
          (version-maybe_gc (commit_changes s) ∙ commit_version v small)
        ∙ maybe_gc_exact table (s.version + 1) r w (
            subst (λ n. (maybe_gc (commit_changes s)).baseline_version ≤ n)
              (version-maybe_gc (commit_changes s) ∙ commit_version v small)
              (maybe_gc-IsValid w).horizon)
        ∙ (rows_as_of_lem table (s.version + 1) r w
            (omega (arith, v.horizon, baseline-commit_changes s))).1
        ∙ read-new v small table r
        ∙ ap (λ o. pending_history table r o s.pending)
            (sym (rows_as_of_lem table s.version r v v.horizon).1)
        ∙ sym (rows_for_txn_lem table s.version r v v.horizon))
]

-- A commit on a valid store whose versions have not filled 64 bits leaves every earlier version
-- that is still kept as it was: a row reads there after the commit, and the collection at its end,
-- as before.
pub commit_keeps_past :
    {s : VersionStore} (table : ℤ) (version : ℕ) (r : RecordId)
    → IsValid s
    → s.version + 1 < 2 ^ 64
    → version ≤ s.version
    → (commit_pending s).0.baseline_version ≤ version
    → lookup_row r (rows_as_of (commit_pending s).0 table version)
      ≡ lookup_row r (rows_as_of s table version)
commit_keeps_past {s} table version r v small old reach = elim (commit_pending_cases s) [
  | inl (e, done) ↦ rw done
  | inr done ↦
      let w = commit_changes-IsValid small v in
      let kept : (maybe_gc (commit_changes s)).baseline_version ≤ version = rw done at reach in
      let base : s.baseline_version ≤ version =
        omega (arith, kept, baseline-maybe_gc (commit_changes s), baseline-commit_changes s) in
      rw done (
        maybe_gc_exact table version r w kept
        ∙ (rows_as_of_lem table version r w (omega (arith, base, baseline-commit_changes s))).1
        ∙ read-old v small table version r old
        ∙ sym (rows_as_of_lem table version r v base).1)
]
