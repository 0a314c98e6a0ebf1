-- ===== src/Vm/Versions/Collect.antt =====
-- src/vm/version_store.cpp: what garbage collection forgets, and what it keeps.
use prqlite.Base.{
  ℕ, ◌<◌, ◌≤◌, ◌-◌, length, ℤ, int_beq, int_beq_iff, int_eq, false, ◌&&◌, List, [], ◌∷◌, Option,
  get_or, if◌then◌else◌, ltb, leb, ltb→lt, Bytes, ◌≡◌, refl, sym, arith, ◌∙◌, Bool-cases, inl, inr,
}
use prqlite.RecordId.{RecordId}
use prqlite.Vm.Versions.{
  Change, VersionStore, known, rows_as_of, new_baseline, kept_after, gc, maybe_gc,
}
use prqlite.Vm.Versions.Index.{lookup_row}
use prqlite.Vm.Versions.History.{Sorted, row_history, row_history_after, changed, reconstruct_lem}
use prqlite.Vm.Versions.Valid.{
  IsValid, collected, collected-IsValid, AllKnown, AllKnown-kept_after, kept_after_all,
  new_baseline_lem,
}

-- Above a lower bound, the lower bound does not matter.
row_history_lower :
    (table : ℤ) (lo lo' hi : ℕ) (r : RecordId) (o : Option Bytes) (v top : ℕ) (cs : List Change)
    → lo < v
    → lo' < v
    → Sorted v top cs
    → row_history table lo hi r o cs ≡ row_history table lo' hi r o cs
unfolding row_history
row_history_lower table lo lo' hi r o v top [] h h' s = refl
row_history_lower table lo lo' hi r o v top (c ∷ cs) h h' s =
    let next = if leb c.version hi && int_beq c.table_id table then changed c r o else o in
    ground (
      arith,
      s.0,
      row_history_lower table lo lo' hi r next c.version top cs (omega arith) (omega arith) s.1,
    )

row_history-kept_above :
    (table : ℤ) (lo h hi : ℕ) (r : RecordId) (o : Option Bytes) (v top : ℕ) (cs : List Change)
    → lo ≤ h
    → h < v
    → Sorted v top cs
    → row_history table h hi r (row_history table lo h r o cs) (kept_after h cs)
      ≡ row_history table lo hi r o cs
row_history-kept_above table lo h hi r o v top cs a b s =
    rw (kept_after_all h v top cs b s, row_history_after table lo h r o v top cs b s)
      (row_history_lower table h lo hi r o v top cs b (omega arith) s)

-- A history up to `hi` is the one up to `h`, and then the one of what lies above `h`.
row_history-kept_after :
    (table : ℤ) (lo h hi : ℕ) (r : RecordId) (o : Option Bytes) (v top : ℕ) (cs : List Change)
    → lo ≤ h
    → h ≤ hi
    → Sorted v top cs
    → row_history table h hi r (row_history table lo h r o cs) (kept_after h cs)
      ≡ row_history table lo hi r o cs
unfolding row_history kept_after
row_history-kept_after table lo h hi r o v top [] a b s = refl
row_history-kept_after table lo h hi r o v top (c ∷ cs) a b s =
    elim (Bool-cases (ltb h c.version)) [
      | inl above ↦
          row_history-kept_above table lo h hi r o c.version top (c ∷ cs) a
            (ltb→lt h c.version above) (omega arith, s.1)
      | inr below ↦
          let next = if ltb lo c.version && int_beq c.table_id table then changed c r o else o in
          ground
            (arith, below, row_history-kept_after table lo h hi r next c.version top cs a b s.1)
    ]

unknown_history :
    (ts : List ℤ) (table : ℤ) (lo hi : ℕ) (r : RecordId) (o : Option Bytes) (cs : List Change)
    → known table ts ≡ false
    → AllKnown ts cs
    → row_history table lo hi r o cs ≡ o
unfolding row_history
unknown_history ts table lo hi r o [] u k = refl
unknown_history ts table lo hi r o (c ∷ cs) u k =
    ground (arith, int_beq_iff c.table_id table, k.0, unknown_history ts table lo hi r o cs u k.1)

-- The lists of rows are read by their record ids: collecting drops the places of deleted rows,
-- so a row that comes back later may stand elsewhere in the list.
collected_reads :
    {s : VersionStore} (h : ℕ) (table : ℤ) (version : ℕ) (r : RecordId)
    → IsValid s
    → s.baseline_version ≤ h
    → h ≤ version
    → row_history table h version r
        (lookup_row r (get_or [] table (new_baseline s h s.known_tables)))
        (kept_after h s.log)
      ≡ row_history table s.baseline_version version r
          (lookup_row r (get_or [] table s.baseline))
          s.log
collected_reads {s} h table version r v a b = elim (Bool-cases (known table s.known_tables)) [
  | inl k ↦
      rw
        (
          new_baseline_lem s h s.known_tables table,
          k,
          (reconstruct_lem s table h s.baseline_version s.version (v.distinct table) v.sorted).1 r,
        )
        (row_history-kept_after table s.baseline_version h version r _ s.baseline_version s.version
          s.log a b v.sorted)
  | inr u ↦
      rw (new_baseline_lem s h s.known_tables table, u, v.base_known table u)
        (unknown_history s.known_tables table h version r (lookup_row r []) (kept_after h s.log) u
            (AllKnown-kept_after s.known_tables h s.log v.log_known)
          ∙ sym (
              unknown_history s.known_tables table s.baseline_version version r (lookup_row r [])
                s.log u v.log_known))
]

collected_exact :
    {s : VersionStore} (h : ℕ) (table : ℤ) (version : ℕ) (r : RecordId)
    → IsValid s
    → s.baseline_version < h
    → h ≤ s.version
    → h ≤ version
    → lookup_row r (rows_as_of (collected s h) table version)
      ≡ lookup_row r (rows_as_of s table version)
unfolding rows_as_of
collected_exact {s} h table version r v above below reach =
    let w = collected-IsValid h above below v in
    let at : (if ltb version h then h else version) ≡ version = ground arith in
    let at' : (if ltb version s.baseline_version then s.baseline_version else version) ≡ version =
      ground arith in
    rw (at, at')
      ((reconstruct_lem (collected s h) table version h s.version (w.distinct table) w.sorted).1 r
        ∙ collected_reads h table version r v (omega arith) reach
        ∙ sym (
            (reconstruct_lem s table version s.baseline_version s.version (v.distinct table)
                v.sorted).1
              r))

-- After a collection of a valid store every version from the new baseline on reads, row by row,
-- exactly as before.
pub gc_exact :
    {s : VersionStore} (asked : ℕ) (table : ℤ) (version : ℕ) (r : RecordId)
    → IsValid s
    → (gc s asked).baseline_version ≤ version
    → lookup_row r (rows_as_of (gc s asked) table version)
      ≡ lookup_row r (rows_as_of s table version)
unfolding gc
gc_exact {s} asked table version r v reach =
    let h = if ltb s.version asked then s.version else asked in
    let below : h ≤ s.version = ground arith in
    elim (Bool-cases (leb h s.baseline_version)) [
      | inl old ↦ rw old
      | inr new ↦
          rw new (
            collected_exact h table version r v (ground (arith, new)) below (rw (new, gc) at reach))
    ]

-- The collection at the end of a commit, where there is one, keeps as many versions as the
-- retention says, and they read exactly as before.
pub maybe_gc_exact :
    {s : VersionStore} (table : ℤ) (version : ℕ) (r : RecordId)
    → IsValid s
    → (maybe_gc s).baseline_version ≤ version
    → lookup_row r (rows_as_of (maybe_gc s) table version)
      ≡ lookup_row r (rows_as_of s table version)
unfolding maybe_gc
maybe_gc_exact {s} table version r v reach = elim (Bool-cases (leb (length s.log) s.max_changes)) [
  | inl few ↦ rw few
  | inr many ↦ elim (Bool-cases (leb s.version s.retain_versions)) [
    | inl young ↦ rw (many, young)
    | inr old ↦
        rw (many, old)
          (gc_exact (s.version - s.retain_versions) table version r v
            (rw (many, maybe_gc) at (rw (old, maybe_gc) at reach)))
  ]
]
