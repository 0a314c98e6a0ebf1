-- ===== src/Vm/Versions/Valid.antt =====
-- src/vm/version_store.cpp: the invariant of the store.
use prqlite.Base.{
  ℕ, ◌+◌, ◌<◌, ◌≤◌, ◌%◌, ◌^◌, ◌-◌, ℤ, int_beq, int_beq_iff, int_eq, true, false, ◌||◌, List, [],
  ◌∷◌, ◌++◌, get_or, get_or-insert, find-nil, if_intro, if◌then◌else◌, ltb, leb, ltb→lt, Bytes,
  length, ◌≡◌, refl, arith, Bool-cases, List-cases, inl, inr,
}
use native.Mathlib.Nat.{mod-eq_of_lt}
use prqlite.RecordId.{RecordId, rid_eq}
use prqlite.Vm.Versions.{
  Change, BaseRow, VersionStore, new_store, known, know, stage_insert, stage_delete,
  discard_pending, seed_baseline, reconstruct, new_baseline, kept_after, gc, maybe_gc, stamp,
  commit_changes, commit_pending,
}
use prqlite.Vm.Versions.History.{Sorted, DistinctRows, reconstruct_lem}

-- Every change is of a known table.
abbrev pub AllKnown : List ℤ → List Change → Type 0
AllKnown ts [] = Unit
AllKnown ts (c ∷ cs) = (known c.table_id ts ≡ true) × AllKnown ts cs

pub record IsValid (s : VersionStore) : Type 0 where
  pub horizon : s.baseline_version ≤ s.version
  pub sorted : Sorted s.baseline_version s.version s.log
  pub log_known : AllKnown s.known_tables s.log
  pub pending_known : AllKnown s.known_tables s.pending
  pub base_known : (t : ℤ) → known t s.known_tables ≡ false → get_or [] t s.baseline ≡ []
  pub distinct : (t : ℤ) → DistinctRows (get_or [] t s.baseline)

get_or_nil : {V : Type 0} (d : V) (t : ℤ) → get_or d t [] ≡ d
unfolding get_or
get_or_nil {V} d t = rw (find-nil {V = V} t, get_or)

pub new_store-IsValid : IsValid new_store
new_store-IsValid = record {
  horizon = omega arith;
  sorted = omega arith;
  log_known = tt;
  pending_known = tt;
  base_known = λ t _. get_or_nil [] t;
  distinct = λ t. rw (get_or_nil {V = List BaseRow} [] t) tt;
}

known-know : (t u : ℤ) (ts : List ℤ) → known u (know t ts) ≡ (int_beq t u || known u ts)
unfolding known know
known-know t u ts = ground (arith, int_beq_iff t u)

AllKnown-know : (t : ℤ) (ts : List ℤ) (cs : List Change) → AllKnown ts cs → AllKnown (know t ts) cs
AllKnown-know t ts [] h = tt
AllKnown-know t ts (c ∷ cs) h =
    (ground (arith, known-know t c.table_id ts, h.0), AllKnown-know t ts cs h.1)

AllKnown-append :
    (ts : List ℤ) (cs ds : List Change) → AllKnown ts cs → AllKnown ts ds → AllKnown ts (cs ++ ds)
AllKnown-append ts [] ds h k = k
AllKnown-append ts (c ∷ cs) ds h k = (h.0, AllKnown-append ts cs ds h.1 k)

pub stage_insert-IsValid :
    {s : VersionStore} (table : ℤ) (rid : RecordId) (bytes : Bytes)
    → IsValid s
    → IsValid (stage_insert s table rid bytes)
unfolding stage_insert
stage_insert-IsValid {s} table rid bytes v = record {
  horizon = v.horizon;
  sorted = v.sorted;
  log_known = AllKnown-know table s.known_tables s.log v.log_known;
  pending_known =
      AllKnown-append _ s.pending _ (AllKnown-know table s.known_tables s.pending v.pending_known)
        (ground (arith, known-know table table s.known_tables, int_beq_iff table table));
  base_known = λ t u. v.base_known t (ground (arith, known-know table t s.known_tables, u));
  distinct = v.distinct;
}

pub stage_delete-IsValid :
    {s : VersionStore} (table : ℤ) (rid : RecordId) → IsValid s → IsValid (stage_delete s table rid)
unfolding stage_delete
stage_delete-IsValid {s} table rid v = record {
  horizon = v.horizon;
  sorted = v.sorted;
  log_known = AllKnown-know table s.known_tables s.log v.log_known;
  pending_known =
      AllKnown-append _ s.pending _ (AllKnown-know table s.known_tables s.pending v.pending_known)
        (ground (arith, known-know table table s.known_tables, int_beq_iff table table));
  base_known = λ t u. v.base_known t (ground (arith, known-know table t s.known_tables, u));
  distinct = v.distinct;
}

pub discard_pending-IsValid : {s : VersionStore} → IsValid s → IsValid (discard_pending s)
unfolding discard_pending
discard_pending-IsValid v = record {
  horizon = v.horizon;
  sorted = v.sorted;
  log_known = v.log_known;
  pending_known = tt;
  base_known = v.base_known;
  distinct = v.distinct;
}

pub seed_baseline-IsValid :
    {s : VersionStore} (table : ℤ) (rows : List BaseRow)
    → DistinctRows rows
    → IsValid s
    → IsValid (seed_baseline s table rows)
unfolding seed_baseline
seed_baseline-IsValid {s} table rows d v = record {
  horizon = v.horizon;
  sorted = v.sorted;
  log_known = AllKnown-know table s.known_tables s.log v.log_known;
  pending_known = AllKnown-know table s.known_tables s.pending v.pending_known;
  base_known = λ t u. ground (
    arith,
    known-know table t s.known_tables,
    u,
    get_or-insert [] table t rows s.baseline,
    v.base_known t,
  );
  distinct = λ t.
      rw get_or-insert (if_intro DistinctRows (int_beq table t) _ _ (λ _. d) (λ _. v.distinct t));
}

Sorted-lower : (lo lo' hi : ℕ) (cs : List Change) → lo ≤ lo' → Sorted lo' hi cs → Sorted lo hi cs
Sorted-lower lo lo' hi [] h s = omega arith
Sorted-lower lo lo' hi (c ∷ cs) h s = (omega arith, s.1)

Sorted-append :
    (lo mid hi : ℕ) (cs ds : List Change)
    → Sorted lo mid cs
    → Sorted mid hi ds
    → Sorted lo hi (cs ++ ds)
Sorted-append lo mid hi [] ds s t = Sorted-lower lo mid hi ds s t
Sorted-append lo mid hi (c ∷ cs) ds s t = (s.0, Sorted-append c.version mid hi cs ds s.1 t)

pub Sorted-stamp : (lo v : ℕ) (cs : List Change) → lo ≤ v → Sorted lo v (stamp v cs)
unfolding stamp
Sorted-stamp lo v [] h = h
Sorted-stamp lo v (c ∷ cs) h = (h, Sorted-stamp v v cs (omega arith))

AllKnown-stamp :
    (ts : List ℤ) (v : ℕ) (cs : List Change) → AllKnown ts cs → AllKnown ts (stamp v cs)
unfolding stamp
AllKnown-stamp ts v [] h = tt
AllKnown-stamp ts v (c ∷ cs) h = (h.0, AllKnown-stamp ts v cs h.1)

pub commit_changes-IsValid :
    {s : VersionStore} → s.version + 1 < 2 ^ 64 → IsValid s → IsValid (commit_changes s)
unfolding commit_changes
commit_changes-IsValid {s} small v =
    let e : (s.version + 1) % 2 ^ 64 ≡ s.version + 1 = mod-eq_of_lt small in
    rw e (record {
      horizon = omega (arith, v.horizon);
      sorted =
          Sorted-append s.baseline_version s.version (s.version + 1) s.log _ v.sorted
            (Sorted-stamp s.version (s.version + 1) s.pending (omega arith));
      log_known =
          AllKnown-append _ s.log _ v.log_known
            (AllKnown-stamp s.known_tables (s.version + 1) s.pending v.pending_known);
      pending_known = tt;
      base_known = v.base_known;
      distinct = v.distinct;
    })

-- Above the horizon everything is kept.
pub kept_after_all :
    (h lo hi : ℕ) (cs : List Change) → h < lo → Sorted lo hi cs → kept_after h cs ≡ cs
unfolding kept_after
kept_after_all h lo hi [] lt s = refl
kept_after_all h lo hi (c ∷ cs) lt s =
    ground (arith, kept_after_all h c.version hi cs (omega arith) s.1, s.0)

Sorted-kept_after :
    (h lo hi : ℕ) (cs : List Change) → h ≤ hi → Sorted lo hi cs → Sorted h hi (kept_after h cs)
unfolding kept_after
Sorted-kept_after h lo hi [] le s = le
Sorted-kept_after h lo hi (c ∷ cs) le s = elim (Bool-cases (ltb h c.version)) [
  | inl above ↦
      rw (above, kept_after_all h c.version hi cs (ltb→lt h c.version above) s.1)
        (omega (arith, ltb→lt h c.version above), s.1)
  | inr below ↦ rw below (Sorted-kept_after h c.version hi cs le s.1)
]

pub AllKnown-kept_after :
    (ts : List ℤ) (h : ℕ) (cs : List Change) → AllKnown ts cs → AllKnown ts (kept_after h cs)
unfolding kept_after
AllKnown-kept_after ts h [] k = tt
AllKnown-kept_after ts h (c ∷ cs) k =
    if_intro (AllKnown ts) (ltb h c.version) _ _ (λ _. (k.0, AllKnown-kept_after ts h cs k.1))
      (λ _. AllKnown-kept_after ts h cs k.1)

pub new_baseline_lem :
    (s : VersionStore) (h : ℕ) (ts : List ℤ) (t : ℤ)
    → get_or [] t (new_baseline s h ts) ≡ (if known t ts then reconstruct s t h else [])
unfolding new_baseline known
new_baseline_lem s h [] t = get_or_nil [] t
new_baseline_lem s h (u ∷ us) t = ground (
  arith,
  get_or-insert [] u t (reconstruct s u h) (new_baseline s h us),
  int_beq_iff u t,
  new_baseline_lem s h us t,
)

-- The state that `gc` leaves where it does something.
abbrev pub collected : VersionStore → ℕ → VersionStore
collected s h = record s {
  log = kept_after h s.log;
  baseline = new_baseline s h s.known_tables;
  baseline_version = h;
}

pub collected-IsValid :
    {s : VersionStore} (h : ℕ)
    → s.baseline_version < h
    → h ≤ s.version
    → IsValid s
    → IsValid (collected s h)
collected-IsValid {s} h above below v = record {
  horizon = below;
  sorted = Sorted-kept_after h s.baseline_version s.version s.log below v.sorted;
  log_known = AllKnown-kept_after s.known_tables h s.log v.log_known;
  pending_known = v.pending_known;
  base_known = λ t u. rw (new_baseline_lem s h s.known_tables t, u);
  distinct = λ t. rw new_baseline_lem (
      if_intro DistinctRows (known t s.known_tables) _ _
        (λ _. (reconstruct_lem s t h s.baseline_version s.version (v.distinct t) v.sorted).0)
        (λ _. tt));
}

pub gc-IsValid : {s : VersionStore} (asked : ℕ) → IsValid s → IsValid (gc s asked)
unfolding gc
gc-IsValid {s} asked v =
    let h = if ltb s.version asked then s.version else asked in
    let below : h ≤ s.version = ground arith in
    elim (Bool-cases (leb h s.baseline_version)) [
      | inl old ↦ rw old v
      | inr new ↦ rw new (collected-IsValid h (ground (arith, new)) below v)
    ]

pub maybe_gc-IsValid : {s : VersionStore} → IsValid s → IsValid (maybe_gc s)
unfolding maybe_gc
maybe_gc-IsValid {s} v =
    if_intro IsValid (leb (length s.log) s.max_changes) _ _ (λ _. v)
      (λ _.
        if_intro IsValid (leb s.version s.retain_versions) _ _ (λ _. v)
          (λ _. gc-IsValid (s.version - s.retain_versions) v))

-- A commit keeps the store valid, its collection included, until the versions fill 64 bits.
pub commit_pending-IsValid :
    {s : VersionStore} → s.version + 1 < 2 ^ 64 → IsValid s → IsValid (commit_pending s).0
unfolding commit_pending
commit_pending-IsValid {s} small v = elim (List-cases s.pending) [
  | inl e ↦ rw (e, commit_pending) v
  | inr (c, cs, e) ↦ rw (e, commit_pending) (maybe_gc-IsValid (commit_changes-IsValid small v))
]
