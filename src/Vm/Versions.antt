-- ===== src/Vm/Versions.antt =====
-- include/vm/version_store.hpp and src/vm/version_store.cpp: the multiversion store.
pub mod Index
pub mod History
pub mod Valid
pub mod Commit
pub mod Collect
use Prim.Native.Nat.{max}
use prqlite.Base.{
  ℕ, zero, suc, ◌+◌, ◌-◌, ◌%◌, ◌^◌, ℤ, int_beq, int_eq, Bool, true, false, ◌||◌, List, [], ◌∷◌,
  ◌++◌, map, Option, none, some, Dict, find, insert, erase, get_or, if◌then◌else◌, leb, ltb, Bytes,
  length, modify,
}
use prqlite.RecordId.{RecordId, rid_beq, rid_eq}

pub record Change : Type 0 where
  pub version : ℕ
  pub table_id : ℤ
  pub is_delete : Bool
  pub rid : RecordId
  pub bytes : Bytes

pub record BaseRow : Type 0 where
  pub rid : RecordId
  pub bytes : Bytes

pub record VersionStore : Type 0 where
  pub log : List Change
  pub pending : List Change
  pub baseline : Dict ℤ (List BaseRow)
  pub known_tables : List ℤ
  pub txn_snapshots : Dict ℤ ℕ
  pub baseline_version : ℕ
  pub version : ℕ
  pub max_changes : ℕ
  pub retain_versions : ℕ

abbrev pub new_store : VersionStore
new_store = record {
  log = [];
  pending = [];
  baseline = [];
  known_tables = [];
  txn_snapshots = [];
  baseline_version = 0;
  version = 0;
  max_changes = 2000000;
  retain_versions = 200000;
}

-- `unordered_set`'s `count` and `insert`.
unfoldable pub known : ℤ → List ℤ → Bool
known t [] = false
known t (u ∷ us) = int_beq u t || known t us

unfoldable pub know : ℤ → List ℤ → List ℤ
know t ts = if known t ts then ts else t ∷ ts

unfoldable pub stage_insert : VersionStore → ℤ → RecordId → Bytes → VersionStore
unfolding know
stage_insert s table rid bytes =
    let c : Change = record {
      version = 0;
      table_id = table;
      is_delete = false;
      rid = rid;
      bytes = bytes;
    } in
    record s { pending = s.pending ++ c ∷ []; known_tables = know table s.known_tables }

unfoldable pub stage_delete : VersionStore → ℤ → RecordId → VersionStore
unfolding know
stage_delete s table rid =
    let c : Change = record {
      version = 0;
      table_id = table;
      is_delete = true;
      rid = rid;
      bytes = [];
    } in
    record s { pending = s.pending ++ c ∷ []; known_tables = know table s.known_tables }

unfoldable pub discard_pending : VersionStore → VersionStore
discard_pending s = record s { pending = [] }

unfoldable pub seed_baseline : VersionStore → ℤ → List BaseRow → VersionStore
unfolding know
seed_baseline s table rows = record s {
  baseline = insert table rows s.baseline;
  known_tables = know table s.known_tables;
}

unfoldable pub set_retention : VersionStore → ℕ → ℕ → VersionStore
set_retention s max_changes retain_versions = record s {
  max_changes = max_changes;
  retain_versions = retain_versions;
}

-- The three locals of `reconstruct`: where each row stands, the rows, and which are live.
pub record Rebuild : Type 0 where
  pub pos : Dict RecordId ℕ
  pub rows : List BaseRow
  pub live : List Bool

abbrev pub no_rows : Rebuild
no_rows = record { pos = []; rows = []; live = [] }

-- `pos[rid] = rows.size(); rows.push_back(…); live.push_back(true);`
pub push : Rebuild → BaseRow → Rebuild
push st row = record {
  pos = insert row.rid (length st.rows) st.pos;
  rows = st.rows ++ row ∷ [];
  live = st.live ++ true ∷ [];
}

pub load : Rebuild → List BaseRow → Rebuild
unfolding push
load st [] = st
load st (row ∷ rows) = load (push st row) rows

-- The body of the loops over `log_` and `pending_`.
pub overlay : Rebuild → Change → Rebuild
unfolding push
overlay st c = elim (find c.rid st.pos) [
  | none ↦ if c.is_delete then st else push st (record { rid = c.rid; bytes = c.bytes })
  | some i ↦ if c.is_delete then record st { live = modify st.live i (λ _. false) } else record st {
    rows = modify st.rows i (λ row. record row { bytes = c.bytes });
    live = modify st.live i (λ _. true);
  }
]

-- The loop over `log_`, with its two `continue`s and its `break`.
pub replay : ℤ → ℕ → ℕ → Rebuild → List Change → Rebuild
unfolding overlay
replay table base version st [] = st
replay table base version st (c ∷ cs) =
    let skipped = replay table base version st cs in
    let applied = replay table base version (overlay st c) cs in
    if leb c.version base
    then skipped
    else if ltb version c.version
    then st
    else if int_beq c.table_id table
    then applied
    else skipped

-- The last loop: the rows that are live.
pub live_rows : List BaseRow → List Bool → List BaseRow
live_rows [] live = []
live_rows (row ∷ rows) [] = []
live_rows (row ∷ rows) (b ∷ live) = let rest = live_rows rows live in if b then row ∷ rest else rest

unfoldable pub reconstruct : VersionStore → ℤ → ℕ → List BaseRow
unfolding load replay live_rows
reconstruct s table version =
    let loaded = load no_rows (get_or [] table s.baseline) in
    let st = replay table s.baseline_version version loaded s.log in live_rows st.rows st.live

-- The rows that `snapshotAsOf` strips to their bytes.
unfoldable pub rows_as_of : VersionStore → ℤ → ℕ → List BaseRow
unfolding reconstruct
rows_as_of s table version =
    reconstruct s table (if ltb version s.baseline_version then s.baseline_version else version)

unfoldable pub snapshot_as_of : VersionStore → ℤ → ℕ → List Bytes
unfolding rows_as_of
snapshot_as_of s table version = map (λ row. row.bytes) (rows_as_of s table version)

unfoldable pub begin_snapshot : VersionStore → ℤ → VersionStore
begin_snapshot s txn = record s { txn_snapshots = insert txn s.version s.txn_snapshots }

unfoldable pub end_snapshot : VersionStore → ℤ → VersionStore
end_snapshot s txn = record s { txn_snapshots = erase txn s.txn_snapshots }

unfoldable pub snapshot_version_of : VersionStore → ℤ → Option ℕ
snapshot_version_of s txn = find txn s.txn_snapshots

-- The loop of `snapshotForTxn` over `pending_`.
pub overlay_pending : ℤ → Rebuild → List Change → Rebuild
unfolding overlay
overlay_pending table st [] = st
overlay_pending table st (c ∷ cs) =
    overlay_pending table (if int_beq c.table_id table then overlay st c else st) cs

-- The rows that `snapshotForTxn` strips to their bytes: its `pos` and `live` over the rebuilt
-- rows are those of a fresh load.
unfoldable pub rows_for_txn : VersionStore → ℤ → ℕ → List BaseRow
unfolding rows_as_of overlay_pending load live_rows
rows_for_txn s table snapshot =
    let st = overlay_pending table (load no_rows (rows_as_of s table snapshot)) s.pending in
    live_rows st.rows st.live

unfoldable pub snapshot_for_txn : VersionStore → ℤ → ℕ → List Bytes
unfolding rows_for_txn
snapshot_for_txn s table snapshot = map (λ row. row.bytes) (rows_for_txn s table snapshot)

-- The baselines of all known tables as of the horizon. The set's order has no effect on a map.
pub new_baseline : VersionStore → ℕ → List ℤ → Dict ℤ (List BaseRow)
unfolding reconstruct
new_baseline s horizon [] = []
new_baseline s horizon (t ∷ ts) = insert t (reconstruct s t horizon) (new_baseline s horizon ts)

pub kept_after : ℕ → List Change → List Change
kept_after horizon [] = []
kept_after horizon (c ∷ cs) =
    let rest = kept_after horizon cs in if ltb horizon c.version then c ∷ rest else rest

unfoldable pub gc : VersionStore → ℕ → VersionStore
unfolding new_baseline kept_after
gc s asked =
    let horizon = if ltb s.version asked then s.version else asked in
    if leb horizon s.baseline_version then s else record s {
      log = kept_after horizon s.log;
      baseline = new_baseline s horizon s.known_tables;
      baseline_version = horizon;
    }

unfoldable pub maybe_gc : VersionStore → VersionStore
unfolding gc
maybe_gc s =
    if leb (length s.log) s.max_changes
    then s
    else if leb s.version s.retain_versions
    then s
    else gc s (s.version - s.retain_versions)

pub stamp : ℕ → List Change → List Change
stamp version [] = []
stamp version (c ∷ cs) = record c { version = version } ∷ stamp version cs

-- `commitPending` without the collection at its end.
pub commit_changes : VersionStore → VersionStore
unfolding stamp
commit_changes s =
    let version = (s.version + 1) % 2 ^ 64 in
    record s { version = version; log = s.log ++ stamp version s.pending; pending = [] }

unfoldable pub commit_pending : VersionStore → VersionStore × ℕ
unfolding commit_changes maybe_gc
commit_pending s = elim s.pending [
  | [] ↦ (s, s.version)
  | c ∷ cs ↦ let s' = maybe_gc (commit_changes s) in (s', s'.version)
]
