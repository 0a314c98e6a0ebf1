-- ===== src/Vm/Columns.antt =====
-- src/vm/column_store.cpp: tables by columns, with the least and the greatest value of each block
-- of rows, by which a filter skips blocks. A read past the end of an array, which does not happen
-- on the tables that `get_or_build` makes, gives the type's default.
pub mod Aggregate
pub mod Order
pub mod Cells
pub mod Zones
pub mod Skip
pub mod Whole
pub mod Built
use prqlite.Base.{
  ℕ, zero, suc, ◌+◌, ◌-◌, ◌*◌, ◌/◌, ◌==◌, ltb, leb, ℤ, pos, negsuc, is_neg, magnitude, int_beq,
  Bool, true, false, not, ◌&&◌, ◌||◌, map, List, [], ◌∷◌, ◌++◌, Option, none, some, if◌then◌else◌,
  Bytes, length, get_elem?, Dict, find, insert, erase, ◌>>=◌, int_eq,
}
use prqlite.Vm.Values.{
  Doubles, Value, ValueType, null, make_int, make_bool, make_text, make_double, is_null,
  is_negative, is_int_type, is_double_type, compare_values,
}
use prqlite.Vm.Tuples.{
  DataType, int, bool, text, varchar, float, date, timestamp, Schema, deserialize,
}
use prqlite.Vm.Eval.{holds_op, is_bool_type, is_text_type}
use prqlite.Frontend.Ast.{ComparisonOp}

-- `kBlockRows`.
abbrev pub block_rows : ℕ
block_rows = 1024

-- An element of an array, or the default.
abbrev pub at {ℓ} : {A : Type ℓ} → A → List A → ℕ → A
at default xs i = elim (get_elem? xs i) [ none ↦ default | some x ↦ x ]

-- A loop over rows: from a row on, a number of times.
unfoldable pub fold_rows {ℓ} : {A : Type ℓ} → (A → ℕ → A) → A → ℕ → ℕ → A
fold_rows f a start zero = a
fold_rows f a start (suc n) = fold_rows f (f a start) (suc start) n

-- The numbers from a first one on.
unfoldable pub count_up : ℕ → ℕ → List ℕ
count_up start zero = []
count_up start (suc n) = start ∷ count_up (suc start) n

-- How many blocks there are, and how many rows a block has.
abbrev pub block_count : ℕ → ℕ
block_count rows = (rows + (block_rows - 1)) / block_rows

abbrev pub block_size : ℕ → ℕ → ℕ
block_size rows b =
    let start = b * block_rows in
    (if ltb (start + block_rows) rows then start + block_rows else rows) - start

unfoldable pub is_positive : Option ℤ → Bool
is_positive (some (pos (suc n))) = true
is_positive _ = false

-- The `switch` of `blockExcludesTerm`, on the comparisons of the literal with the two ends.
unfoldable pub excludes : ComparisonOp → Option ℤ → ℤ → ℤ → Bool
excludes ComparisonOp.eq span l_min l_max = is_neg l_min || is_positive (some l_max)
excludes ComparisonOp.lt span l_min l_max = is_neg l_min || int_beq l_min (pos 0)
excludes ComparisonOp.leq span l_min l_max = is_neg l_min
excludes ComparisonOp.gt span l_min l_max = not (is_neg l_max)
excludes ComparisonOp.geq span l_min l_max = is_positive (some l_max)
excludes ComparisonOp.neq none l_min l_max = false
excludes ComparisonOp.neq (some c) l_min l_max = int_beq c (pos 0) && int_beq l_min (pos 0)

unfoldable pub excludes_of : ComparisonOp → Option ℤ → Option ℤ → Option ℤ → Bool
unfolding excludes
excludes_of op span none l_max = false
excludes_of op span (some l_min) none = false
excludes_of op span (some l_min) (some l_max) = excludes op span l_min l_max

unfoldable pub holds_of : ComparisonOp → Option ℤ → Bool
unfolding holds_op
holds_of op none = false
holds_of op (some c) = holds_op op c

module _ (d : Doubles) where
  pub record ColumnZone : Type 0 where
    pub has_non_null : Bool
    pub min : Value d
    pub max : Value d

  pub record Column : Type 0 where
    pub type : DataType
    pub ints : List ℤ
    pub doubles : List d.Double
    pub bools : List ℕ
    pub texts : List Bytes
    pub is_null : List ℕ
    pub zones : List ColumnZone

  pub record TableColumns : Type 0 where
    pub columns : List Column
    pub rows : ℕ

  -- `VecPredicate`: its terms.
  pub record Term : Type 0 where
    pub column : ℤ
    pub op : ComparisonOp
    pub literal : Value d

  -- `col.isNull[row]` as a condition.
  abbrev pub null_in : Column → ℕ → Bool
  null_in col row = not (at 0 col.is_null row == 0)

  unfoldable pub typed_value : DataType → Column → ℕ → Value d
  typed_value int col row = make_int d (at (pos 0) col.ints row)
  typed_value float col row = make_double d (at d.zero_double col.doubles row)
  typed_value bool col row = make_bool d (not (at 0 col.bools row == 0))
  typed_value _ col row = make_text d (at [] col.texts row)

  unfoldable pub column_value : Column → ℕ → Value d
  unfolding typed_value
  column_value col row = if null_in col row then null d else typed_value col.type col row

  abbrev pub empty_zone : ColumnZone
  empty_zone = record { has_non_null = false; min = null d; max = null d }

  -- One row of the inner loop of `buildZones`.
  unfoldable pub zone_step : Column → ColumnZone → ℕ → ColumnZone
  unfolding column_value is_positive
  zone_step col z r =
      let v = column_value col r in
      if null_in col r
      then z
      else if not z.has_non_null
      then record { has_non_null = true; min = v; max = v }
      else record {
        has_non_null = true;
        min = if is_negative (compare_values d v z.min) then v else z.min;
        max = if is_positive (compare_values d v z.max) then v else z.max;
      }

  unfoldable pub block_zone : Column → ℕ → ℕ → ColumnZone
  unfolding fold_rows zone_step
  block_zone col rows b = fold_rows (zone_step col) empty_zone (b * block_rows) (block_size rows b)

  unfoldable pub build_zones : Column → ℕ → Column
  unfolding block_zone count_up
  build_zones col rows = record col {
    zones = map (block_zone col rows) (count_up 0 (block_count rows));
  }

  unfoldable pub block_excludes_term : Term → ColumnZone → Bool
  unfolding excludes_of
  block_excludes_term term z =
      if not z.has_non_null
      then true
      else excludes_of term.op (compare_values d z.min z.max) (compare_values d term.literal z.min)
          (compare_values d term.literal z.max)

  -- The column that a number stands for, where it is one.
  abbrev pub column_at : TableColumns → ℤ → Option Column
  column_at table n = if is_neg n then none else get_elem? table.columns (magnitude n)

  abbrev pub term_skips : Term → ℕ → Option Column → Bool
  term_skips term b none = false
  term_skips term b (some col) = elim (get_elem? col.zones b) [
    | none ↦ false
    | some z ↦ block_excludes_term term z
  ]

  unfoldable pub block_skippable : List Term → TableColumns → ℕ → Bool
  unfolding block_excludes_term
  block_skippable [] table b = false
  block_skippable (term ∷ terms) table b =
      let later = block_skippable terms table b in
      if term_skips term b (column_at table term.column) then true else later

  unfoldable pub term_passes : Term → Column → ℕ → Bool
  unfolding holds_of column_value
  term_passes term col row =
      if null_in col row
      then false
      else holds_of term.op (compare_values d (column_value col row) term.literal)

  -- `push_back` on every array of a column.
  unfoldable pub push_cell : Column → Option (Value d) → Column
  push_cell col o =
      let v : Value d = elim o [ none ↦ null d | some v ↦ v ] in
      if is_null d v
      then record col {
        ints = col.ints ++ pos 0 ∷ [];
        doubles = col.doubles ++ d.zero_double ∷ [];
        bools = col.bools ++ 0 ∷ [];
        texts = col.texts ++ [] ∷ [];
        is_null = col.is_null ++ 1 ∷ [];
      }
      else record col {
        ints = col.ints ++ (if is_int_type v.type then v.int_value else pos 0) ∷ [];
        doubles =
            col.doubles ++ (if is_double_type v.type then v.double_value else d.zero_double) ∷ [];
        bools = col.bools ++ (if is_bool_type v.type && v.bool_value then 1 else 0) ∷ [];
        texts = col.texts ++ (if is_text_type v.type then v.text_value else []) ∷ [];
        is_null = col.is_null ++ 0 ∷ [];
      }

  unfoldable pub push_row : List Column → List (Value d) → List Column
  unfolding push_cell
  push_row [] tuple = []
  push_row (col ∷ cols) [] = push_cell col none ∷ push_row cols []
  push_row (col ∷ cols) (v ∷ tuple) = push_cell col (some v) ∷ push_row cols tuple

  abbrev pub empty_column : DataType → Column
  empty_column t = record {
    type = t;
    ints = [];
    doubles = [];
    bools = [];
    texts = [];
    is_null = [];
    zones = [];
  }

  -- The loop over the rows of the table, which are parameters here; `none` where one is malformed.
  unfoldable pub read_rows : Schema → TableColumns → List Bytes → Option TableColumns
  unfolding push_row
  read_rows schema table [] = some table
  read_rows schema table (bytes ∷ rest) = do
    tuple ← deserialize d bytes schema
    read_rows schema (record { columns = push_row table.columns tuple; rows = suc table.rows }) rest

  unfoldable pub build_table : Schema → List Bytes → Option TableColumns
  unfolding read_rows build_zones
  build_table schema rows = do
    table ← read_rows schema (record { columns = map empty_column schema; rows = 0 }) rows
    some (record table { columns = map (λ col. build_zones col table.rows) table.columns })

  -- `cache_`.
  abbrev pub ColumnStore : Type 0
  ColumnStore = Dict ℤ TableColumns

  unfoldable pub invalidate : ColumnStore → ℤ → ColumnStore
  invalidate cache table_id = erase table_id cache

  abbrev pub clear : ColumnStore → ColumnStore
  clear cache = []

  unfoldable pub get_or_build :
      ColumnStore → ℤ → Schema → List Bytes → Option (TableColumns × ColumnStore)
  unfolding build_table
  get_or_build cache table_id schema rows = elim (find table_id cache) [
    | some table ↦ some (table, cache)
    | none ↦ do table ← build_table schema rows; some (table, insert table_id table cache)
  ]
