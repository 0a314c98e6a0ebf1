-- ===== src/Vm/Columns/Built.antt =====
-- src/vm/column_store.cpp: the tables that `getOrBuild` makes.
use prqlite.Base.{
  ℕ, zero, suc, Bool, true, map, List, [], ◌∷◌, Option, some, get_elem?, Bytes, Option-cases, ◌≡◌,
  inl, inr, refl, ap, ap₂, if◌then◌else◌, not, ◌*◌, sym, subst, ◌∙◌, arith,
}
use prqlite.Vm.Values.{Doubles, Value, null, is_negative, compare_values}
use prqlite.Vm.Tuples.{DataType, int, float, bool, Schema}
use prqlite.Vm.Columns.{
  Column, ColumnZone, fold_rows, count_up, block_rows, block_count, block_size, null_in,
  typed_value, column_value, is_positive, zone_step, block_zone, empty_zone, TableColumns, Term,
  empty_column, read_rows, build_zones, build_table,
}
use prqlite.Vm.Columns.Order.{RanksDoubles}
use prqlite.Vm.Columns.Cells.{HasNumbers}
use prqlite.Vm.Columns.Skip.{IsBuilt}
use prqlite.Vm.Columns.Aggregate.{VecAggregate, columnar_aggregate}
use prqlite.Vm.Columns.Whole.{whole_aggregate, columnar_aggregate_whole}

get_elem?-map {ℓ κ} :
    {A : Type ℓ} {B : Type κ} (f : A → B) (xs : List A) (n : ℕ) (y : B)
    → get_elem? (map f xs) n ≡ some y
    → (x : A) × (y ≡ f x)
unfolding get_elem?
get_elem?-map f [] n y h = absurd (ground (arith, h))
get_elem?-map f (x ∷ xs) zero y h = (x, ground (arith, h))
get_elem?-map f (x ∷ xs) (suc n) y h = get_elem?-map f xs n y h

fold_rows_cong {ℓ} :
    {A : Type ℓ} (f g : A → ℕ → A)
    → ((a : A) (r : ℕ) → f a r ≡ g a r)
    → (a : A) (start n : ℕ) → fold_rows f a start n ≡ fold_rows g a start n
unfolding fold_rows
fold_rows_cong f g e a start zero = refl
fold_rows_cong f g e a start (suc n) =
    ap (λ x. fold_rows f x (suc start) n) (e a start)
    ∙ fold_rows_cong f g e (g a start) (suc start) n

map_cong {ℓ κ} :
    {A : Type ℓ} {B : Type κ} {f g : A → B}
    → ((x : A) → f x ≡ g x)
    → (xs : List A) → map f xs ≡ map g xs
map_cong e [] = refl
map_cong e (x ∷ xs) = ap₂ ◌∷◌ (e x) (map_cong e xs)

module _ (d : Doubles) (o : RanksDoubles d) where
  -- No column has a NaN.
  abbrev pub AllNumbers : TableColumns d → Type 0
  AllNumbers table =
      (n : ℕ) (col : Column d) → get_elem? table.columns n ≡ some col → HasNumbers d o col

  abbrev zone_of : ColumnZone d → Bool → Value d → ColumnZone d
  zone_of z gone v =
      if gone
      then z
      else if not z.has_non_null
      then record { has_non_null = true; min = v; max = v }
      else record {
        has_non_null = true;
        min = if is_negative (compare_values d v z.min) then v else z.min;
        max = if is_positive (compare_values d v z.max) then v else z.max;
      }

  -- The zones that a column has do not matter for those it gets.
  module _ (col : Column d) (rows : ℕ) where
    typed_value_zoned :
        (t : DataType) (r : ℕ) → typed_value d t (build_zones d col rows) r ≡ typed_value d t col r
    unfolding typed_value build_zones
    typed_value_zoned int r = refl
    typed_value_zoned float r = refl
    typed_value_zoned bool r = refl
    typed_value_zoned _ r = refl

    column_value_zoned : (r : ℕ) → column_value d (build_zones d col rows) r ≡ column_value d col r
    unfolding column_value build_zones
    column_value_zoned r =
        ap (λ v. if null_in d col r then null d else v) (typed_value_zoned col.type r)

    zone_step_zoned :
        (z : ColumnZone d) (r : ℕ) → zone_step d (build_zones d col rows) z r ≡ zone_step d col z r
    unfolding zone_step build_zones
    zone_step_zoned z r = ap (λ v. zone_of z (null_in d col r) v) (column_value_zoned r)

    block_zone_zoned :
        (b : ℕ) → block_zone d (build_zones d col rows) rows b ≡ block_zone d col rows b
    unfolding block_zone
    block_zone_zoned b =
        fold_rows_cong (zone_step d (build_zones d col rows)) (zone_step d col) zone_step_zoned
          (empty_zone d) (b * block_rows) (block_size rows b)

    build_zones_again :
        (build_zones d (build_zones d col rows) rows).zones ≡ (build_zones d col rows).zones
    unfolding build_zones
    build_zones_again = map_cong block_zone_zoned (count_up 0 (block_count rows))

  zoned-IsBuilt :
      (table : TableColumns d)
      → let zoned = record table {
        columns = map (λ col. build_zones d col table.rows) table.columns;
      } in
        AllNumbers zoned → IsBuilt d o zoned
  zoned-IsBuilt table numbers = record {
    zones = λ n col h.
        let (raw, e) = get_elem?-map (λ c. build_zones d c table.rows) table.columns n col h in
        ap (λ (c : Column d). c.zones) e
        ∙ sym (build_zones_again raw table.rows)
        ∙ ap (λ c. (build_zones d c table.rows).zones) (sym e);
    numbers = numbers;
  }

  build_table_zoned :
      (schema : Schema) (bytes : List Bytes) (table : TableColumns d)
      → build_table d schema bytes ≡ some table
      → (raw : TableColumns d) × (table
          ≡ record raw { columns = map (λ col. build_zones d col raw.rows) raw.columns })
  unfolding build_table
  build_table_zoned schema bytes table h =
      elim (Option-cases
        (read_rows d schema (record { columns = map (empty_column d) schema; rows = 0 }) bytes)) [
          | inl bad ↦ absurd (ground (arith, h, bad))
          | inr (raw, e) ↦ (raw, ground (arith, h, e))
        ]

  -- The aggregates over a table that was built from its rows, in which no double is a NaN, are
  -- those of one pass over all its rows, though blocks are skipped by their least and greatest
  -- values.
  pub columnar_aggregate-build_table :
      (schema : Schema) (bytes : List Bytes) (table : TableColumns d)
      (aggregates : List VecAggregate) (predicate : Option (List (Term d)))
      → build_table d schema bytes ≡ some table
      → AllNumbers table
      → (columnar_aggregate d table aggregates predicate).0
        ≡ map (whole_aggregate d o predicate table) aggregates
  columnar_aggregate-build_table schema bytes table aggregates predicate h numbers =
      let (raw, e) = build_table_zoned schema bytes table h in
      columnar_aggregate_whole d o table aggregates predicate
        (subst (IsBuilt d o) (sym e) (zoned-IsBuilt raw (subst AllNumbers e numbers)))
