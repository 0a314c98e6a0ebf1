-- ===== src/Tests/Columns.antt =====
-- src/vm/column_store.cpp and src/vm/vectorized.cpp on a table of one column and two rows.
use prqlite.Base.{
  ◌++◌, bit_at, split, drop, of_le, take, pos, true, map, List, [], ◌∷◌, some, get_elem?, Bytes,
  ◌≡◌, refl, arith,
}
use prqlite.Vm.Values.{Value, is_int_type, is_double_type, int_less, make_int, make_text, null}
use prqlite.Vm.Tuples.{int, Schema, deserialize}
use prqlite.Vm.Columns.{TableColumns, Term, Column, build_table}
use prqlite.Vm.Columns.Order.{RanksDoubles}
use prqlite.Vm.Columns.Aggregate.{AggregateKind, VecAggregate, columnar_aggregate}
use prqlite.Vm.Columns.Whole.{whole_aggregate}
use prqlite.Vm.Columns.Built.{columnar_aggregate-build_table}
use prqlite.Vm.Columns.Aggregate.{finalize_partial, empty_acc}
use prqlite.Vm.Vectorized.{run_vectorized_aggregate}
use prqlite.Vm.Vectorized.Batches.{fold_tuples}
use prqlite.Vm.Vectorized.Join.{build_side, probe_row}
use prqlite.Vm.Vectorized.Equal.{IsKey, AreKeys, rows_equal, probe_row-build_side}
use prqlite.Vm.Vectorized.Passes.{run_vectorized_aggregate_lem}
use prqlite.Frontend.Ast.{ComparisonOp}
use prqlite.Tests.Rows.{whole}

whole-RanksDoubles : RanksDoubles whole
unfolding int_less
whole-RanksDoubles = record {
  is_number = λ x. true;
  asymmetric = λ x y h. ground (arith, h);
  weak = λ x y z n h k. ground (arith, h, k);
  of_int_number = λ a. refl;
  of_int_less = λ a b h. h;
}

abbrev one_int : Schema
one_int = int ∷ []

-- The rows 7 and a null.
abbrev two_rows : List Bytes
two_rows = (0 ∷ 7 ∷ 0 ∷ 0 ∷ 0 ∷ 0 ∷ 0 ∷ 0 ∷ 0 ∷ []) ∷ (1 ∷ []) ∷ []

abbrev seven_column : Column whole
seven_column = record {
  type = int;
  ints = pos 7 ∷ pos 0 ∷ [];
  doubles = pos 0 ∷ pos 0 ∷ [];
  bools = 0 ∷ 0 ∷ [];
  texts = [] ∷ [] ∷ [];
  is_null = 0 ∷ 1 ∷ [];
  zones =
      record { has_non_null = true; min = make_int whole (pos 7); max = make_int whole (pos 7) }
      ∷ [];
}

abbrev seven_table : TableColumns whole
seven_table = record { columns = seven_column ∷ []; rows = 2 }

abbrev sums : List VecAggregate
sums =
    record { kind = AggregateKind.sum; column = pos 0 }
    ∷ record { kind = AggregateKind.count_star; column = pos 0 }
    ∷ []

abbrev below_eight : List (Term whole)
below_eight = record { column = pos 0; op = ComparisonOp.lt; literal = make_int whole (pos 8) } ∷ []

built : build_table whole one_int two_rows ≡ some seven_table
unfolding build_table deserialize bit_at get_elem? split drop is_int_type is_double_type of_le take
built = refl

columnar_aggregate-build_table_example :
    (columnar_aggregate whole seven_table sums (some below_eight)).0
    ≡ map (whole_aggregate whole whole-RanksDoubles (some below_eight) seven_table) sums
unfolding whole-RanksDoubles
columnar_aggregate-build_table_example =
    columnar_aggregate-build_table whole whole-RanksDoubles one_int two_rows seven_table sums
      (some below_eight) built (λ n col h r. refl)

abbrev tuples : List (List (Value whole))
tuples =
    (make_int whole (pos 7) ∷ [])
    ∷ (make_int whole (pos 9) ∷ [])
    ∷ (make_int whole (pos 1) ∷ [])
    ∷ []

run_vectorized_aggregate_lem_example :
    run_vectorized_aggregate whole 1 (some below_eight) sums 2 tuples
    ≡ map
        (λ agg.
          finalize_partial whole agg.kind
            (fold_tuples whole 1 (some below_eight) agg (empty_acc whole) tuples))
        sums
run_vectorized_aggregate_lem_example =
    run_vectorized_aggregate_lem whole 1 (some below_eight) 2 sums tuples

-- Rows whose keys are 9, the text "9", NULL, and 9 again.
abbrev build_rows : List (List (Value whole))
build_rows =
    (make_int whole (pos 9) ∷ [])
    ∷ (make_text whole (b'9' ∷ []) ∷ [])
    ∷ (null whole ∷ [])
    ∷ (make_int whole (pos 9) ∷ make_int whole (pos 5) ∷ [])
    ∷ []

build_rows-AreKeys : AreKeys whole 0 build_rows
unfolding IsKey is_double_type get_elem?
build_rows-AreKeys =
    ((refl, omega arith), ((refl, omega arith), ((refl, omega arith), ((refl, omega arith), tt))))

nine-IsKey : IsKey whole (make_int whole (pos 9))
unfolding IsKey is_double_type
nine-IsKey = (refl, omega arith)

probe_row-build_side_example :
    probe_row whole (build_side whole 0 [] build_rows) (make_int whole (pos 9)) []
    ≡ map (λ build_row. [] ++ build_row) (rows_equal whole 0 (make_int whole (pos 9)) build_rows)
probe_row-build_side_example =
    probe_row-build_side whole 0 build_rows (make_int whole (pos 9)) [] build_rows-AreKeys
      nine-IsKey
