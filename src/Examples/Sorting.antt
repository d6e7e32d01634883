-- ===== src/Examples/Sorting.antt =====
-- A sort at concrete inputs: ORDER BY a DESC over 7, null, 9.
use mini_postgres.Base.{◌≡◌, refl, ℤ, pos, true, false, List, none, [], ◌∷◌, ok, ltb_ℤ, arith}
use mathlib.Core.List.{Perm}
use mini_postgres.Dict.{get}
use mini_postgres.Values.{integer, null}
use mini_postgres.Values.Expressions.{evaluate}
use mini_postgres.Planner.Logical.{BoundOrderItem, desc}
use mini_postgres.Executor.Rows.{Row, Rows, from_list, drain, evaluate_on}
use mini_postgres.Executor.Aggregates.{key_less}
use mini_postgres.Executor.Sort.{
  compare_present, compare_order_values, compare_rows, insert_in_order, sort_list, sort_rows,
}
use mini_postgres.Executor.Sort.Flip.{IsStrict}
use mini_postgres.Executor.Sort.Order.{IsOrdered, sort_rows-IsOrdered}
use mini_postgres.Examples.Values.{whole}
use mini_postgres.Examples.Plans.{column_of}
use mini_postgres.Examples.Joins.{computed_hashable, row_of}
use mini_postgres.Examples.Grouping.{mixed_whole}

ltb_ℤ_asym : (n m : ℤ) → ltb_ℤ n m ≡ true → ltb_ℤ m n ≡ false
ltb_ℤ_asym n m h = ground arith

whole-IsStrict : IsStrict whole mixed_whole
whole-IsStrict = record {
  less_asym = ltb_ℤ_asym;
  less_int_asym = ltb_ℤ_asym;
  greater_int_asym = λ x n h. ltb_ℤ_asym n x h;
}

abbrev order : List (BoundOrderItem ℤ)
order = (record { expression = column_of 1; direction = desc; nulls = none }) ∷ []

abbrev unsorted : Rows (Row ℤ)
unsorted =
    from_list (row_of 1 (integer (pos 7)) 0 ∷ row_of 1 null 1 ∷ row_of 1 (integer (pos 9)) 2 ∷ [])

abbrev descending : Rows (Row ℤ)
descending =
    from_list (row_of 1 null 1 ∷ row_of 1 (integer (pos 9)) 2 ∷ row_of 1 (integer (pos 7)) 0 ∷ [])

-- A null comes first where the order is descending.
sorted_rows : sort_rows whole mixed_whole (ok unsorted) order ≡ ok descending
unfolding sort_rows sort_list insert_in_order compare_rows compare_order_values compare_present
    key_less evaluate_on evaluate get drain
sorted_rows = refl

sort_rows-IsOrdered_example :
    (rs : Rows (Row ℤ)) × (rows : List (Row ℤ)) × (sorted : List (Row ℤ)) × (ok unsorted ≡ ok rs)
    × (drain rs ≡ ok rows)
    × (descending ≡ from_list sorted)
    × Perm rows sorted
    × IsOrdered whole mixed_whole whole-IsStrict order sorted
sort_rows-IsOrdered_example =
    sort_rows-IsOrdered whole mixed_whole whole-IsStrict (ok unsorted) order descending sorted_rows
