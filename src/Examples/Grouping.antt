-- ===== src/Examples/Grouping.antt =====
-- Aggregation at concrete inputs: SELECT COUNT(*) FROM t GROUP BY a over 7, null, 7.
use mini_postgres.Base.{◌≡◌, refl, ℕ, ℤ, pos, [], ◌∷◌, ok, ltb_ℤ, beq_ℤ}
use mini_postgres.Dict.{get, put}
use mini_postgres.Values.{Scalar, integer, null, text_equal}
use mini_postgres.Values.Expressions.{evaluate}
use mini_postgres.Executor.Rows.{Row, Rows, from_list, evaluate_on, of_expression}
use mini_postgres.Executor.Keys.{append_to, same_key, tuple_equal}
use mini_postgres.Executor.Keys.Equality.{IsIdentity, beq_ℤ-eq}
use mini_postgres.Executor.Aggregates.{
  Mixed, aggregate_rows, group_rows, group_key, with_default, group_results, key_values,
  call_values, aggregate_value, values_of,
}
use mini_postgres.Executor.Aggregates.Groups.{IsAggregated, aggregate_rows-IsAggregated}
use mini_postgres.Examples.Values.{whole}
use mini_postgres.Examples.Plans.{column_of, count_star}
use mini_postgres.Examples.Joins.{
  key_discrete, computed_hashable, whole-IsExact, equals_whole, row_of,
}

abbrev pub mixed_whole : Mixed ℤ
mixed_whole = record {
  is_same = λ n m. beq_ℤ n m;
  equals_int = equals_whole;
  less_int = λ n m. ltb_ℤ n m;
  greater_int = λ n m. ltb_ℤ m n;
  sum_floats = λ xs. pos 0;
}

abbrev rows : Rows (Row ℤ)
rows =
    from_list (row_of 1 (integer (pos 7)) 0 ∷ row_of 1 null 1 ∷ row_of 1 (integer (pos 7)) 2 ∷ [])

abbrev counted : Scalar ℤ → ℕ → Row ℤ
counted v n = record {
  cells = [];
  tids = [];
  computed = (of_expression (column_of 1), v) ∷ (of_expression count_star, integer (pos n)) ∷ [];
}

abbrev counts : Rows (Row ℤ)
counts = from_list (counted (integer (pos 7)) 2 ∷ counted null 1 ∷ [])

-- The two rows with a 7 are one group, and the row with the null another.
counts_of_rows :
    aggregate_rows whole mixed_whole (ok rows) (column_of 1 ∷ []) (count_star ∷ []) ≡ ok counts
unfolding key_discrete aggregate_rows group_rows group_key evaluate_on evaluate get put append_to
    tuple_equal same_key with_default group_results key_values call_values aggregate_value values_of
    text_equal
counts_of_rows = refl

whole-IsIdentity : IsIdentity mixed_whole.is_same
whole-IsIdentity = beq_ℤ-eq

aggregate_rows-IsAggregated_example :
    (rs : Rows (Row ℤ)) × (ok rows ≡ ok rs)
    × IsAggregated whole mixed_whole whole-IsExact whole-IsIdentity
        (column_of 1 ∷ [])
        (count_star ∷ [])
        rs
        counts
aggregate_rows-IsAggregated_example =
    aggregate_rows-IsAggregated whole mixed_whole whole-IsExact whole-IsIdentity (column_of 1 ∷ [])
      (count_star ∷ []) (ok rows) counts counts_of_rows
