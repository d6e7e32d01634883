-- ===== src/Examples/Filtering.antt =====
-- Filters at concrete inputs: a = 7 AND a = 7 over 7, null.
use mini_postgres.Base.{◌≡◌, refl, ℤ, pos, [], ◌∷◌, ok}
use mini_postgres.Dict.{get}
use mini_postgres.Values.{
  integer, null, compare_values, compare_by, validate_int64, sql_and, sql_bool, and_sql,
}
use mini_postgres.Values.Expressions.{BoundExpr, evaluate, binary_values}
use mini_postgres.Values.Expressions.Typing.{nullable_of}
use mini_postgres.Planner.Rules.{conjunction}
use mini_postgres.Executor.Rows.{Row, Rows, from_list, drain, evaluate_on}
use mini_postgres.Executor.Operators.{filter_rows}
use mini_postgres.Executor.Operators.Filters.{filter_rows-conjunction}
use mini_postgres.Examples.Values.{whole}
use mini_postgres.Examples.Plans.{column_of, constant, equals}
use mini_postgres.Examples.Joins.{computed_hashable, row_of}

abbrev is_seven : BoundExpr ℤ
is_seven = equals (column_of 1) (constant 7)

abbrev some_rows : Rows (Row ℤ)
some_rows = from_list (row_of 1 (integer (pos 7)) 0 ∷ row_of 1 null 1 ∷ [])

seven_of_rows :
    drain (filter_rows whole (conjunction is_seven is_seven) some_rows)
    ≡ ok (row_of 1 (integer (pos 7)) 0 ∷ [])
unfolding drain filter_rows conjunction nullable_of evaluate_on evaluate get binary_values
    compare_values compare_by validate_int64 sql_and sql_bool and_sql
seven_of_rows = refl

filter_rows-conjunction_example :
    drain (filter_rows whole is_seven (filter_rows whole is_seven some_rows))
    ≡ ok (row_of 1 (integer (pos 7)) 0 ∷ [])
filter_rows-conjunction_example =
    filter_rows-conjunction whole is_seven is_seven some_rows (row_of 1 (integer (pos 7)) 0 ∷ [])
      (refl, (refl, tt)) seven_of_rows
