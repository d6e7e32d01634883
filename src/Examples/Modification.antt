-- ===== src/Examples/Modification.antt =====
-- INSERT on a MemoryTable at concrete inputs.
use mini_postgres.Base.{
  ◌≡◌, refl, ℤ, pos, true, false, none, some, [], ◌∷◌, ok, err, constraint_violation,
}
use native.Mathlib.Decide.{ℕ_discrete}
use mini_postgres.Dict.{get, put}
use mini_postgres.Values.{integer, boolean, boolean_type, validate_scalar, validate_int64}
use mini_postgres.Values.Expressions.{bound_literal, evaluate}
use mini_postgres.Executor.Rows.{Row, Executor, evaluate_on}
use mini_postgres.Executor.Operators.{compute, values_rows}
use mini_postgres.Executor.Tables.{validate_row, validate_columns, IsLawful, IsInPlace}
use mini_postgres.Executor.Tables.Memory.{Slots, memory_table, memory_table-IsInPlace, insert}
use mini_postgres.Executor.Modify.{
  MvccContext, target_values, insert_candidates, insert_one, after_failure, insert_all, insert_open,
}
use mini_postgres.Planner.Logical.{TableMetadata}
use mini_postgres.Examples.Values.{whole, column_a}
use mini_postgres.Examples.Plans.{constant}
use mini_postgres.Examples.Joins.{key_discrete, computed_hashable}

abbrev table : TableMetadata
table = record { table_id = 1; name = 116 ∷ []; columns = column_a ∷ [] }

-- VALUES (1), (2)
abbrev two_rows : Executor (Row ℤ)
two_rows = ok (values_rows whole ((constant 1 ∷ []) ∷ (constant 2 ∷ []) ∷ []))

abbrev stored : Slots ℤ
stored = some (integer (pos 9) ∷ []) ∷ []

memory_table-IsInPlace_example : IsInPlace (column_a ∷ []) (memory_table {F = ℤ} (column_a ∷ []))
memory_table-IsInPlace_example = memory_table-IsInPlace (column_a ∷ [])

abbrev lawful : IsLawful (memory_table {F = ℤ} (column_a ∷ []))
lawful = memory_table-IsInPlace_example.lawful

-- a context without a transaction
abbrev no_mvcc : MvccContext (Slots ℤ) ℤ
no_mvcc = record { has_mvcc = false; insert_mvcc = none }

inserted_rows :
    insert_open (memory_table (column_a ∷ [])) no_mvcc table (column_a ∷ []) two_rows stored ≡ (
      ok 2,
      some (integer (pos 9) ∷ []) ∷ some (integer (pos 1) ∷ []) ∷ some (integer (pos 2) ∷ []) ∷ [],
    )
unfolding key_discrete insert_open insert_candidates insert_all insert_one after_failure
    target_values get put values_rows compute evaluate_on evaluate validate_row validate_columns
    validate_scalar validate_int64 insert ℕ_discrete
inserted_rows = refl

-- VALUES (1), (TRUE)
abbrev bad_rows : Executor (Row ℤ)
bad_rows = ok (
    values_rows whole
      ((constant 1 ∷ []) ∷ (bound_literal (boolean true) (some boolean_type) false ∷ []) ∷ []))

refused_rows :
    insert_open (memory_table (column_a ∷ [])) no_mvcc table (column_a ∷ []) bad_rows stored
    ≡ (err constraint_violation, stored)
unfolding key_discrete insert_open insert_candidates insert_all insert_one after_failure
    target_values get put values_rows compute evaluate_on evaluate validate_row validate_columns
    validate_scalar validate_int64 insert ℕ_discrete
refused_rows = refl
