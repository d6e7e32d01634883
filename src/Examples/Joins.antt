-- ===== src/Examples/Joins.antt =====
-- Joins at concrete inputs: two tables of two rows, of which one has a null key.
use mini_postgres.Base.{
  ◌≡◌, refl, sym, ◌∙◌, some, Bool, true, [], ◌∷◌, ok, err, ℕ, ℤ, pos, beq_ℤ, type_mismatch, arith,
  Hashable,
}
use native.Mathlib.Decide.{ℕ_discrete}
use mini_postgres.Dict.{get}
use mini_postgres.Values.{
  Scalar, integer, null, int64_type, boolean_type, compare_values, compare_by, validate_int64,
}
use mini_postgres.Values.Expressions.{ColumnBinding, evaluate, binary_values}
use mini_postgres.Values.Expressions.Typing.{fits, is_int64}
use mini_postgres.Executor.Rows.{
  ComputedKey, Row, from_list, drain, merge, overlaps, Executor, evaluate_on,
}
use mini_postgres.Executor.Keys.Equality.{IsExact, beq_ℤ-eq}
use mini_postgres.Executor.Joins.{
  hash_join, nested_loop_join, match_rows, nested_rows, join_executor,
}
use mini_postgres.Executor.Joins.Merging.{HasColumn}
use mini_postgres.Executor.Joins.Equivalence.{hash_join-nested_loop_join}
use mini_postgres.Executor.Joins.Reversed.{join_executor-reversed}
use mini_postgres.Examples.Values.{whole}
use mini_postgres.Examples.Plans.{decided, decided_iff, equals, column_of}

unfoldable pub key_discrete : Discrete (ComputedKey ℤ)
key_discrete = hlevel ℕ_discrete

instance abbrev pub computed_hashable : Hashable (ComputedKey ℤ)
computed_hashable = record {
  same = λ j k. decided (key_discrete j k);
  same_iff = λ j k. decided_iff (key_discrete j k);
}

abbrev pub equals_whole : ℤ → ℤ → Bool
equals_whole n m = beq_ℤ n m

beq_ℤ_trans : (a b c : ℤ) → beq_ℤ a b ≡ true → beq_ℤ b c ≡ true → beq_ℤ a c ≡ true
beq_ℤ_trans a b c h g = ground arith

pub whole-IsExact : IsExact whole equals_whole
whole-IsExact = record {
  equal_sym = λ x y h. ground arith;
  equal_trans = beq_ℤ_trans;
  equal_int = λ x y n h g. ground arith;
  int_equal = λ x y n h g. ground arith;
  int_unique = λ x n m h g. sym (beq_ℤ-eq x n h) ∙ beq_ℤ-eq x m g;
}

abbrev key_column : ℕ → ColumnBinding
key_column n = record { table_id = n; column_id = 0 }

abbrev pub row_of : ℕ → Scalar ℤ → ℕ → Row ℤ
row_of n v slot = record {
  cells = (key_column n, v) ∷ [];
  tids = (n, record { page_id = 0; slot_id = slot }) ∷ [];
  computed = [];
}

abbrev rows_of : ℕ → Executor (Row ℤ)
rows_of n = ok (from_list (row_of n (integer (pos 7)) 0 ∷ row_of n null 1 ∷ []))

row-HasColumn :
    (n slot : ℕ) (v : Scalar ℤ)
    → fits v (some int64_type) true ≡ true
    → HasColumn (key_column n) int64_type (row_of n v slot)
unfolding get
row-HasColumn n slot v h = record { plain = refl; cell = v; here = ground arith; typed = h }

hash_join-nested_loop_join_example :
    hash_join whole equals_whole
      (rows_of 1)
      (rows_of 2)
      (column_of 1)
      (column_of 2)
      (some (equals (column_of 1) (column_of 2)))
    ≡ nested_loop_join whole (rows_of 1) (rows_of 2) (equals (column_of 1) (column_of 2))
unfolding merge overlaps get fits is_int64
hash_join-nested_loop_join_example =
    hash_join-nested_loop_join whole equals_whole whole-IsExact (key_column 1) (key_column 2)
      (97 ∷ []) (97 ∷ []) int64_type boolean_type true true true (rows_of 1) (rows_of 2)
      (row-HasColumn 1 0 (integer (pos 7)) refl, (row-HasColumn 1 1 null refl, tt))
      (row-HasColumn 2 0 (integer (pos 7)) refl, (row-HasColumn 2 1 null refl, tt))
      (((_, refl), ((_, refl), tt)), (((_, refl), ((_, refl), tt)), tt))

join_executor-reversed_example :
    (join_executor whole equals_whole (rows_of 1) (rows_of 2) (equals (column_of 2) (column_of 1))
      ≡ err type_mismatch)
    × (nested_loop_join whole (rows_of 1) (rows_of 2) (equals (column_of 2) (column_of 1))
        ≡ ok (
            nested_rows whole
              (equals (column_of 2) (column_of 1))
              (row_of 2 (integer (pos 7)) 0 ∷ row_of 2 null 1 ∷ [])
              (from_list (row_of 1 (integer (pos 7)) 0 ∷ row_of 1 null 1 ∷ []))))
unfolding get drain
join_executor-reversed_example =
    join_executor-reversed whole equals_whole (key_column 1) (key_column 2) (97 ∷ []) (97 ∷ [])
      int64_type int64_type boolean_type true true true _ (from_list (row_of 2 null 1 ∷ []))
      (row_of 2 (integer (pos 7)) 0) (row_of 2 null 1 ∷ []) refl refl refl refl

-- One row of the join, from the two rows with a key that is not null.
joined_row :
    nested_loop_join whole (rows_of 1) (rows_of 2) (equals (column_of 1) (column_of 2))
    ≡ ok (
        from_list (
          (record {
            cells = (key_column 1, integer (pos 7)) ∷ (key_column 2, integer (pos 7)) ∷ [];
            tids =
                (1, record { page_id = 0; slot_id = 0 })
                ∷ (2, record { page_id = 0; slot_id = 0 })
                ∷ [];
            computed = [];
          })
          ∷ []))
unfolding nested_loop_join nested_rows match_rows drain merge overlaps get evaluate_on evaluate
    binary_values compare_values compare_by validate_int64
joined_row = refl
