-- ===== src/Executor/Aggregates.antt =====
-- operators.py's AggregateExecutor. The builtin sum of values that are not all integers is a parameter,
-- and so are the comparisons of floats with integers.
pub mod Groups
pub mod Results
use mini_postgres.Base.{
  ◌≡◌, ℕ, ℤ, pos, Bool, true, false, ◌&&◌, Option, none, some, List, [], ◌∷◌, if◌then◌else◌, Result,
  ok, err, ◌>>=◌, Hashable, length, index_error, type_error, value_error, ltb_ℤ, ◌+ℤ◌,
}
use mini_postgres.Dict.{Dict, put}
use mini_postgres.Values.{
  Floats, Scalar, null, integer, float, DataType, int64_type, text_equal, text_less,
}
use mini_postgres.Values.Expressions.{
  BoundExpr, bound_function, BoundArguments, no_arguments, argument, Number, int_number,
  float_number, number, int64_result, as_float, is_null,
}
use mini_postgres.Sql.Syntax.{Name, count_name, sum_name, avg_name}
use mini_postgres.Executor.Rows.{
  ComputedKey, of_expression, Row, Rows, no_more, raises, row, Executor, from_list, evaluate_on,
}
use mini_postgres.Executor.Keys.{
  Key, null_key, int_key, float_key, text_key, key_of, tuple_equal, append_to,
}

abbrev min_name : Name
min_name = 77 ∷ 73 ∷ 78 ∷ []

abbrev max_name : Name
max_name = 77 ∷ 65 ∷ 88 ∷ []

-- x is y, x == n, x < n, x > n, and sum
pub record Mixed (F : Type 0) : Type 0 where
  pub is_same : F → F → Bool
  pub equals_int : F → ℤ → Bool
  pub less_int : F → ℤ → Bool
  pub greater_int : F → ℤ → Bool
  pub sum_floats : List (Number F) → F

-- the results of a group's aggregates are put beside the values that it is grouped by
abbrev pub Groups : Type 0 → Type 0
Groups F = List (List (Scalar F) × List (Row F))

module _ {F : Type 0} (floats : Floats F) (mixed : Mixed F) where
  -- Python's <
  unfoldable pub key_less : Key F → Key F → Result Bool
  unfolding text_less
  key_less (int_key n) (int_key m) = ok (ltb_ℤ n m)
  key_less (int_key n) (float_key y) = ok (mixed.greater_int y n)
  key_less (float_key x) (int_key m) = ok (mixed.less_int x m)
  key_less (float_key x) (float_key y) = ok (floats.less x y)
  key_less (text_key s) (text_key t) = ok (text_less s t)
  key_less _ _ = err type_error

  -- _extreme's loop, from the result so far
  unfoldable pub extreme : Bool → Scalar F → List (Scalar F) → Result (Scalar F)
  unfolding key_less
  extreme maximum result [] = ok result
  extreme maximum result (v ∷ vs) = do
    better ←
        if maximum then key_less (key_of result) (key_of v) else key_less (key_of v) (key_of result)
    extreme maximum (if better then v else result) vs

  unfoldable pub numbers : List (Scalar F) → Result (List (Number F))
  unfolding number
  numbers [] = ok []
  numbers (v ∷ vs) = do x ← number v; xs ← numbers vs; ok (x ∷ xs)

  -- the sum of integers, if there are no others
  unfoldable pub sum_integers : List (Number F) → Option ℤ
  sum_integers [] = some (pos 0)
  sum_integers (float_number x ∷ xs) = none
  sum_integers (int_number n ∷ xs) = elim (sum_integers xs) [ none ↦ none | some m ↦ some (n +ℤ m) ]

  -- sum(values)
  unfoldable pub sum_values : List (Number F) → Number F
  unfolding sum_integers
  sum_values xs = elim (sum_integers xs) [
    | some n ↦ int_number n
    | none ↦ float_number (mixed.sum_floats xs)
  ]

  abbrev of_number : Number F → Scalar F
  of_number (int_number n) = integer n
  of_number (float_number x) = float x

  -- SUM and AVG
  unfoldable pub sum_of : DataType → List (Scalar F) → Result (Scalar F)
  unfolding sum_values numbers int64_result
  sum_of t vs = do
    xs ← numbers vs
    elim t [ int64_type ↦ int64_result (sum_values xs) | _ ↦ ok (of_number (sum_values xs)) ]

  unfoldable pub average_of : List (Scalar F) → Result (Scalar F)
  unfolding sum_values numbers
  average_of vs = do
    xs ← numbers vs
    ok (float (floats.divide (as_float floats (sum_values xs)) (floats.of_int (pos (length vs)))))

  -- _aggregate_value after COUNT, on the values that are not null
  unfoldable pub aggregate_of : Name → DataType → List (Scalar F) → Result (Scalar F)
  unfolding sum_of average_of extreme text_equal
  aggregate_of name t [] = ok null
  aggregate_of name t (v ∷ vs) =
      if text_equal name sum_name
      then sum_of t (v ∷ vs)
      else if text_equal name avg_name
      then average_of (v ∷ vs)
      else if text_equal name min_name
      then extreme false v vs
      else if text_equal name max_name
      then extreme true v vs
      else err value_error

  module _ ⦃keys : Hashable (ComputedKey F)⦄ where
    -- the argument's values that are not null
    unfoldable pub argument_values : BoundExpr F → List (Row F) → Result (List (Scalar F))
    unfolding evaluate_on
    argument_values e [] = ok []
    argument_values e (r ∷ rs) = do
      v ← evaluate_on floats e r
      vs ← argument_values e rs
      ok (if is_null v then vs else v ∷ vs)

    -- [1 for _ in rows]
    abbrev pub ones : List (Row F) → List (Scalar F)
    ones [] = []
    ones (r ∷ rs) = integer (pos 1) ∷ ones rs

    unfoldable pub values_of : BoundArguments F → Bool → List (Row F) → Result (List (Scalar F))
    unfolding argument_values
    values_of args true rows = ok (ones rows)
    values_of no_arguments false rows = err index_error
    values_of (argument e args) false rows = argument_values e rows

    -- _aggregate_value
    unfoldable pub aggregate_value :
        Name → BoundArguments F → Bool → DataType → List (Row F) → Result (Scalar F)
    unfolding values_of aggregate_of text_equal
    aggregate_value name args is_star t rows = do
      vs ← values_of args is_star rows
      if text_equal name count_name then ok (integer (pos (length vs))) else aggregate_of name t vs

    -- the key of a row's group
    unfoldable pub group_key : List (BoundExpr F) → Row F → Result (List (Scalar F))
    unfolding evaluate_on
    group_key [] r = ok []
    group_key (e ∷ es) r = do v ← evaluate_on floats e r; vs ← group_key es r; ok (v ∷ vs)

    -- the loop of AggregateExecutor._open over its child's rows
    unfoldable pub group_rows : List (BoundExpr F) → Rows (Row F) → Groups F → Result (Groups F)
    unfolding group_key append_to tuple_equal
    group_rows group_by no_more groups = ok groups
    group_rows group_by (raises e) groups = err e
    group_rows group_by (row r rs) groups = do
      key ← group_key group_by r
      group_rows group_by rs
          (append_to (tuple_equal floats mixed.equals_int mixed.is_same) groups key r)

    -- Without GROUP BY there is one group, if there are no rows too.
    unfoldable pub with_default : List (BoundExpr F) → Groups F → Groups F
    with_default [] [] = ([], []) ∷ []
    with_default es groups = groups

    -- the values that a group is grouped by
    unfoldable pub key_values :
        List (BoundExpr F)
        → List (Scalar F)
        → Dict (ComputedKey F) (Scalar F)
        → Dict (ComputedKey F) (Scalar F)
    unfolding put
    key_values (e ∷ es) (v ∷ vs) computed = key_values es vs (put computed (of_expression e) v)
    key_values _ _ computed = computed

    -- the aggregates of a group, which are all calls
    unfoldable pub call_values :
        List (BoundExpr F)
        → List (Row F)
        → Dict (ComputedKey F) (Scalar F)
        → Result (Dict (ComputedKey F) (Scalar F))
    unfolding put aggregate_value
    call_values [] rows computed = ok computed
    call_values (bound_function name args is_star t n ∷ calls) rows computed = do
      v ← aggregate_value name args is_star t rows
      call_values calls rows (put computed (of_expression (bound_function name args is_star t n)) v)
    call_values (e ∷ calls) rows computed = err type_error

    unfoldable pub group_results :
        List (BoundExpr F) → List (BoundExpr F) → Groups F → Result (List (Row F))
    unfolding key_values call_values
    group_results group_by calls [] = ok []
    group_results group_by calls ((key, rows) ∷ groups) = do
      computed ← call_values calls rows (key_values group_by key [])
      rest ← group_results group_by calls groups
      ok ((record { cells = []; tids = []; computed = computed }) ∷ rest)

    -- AggregateExecutor
    unfoldable pub aggregate_rows :
        Executor (Row F) → List (BoundExpr F) → List (BoundExpr F) → Executor (Row F)
    unfolding group_rows with_default group_results
    aggregate_rows child group_by calls = do
      rs ← child
      groups ← group_rows group_by rs []
      results ← group_results group_by calls (with_default group_by groups)
      ok (from_list results)
