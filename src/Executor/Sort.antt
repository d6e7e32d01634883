-- ===== src/Executor/Sort.antt =====
-- operators.py's SortExecutor. Python's list.sort is a stable sort that only asks whether one row comes
-- before another; this one inserts each row before the later rows that do not come before it. The
-- two agree where _compare is a total order up to ties, as it is without a NaN. With a NaN, which
-- ties with every number, what a sort returns depends on the algorithm, and so does which error
-- comes first where several comparisons raise.
pub mod Flip
pub mod Order
pub mod Placement
use mini_postgres.Base.{
  ◌≡◌, Bool, true, false, Option, none, some, List, [], ◌∷◌, if◌then◌else◌, Result, ok, err, ◌>>=◌,
  Hashable,
}
use mini_postgres.Values.{Floats, Scalar, null}
use mini_postgres.Planner.Logical.{
  Direction, asc, desc, NullsOrder, nulls_first, nulls_last, BoundOrderItem,
}
use mini_postgres.Executor.Rows.{ComputedKey, Row, Rows, Executor, from_list, drain, evaluate_on}
use mini_postgres.Executor.Keys.{key_of}
use mini_postgres.Executor.Aggregates.{Mixed, key_less}

-- the results -1, 0 and 1 of a comparison
pub data Comparison : Type 0 where
  before tied after : Comparison

abbrev pub flip : Comparison → Comparison
flip before = after
flip tied = tied
flip after = before

abbrev pub directed : Direction → Comparison → Comparison
directed asc c = c
directed desc c = flip c

abbrev pub are_nulls_first : Direction → Option NullsOrder → Bool
are_nulls_first d (some nulls_first) = true
are_nulls_first d (some nulls_last) = false
are_nulls_first asc none = false
are_nulls_first desc none = true

module _ {F : Type 0} (floats : Floats F) (mixed : Mixed F) where
  -- _compare_order_values on values that are not null
  unfoldable pub compare_present : Scalar F → Scalar F → Result Comparison
  unfolding key_less
  compare_present v w = do
    less ← key_less floats mixed (key_of v) (key_of w)
    if less then ok before else do
      greater ← key_less floats mixed (key_of w) (key_of v)
      ok (if greater then after else tied)

  -- _compare_order_values
  unfoldable pub compare_order_values :
      Direction → Option NullsOrder → Scalar F → Scalar F → Result Comparison
  unfolding compare_present
  compare_order_values d nulls null null = ok tied
  compare_order_values d nulls null w = ok (if are_nulls_first d nulls then before else after)
  compare_order_values d nulls v null = ok (if are_nulls_first d nulls then after else before)
  compare_order_values d nulls v w = do c ← compare_present v w; ok (directed d c)

  module _ ⦃keys : Hashable (ComputedKey F)⦄ where
    -- SortExecutor._compare
    unfoldable pub compare_rows : List (BoundOrderItem F) → Row F → Row F → Result Comparison
    unfolding compare_order_values evaluate_on
    compare_rows [] l r = ok tied
    compare_rows (i ∷ is) l r = do
      v ← evaluate_on floats i.expression l
      w ← evaluate_on floats i.expression r
      c ← compare_order_values i.direction i.nulls v w
      elim c [ tied ↦ compare_rows is l r | before ↦ ok before | after ↦ ok after ]

    unfoldable pub insert_in_order :
        List (BoundOrderItem F) → Row F → List (Row F) → Result (List (Row F))
    unfolding compare_rows
    insert_in_order items r [] = ok (r ∷ [])
    insert_in_order items r (y ∷ ys) = do
      c ← compare_rows items y r
      elim c [
        | before ↦ do rest ← insert_in_order items r ys; ok (y ∷ rest)
        | tied ↦ ok (r ∷ y ∷ ys)
        | after ↦ ok (r ∷ y ∷ ys)
      ]

    unfoldable pub sort_list : List (BoundOrderItem F) → List (Row F) → Result (List (Row F))
    unfolding insert_in_order
    sort_list items [] = ok []
    sort_list items (r ∷ rs) = do sorted ← sort_list items rs; insert_in_order items r sorted

    -- SortExecutor
    unfoldable pub sort_rows : Executor (Row F) → List (BoundOrderItem F) → Executor (Row F)
    unfolding sort_list drain
    sort_rows child items = do
      rs ← child
      rows ← drain rs
      sorted ← sort_list items rows
      ok (from_list sorted)
