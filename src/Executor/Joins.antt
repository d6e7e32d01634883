-- ===== src/Executor/Joins.antt =====
-- operators.py's NestedLoopJoinExecutor and HashJoinExecutor, and planner.py's choice between them.
-- Their two inputs are not the same object and share no state, so the result does not depend on when
-- each is pulled, but for the order of the errors, which is the code's.
pub mod Reversed
pub mod Merging
pub mod Matching
pub mod Equivalence
use mini_postgres.Base.{
  ◌≡◌, ℕ, ℤ, Bool, true, false, not, Option, none, some, List, [], ◌∷◌, ◌++◌, nat_beq,
  if◌then◌else◌, Result, ok, err, ◌>>=◌, Hashable,
}
use mini_postgres.Values.{Floats, Scalar, eq}
use mini_postgres.Values.Expressions.{
  BoundExpr, bound_column, bound_binary, comparison, evaluate, is_null,
}
use mini_postgres.Planner.Planner.{hash_join_keys}
use mini_postgres.Planner.Rules.{is_true}
use mini_postgres.Executor.Rows.{
  ComputedKey, Row, Rows, no_more, raises, row, Executor, drain, merge, evaluate_on,
}
use mini_postgres.Executor.Keys.{key_equal, append_to, listed}

-- The rows of a list, and then those of an executor.
abbrev pub emit : {A : Type 0} → List A → Rows A → Rows A
emit [] rest = rest
emit (a ∷ as') rest = row a (emit as' rest)

module _ {F : Type 0} ⦃keys : Hashable (ComputedKey F)⦄ (floats : Floats F) where
  -- the inner loop of NestedLoopJoinExecutor._next, for one left row, and what follows it
  unfoldable pub match_rows : BoundExpr F → Row F → List (Row F) → Rows (Row F) → Rows (Row F)
  unfolding merge evaluate_on
  match_rows condition l [] rest = rest
  match_rows condition l (r ∷ rs) rest =
      let later = match_rows condition l rs rest in
      elim (merge l r) [
        | err e ↦ raises e
        | ok m ↦ elim (evaluate_on floats condition m) [
          | err e ↦ raises e
          | ok v ↦ if is_true v then row m later else later
        ]
      ]

  -- NestedLoopJoinExecutor._next until it returns None
  unfoldable pub nested_rows : BoundExpr F → List (Row F) → Rows (Row F) → Rows (Row F)
  unfolding match_rows
  nested_rows condition rights no_more = no_more
  nested_rows condition rights (raises e) = raises e
  nested_rows condition rights (row l ls) =
      match_rows condition l rights (nested_rows condition rights ls)

  -- NestedLoopJoinExecutor
  unfoldable pub nested_loop_join :
      Executor (Row F) → Executor (Row F) → BoundExpr F → Executor (Row F)
  unfolding nested_rows drain
  nested_loop_join left right condition = do
    ls ← left
    rs ← right
    rights ← drain rs
    ok (nested_rows condition rights ls)

  module _ (equals_int : F → ℤ → Bool) where
    -- the loop of HashJoinExecutor._open
    unfoldable pub build_hash :
        BoundExpr F
        → Rows (Row F)
        → List (Scalar F × List (Row F))
        → Result (List (Scalar F × List (Row F)))
    unfolding evaluate_on append_to
    build_hash right_key no_more table = ok table
    build_hash right_key (raises e) table = err e
    build_hash right_key (row r rs) table = do
      key ← evaluate_on floats right_key r
      build_hash right_key rs
          (if is_null key then table else append_to (key_equal floats equals_int) table key r)

    -- condition is None or evaluate(condition, merged) is True
    unfoldable pub passes : Option (BoundExpr F) → Row F → Result Bool
    unfolding evaluate_on
    passes none m = ok true
    passes (some condition) m = do v ← evaluate_on floats condition m; ok (is_true v)

    -- the merged rows of one left row with its candidates
    unfoldable pub matches_of : Option (BoundExpr F) → Row F → List (Row F) → Result (List (Row F))
    unfolding passes merge
    matches_of condition l [] = ok []
    matches_of condition l (r ∷ rs) = do
      m ← merge l r
      b ← passes condition m
      ms ← matches_of condition l rs
      ok (if b then m ∷ ms else ms)

    -- the candidates of one left row
    unfoldable pub matches_at :
        BoundExpr F
        → Option (BoundExpr F)
        → List (Scalar F × List (Row F))
        → Row F
        → Result (List (Row F))
    unfolding matches_of evaluate_on listed
    matches_at left_key condition table l = do
      key ← evaluate_on floats left_key l
      matches_of condition l
          (if is_null key then [] else listed (key_equal floats equals_int) table key)

    -- HashJoinExecutor._next until it returns None
    unfoldable pub probe_rows :
        BoundExpr F
        → Option (BoundExpr F)
        → List (Scalar F × List (Row F))
        → Rows (Row F)
        → Rows (Row F)
    unfolding matches_at
    probe_rows left_key condition table no_more = no_more
    probe_rows left_key condition table (raises e) = raises e
    probe_rows left_key condition table (row l ls) =
        let rest = probe_rows left_key condition table ls in
        elim (matches_at left_key condition table l) [ err e ↦ raises e | ok ms ↦ emit ms rest ]

    -- HashJoinExecutor
    unfoldable pub hash_join :
        Executor (Row F)
        → Executor (Row F)
        → BoundExpr F
        → BoundExpr F
        → Option (BoundExpr F)
        → Executor (Row F)
    unfolding build_hash probe_rows
    hash_join left right left_key right_key condition = do
      ls ← left
      rs ← right
      table ← build_hash right_key rs []
      ok (probe_rows left_key condition table ls)

-- the executor of a join as Planner.physical and build_executor choose it
unfoldable pub join_executor :
    {F : Type 0} ⦃keys : Hashable (ComputedKey F)⦄
    → Floats F
    → (F → ℤ → Bool)
    → Executor (Row F)
    → Executor (Row F)
    → BoundExpr F
    → Executor (Row F)
unfolding hash_join_keys hash_join nested_loop_join
join_executor floats equals_int left right condition = elim (hash_join_keys condition) [
  | some (k, j) ↦ hash_join floats equals_int left right k j (some condition)
  | none ↦ nested_loop_join floats left right condition
]
