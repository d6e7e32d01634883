-- ===== src/Executor/Operators.antt =====
-- operators.py: Values, Filter, Project and Limit. Of each, what its open and next return, from what
-- its child's do.
pub mod Filters
use mini_postgres.Base.{
  ℕ, zero, suc, List, [], ◌∷◌, map, if◌then◌else◌, Result, ok, err, ◌>>=◌, Hashable,
}
use mini_postgres.Dict.{Dict, put}
use mini_postgres.Values.{Floats, Scalar}
use mini_postgres.Values.Expressions.{BoundExpr}
use mini_postgres.Planner.Logical.{BoundSelectItem}
use mini_postgres.Planner.Rules.{is_true}
use mini_postgres.Executor.Rows.{
  ComputedKey, output_slot, of_expression, Row, Rows, no_more, raises, row, evaluate_on,
}

-- LimitExecutor, which does not pull again after its last row
unfoldable pub limit_rows : {A : Type 0} → ℕ → Rows A → Rows A
limit_rows zero rs = no_more
limit_rows (suc n) no_more = no_more
limit_rows (suc n) (raises e) = raises e
limit_rows (suc n) (row a rs) = row a (limit_rows n rs)

module _ {F : Type 0} ⦃keys : Hashable (ComputedKey F)⦄ (floats : Floats F) where
  -- FilterExecutor
  unfoldable pub filter_rows : BoundExpr F → Rows (Row F) → Rows (Row F)
  unfolding evaluate_on
  filter_rows predicate no_more = no_more
  filter_rows predicate (raises e) = raises e
  filter_rows predicate (row r rs) =
      let rest = filter_rows predicate rs in
      elim (evaluate_on floats predicate r) [
        | err e ↦ raises e
        | ok v ↦ if is_true v then row r rest else rest
      ]

  -- the values of some expressions on a row, each under its position, from the given one, and under
  -- itself
  unfoldable pub compute :
      ℕ
      → List (BoundExpr F)
      → Row F
      → Dict (ComputedKey F) (Scalar F)
      → Result (Dict (ComputedKey F) (Scalar F))
  unfolding evaluate_on put
  compute index [] r computed = ok computed
  compute index (e ∷ es) r computed = do
    value ← evaluate_on floats e r
    compute (suc index) es r (put (put computed (output_slot index) value) (of_expression e) value)

  -- ValuesExecutor
  unfoldable pub values_rows : List (List (BoundExpr F)) → Rows (Row F)
  unfolding compute
  values_rows [] = no_more
  values_rows (es ∷ rows) =
      let rest = values_rows rows in
      elim (compute 0 es (record { cells = []; tids = []; computed = [] }) []) [
        | err e ↦ raises e
        | ok computed ↦ row (record { cells = []; tids = []; computed = computed }) rest
      ]

  -- ProjectExecutor
  unfoldable pub project_rows : List (BoundSelectItem F) → Rows (Row F) → Rows (Row F)
  unfolding compute
  project_rows items no_more = no_more
  project_rows items (raises e) = raises e
  project_rows items (row r rs) =
      let rest = project_rows items rs in
      elim (compute 0 (map (λ i. i.expression) items) r r.computed) [
        | err e ↦ raises e
        | ok computed ↦ row (record r { computed = computed }) rest
      ]
