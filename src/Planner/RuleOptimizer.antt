-- ===== src/Planner/RuleOptimizer.antt =====
-- planner/rules.py: RuleOptimizer.rewrite, and the pruning of columns. Sets are lists, as in Rules, and
-- Python's == on plans is a parameter.
pub mod Chains
pub mod Columns
pub mod Passes
pub mod Pruning
use mini_postgres.Base.{
  ℕ, zero, suc, Bool, true, false, Option, none, some, List, [], ◌∷◌, ◌++◌, map, nat_beq,
  if◌then◌else◌, Result, ok, err, ◌>>=◌, runtime_error,
}
use mini_postgres.Values.{Floats}
use mini_postgres.Values.Expressions.{ColumnBinding, BoundExpr}
use mini_postgres.Sql.Syntax.{Column}
use mini_postgres.Planner.Fold.{bindings}
use mini_postgres.Planner.Logical.{
  TableMetadata, BoundTable, BoundSelectItem, BoundOrderItem, BoundAssignment, LogicalPlan, values,
  scan, filter, project, join, aggregate, sort, limit, insert, update, delete,
}
use mini_postgres.Planner.Rules.{has_id, relation_ids, rewrite_bottom_up}

-- the IDs of a table's columns among the required ones
unfoldable pub column_ids : ℕ → List ColumnBinding → List ℕ
column_ids table [] = []
column_ids table (b ∷ bs) =
    let rest = column_ids table bs in if nat_beq b.table_id table then b.column_id ∷ rest else rest

-- the required columns of some tables
unfoldable pub columns_in : List ℕ → List ColumnBinding → List ColumnBinding
columns_in ids [] = []
columns_in ids (b ∷ bs) =
    let rest = columns_in ids bs in if has_id b.table_id ids then b ∷ rest else rest

-- all columns of a table
unfoldable pub table_bindings : TableMetadata → List ColumnBinding
table_bindings table =
    map (λ c. record { table_id = table.table_id; column_id = c.column_id }) table.columns

module _ {F : Type 0} where
  -- _union_bindings, of what each element of a tuple reads
  unfoldable pub bindings_of : {A : Type 0} → (A → BoundExpr F) → List A → List ColumnBinding
  unfolding bindings
  bindings_of f [] = []
  bindings_of f (a ∷ as') = bindings (f a) ++ bindings_of f as'

  unfoldable pub prune_columns : LogicalPlan F → List ColumnBinding → LogicalPlan F
  unfolding column_ids columns_in table_bindings bindings_of bindings relation_ids
  prune_columns (values rows) required = values rows
  prune_columns (scan table ids) required =
      scan table (some (column_ids table.metadata.table_id required))
  prune_columns (filter child p) required = filter (prune_columns child (required ++ bindings p)) p
  prune_columns (project child items) required =
      project (prune_columns child (required ++ bindings_of (λ i. i.expression) items)) items
  prune_columns (join left right c) required =
      let all_required = required ++ bindings c in
      join (prune_columns left (columns_in (relation_ids left) all_required))
        (prune_columns right (columns_in (relation_ids right) all_required)) c
  prune_columns (aggregate child group_by calls) required =
      aggregate (prune_columns child (bindings_of (λ e. e) (group_by ++ calls))) group_by calls
  prune_columns (sort child order_by) required =
      sort (prune_columns child (required ++ bindings_of (λ i. i.expression) order_by)) order_by
  prune_columns (limit child n) required = limit (prune_columns child required) n
  prune_columns (insert table columns child) required =
      insert table columns (prune_columns child [])
  prune_columns (update table assignments child recheck) required =
      update table assignments
        (prune_columns child (table_bindings table ++ bindings_of (λ a. a.expression) assignments))
        recheck
  prune_columns (delete table child recheck) required =
      delete table (prune_columns child (table_bindings table)) recheck

module _ {F : Type 0} (floats : Floats F) (same : LogicalPlan F → LogicalPlan F → Bool) where
  -- the loop of rewrite, with the passes left
  unfoldable pub rewrite_passes : ℕ → LogicalPlan F → Result (LogicalPlan F)
  unfolding prune_columns rewrite_bottom_up
  rewrite_passes zero current = err runtime_error
  rewrite_passes (suc passes) current = rewrite_bottom_up floats current >>= λ rewritten.
      elim (same rewritten current) [
        | true ↦ ok (prune_columns rewritten [])
        | false ↦ rewrite_passes passes rewritten
      ]

  -- RuleOptimizer.rewrite
  unfoldable pub rewrite : LogicalPlan F → Result (LogicalPlan F)
  unfolding rewrite_passes
  rewrite = rewrite_passes 8
