-- ===== src/Planner/Planner.antt =====
-- planner/planner.py and planner/physical.py: the logical plan of a bound statement, and its lowering
-- to a physical plan. The estimates of physical plans are left out: planner.py sets none.
pub mod Calls
use mini_postgres.Base.{
  ◌≡◌, ℕ, Bool, true, false, not, Option, none, some, List, [], ◌∷◌, ◌++◌, map, nat_beq,
  if◌then◌else◌, Hashable,
}
use mini_postgres.Dict.{add}
use mini_postgres.Values.{eq}
use mini_postgres.Values.Expressions.{
  BoundExpr, bound_literal, bound_column, bound_cast, bound_unary, bound_binary, bound_is_null,
  bound_function, comparison,
}
use mini_postgres.Sql.Syntax.{Column}
use mini_postgres.Planner.Logical.{
  TableMetadata, BoundTable, BoundSelectItem, BoundOrderItem, BoundAssignment, LogicalPlan, values,
  scan, filter, project, join, aggregate, sort, limit, insert, update, delete,
}

pub record BoundJoin (F : Type 0) : Type 0 where
  pub table : BoundTable
  pub condition : BoundExpr F

pub record BoundSelect (F : Type 0) : Type 0 where
  pub items : List (BoundSelectItem F)
  pub from_table : Option BoundTable
  pub joins : List (BoundJoin F)
  pub condition : Option (BoundExpr F)
  pub group_by : List (BoundExpr F)
  pub order_by : List (BoundOrderItem F)
  pub max_rows : Option ℕ

-- BoundStatement's classes that have a relational plan. BoundExplain's plan is that of its statement.
pub data BoundStatement (F : Type 0) : Type 0 where
  bound_select : BoundSelect F → BoundStatement F
  bound_insert : TableMetadata → List Column → List (List (BoundExpr F)) → BoundStatement F
  bound_update : TableMetadata → List (BoundAssignment F) → Option (BoundExpr F) → BoundStatement F
  bound_delete : TableMetadata → Option (BoundExpr F) → BoundStatement F
  bound_explain : BoundStatement F → BoundStatement F

-- PhysicalPlan's classes. An index scan has its index, its predicate and the encoded bounds.
pub data PhysicalPlan (F : Type 0) : Type 0 where
  physical_values : List (List (BoundExpr F)) → PhysicalPlan F
  seq_scan : BoundTable → PhysicalPlan F
  index_scan :
      BoundTable → ℕ → Option (BoundExpr F) → Option (List ℕ) → Option (List ℕ) → PhysicalPlan F
  physical_filter : PhysicalPlan F → BoundExpr F → PhysicalPlan F
  physical_project : PhysicalPlan F → List (BoundSelectItem F) → PhysicalPlan F
  nested_loop : PhysicalPlan F → PhysicalPlan F → BoundExpr F → PhysicalPlan F
  hash : PhysicalPlan F → PhysicalPlan F → BoundExpr F → BoundExpr F → BoundExpr F → PhysicalPlan F
  physical_aggregate : PhysicalPlan F → List (BoundExpr F) → List (BoundExpr F) → PhysicalPlan F
  physical_sort : PhysicalPlan F → List (BoundOrderItem F) → PhysicalPlan F
  physical_limit : PhysicalPlan F → ℕ → PhysicalPlan F
  modify_insert : TableMetadata → PhysicalPlan F → List Column → PhysicalPlan F
  modify_update :
      TableMetadata
      → PhysicalPlan F
      → List (BoundAssignment F)
      → Option (BoundExpr F)
      → PhysicalPlan F
  modify_delete : TableMetadata → PhysicalPlan F → Option (BoundExpr F) → PhysicalPlan F

-- _hash_join_keys
unfoldable pub hash_join_keys : {F : Type 0} → BoundExpr F → Option (BoundExpr F × BoundExpr F)
hash_join_keys (bound_binary (bound_column b x t n) (comparison eq) (bound_column c y t' n') u m) =
    if not (nat_beq b.table_id c.table_id)
    then some (bound_column b x t n, bound_column c y t' n')
    else none
hash_join_keys _ = none

module _ {F : Type 0} where
  -- visit_expression of _collect_aggregates, with the calls that were found
  unfoldable pub visit_expression :
      ⦃e : Hashable (BoundExpr F)⦄ → BoundExpr F → List (BoundExpr F) → List (BoundExpr F)
  unfolding add
  visit_expression (bound_literal v t n) found = found
  visit_expression (bound_column b name t n) found = found
  visit_expression (bound_cast e t n) found = visit_expression e found
  visit_expression (bound_unary op e t n) found = visit_expression e found
  visit_expression (bound_binary e op f t n) found = visit_expression f (visit_expression e found)
  visit_expression (bound_is_null e is_not) found = visit_expression e found
  visit_expression (bound_function name args is_star t n) found =
      add (bound_function name args is_star t n) found

  unfoldable pub visit_expressions :
      ⦃e : Hashable (BoundExpr F)⦄ → List (BoundExpr F) → List (BoundExpr F) → List (BoundExpr F)
  unfolding visit_expression
  visit_expressions [] found = found
  visit_expressions (e ∷ es) found = visit_expressions es (visit_expression e found)

  unfoldable pub collect_aggregates :
      ⦃e : Hashable (BoundExpr F)⦄ → List (BoundExpr F) → List (BoundExpr F)
  unfolding visit_expressions
  collect_aggregates es = visit_expressions es []

  -- a plan with the joins of a SELECT
  unfoldable pub with_joins : LogicalPlan F → List (BoundJoin F) → LogicalPlan F
  with_joins plan [] = plan
  with_joins plan (j ∷ js) = with_joins (join plan (scan j.table none) j.condition) js

  -- a plan under the filter of a WHERE
  abbrev pub with_filter : LogicalPlan F → Option (BoundExpr F) → LogicalPlan F
  with_filter plan none = plan
  with_filter plan (some p) = filter plan p

  abbrev pub with_aggregate :
      LogicalPlan F → List (BoundExpr F) → List (BoundExpr F) → LogicalPlan F
  with_aggregate plan [] [] = plan
  with_aggregate plan group_by calls = aggregate plan group_by calls

  abbrev pub with_sort : LogicalPlan F → List (BoundOrderItem F) → LogicalPlan F
  with_sort plan [] = plan
  with_sort plan (i ∷ is) = sort plan (i ∷ is)

  abbrev pub with_limit : LogicalPlan F → Option ℕ → LogicalPlan F
  with_limit plan none = plan
  with_limit plan (some n) = limit plan n

  abbrev pub source : Option BoundTable → LogicalPlan F
  source none = values ([] ∷ [])
  source (some t) = scan t none

  -- the calls of the items and of ORDER BY
  unfoldable pub select_calls : ⦃e : Hashable (BoundExpr F)⦄ → BoundSelect F → List (BoundExpr F)
  unfolding collect_aggregates
  select_calls s =
      collect_aggregates (map (λ i. i.expression) s.items ++ map (λ i. i.expression) s.order_by)

  -- Planner._select
  unfoldable pub select_plan : ⦃e : Hashable (BoundExpr F)⦄ → BoundSelect F → LogicalPlan F
  unfolding with_joins select_calls
  select_plan s =
      let joined = with_filter (with_joins (source s.from_table) s.joins) s.condition in
      let grouped = with_aggregate joined s.group_by (select_calls s) in
      with_limit (with_sort (project grouped s.items) s.order_by) s.max_rows

  -- Planner.logical
  unfoldable pub logical : ⦃e : Hashable (BoundExpr F)⦄ → BoundStatement F → LogicalPlan F
  unfolding select_plan
  logical (bound_select s) = select_plan s
  logical (bound_insert table columns rows) = insert table columns (values rows)
  logical (bound_update table assignments p) =
      update table assignments
        (with_filter (scan (record { metadata = table; alias = table.name }) none) p) p
  logical (bound_delete table p) =
      delete table (with_filter (scan (record { metadata = table; alias = table.name }) none) p) p
  logical (bound_explain s) = logical s

  -- a join, with keys for a hash join or without
  abbrev pub physical_join :
      Option (BoundExpr F × BoundExpr F)
      → PhysicalPlan F
      → PhysicalPlan F
      → BoundExpr F
      → PhysicalPlan F
  physical_join none left right condition = nested_loop left right condition
  physical_join (some (k, j)) left right condition = hash left right k j condition

  -- Planner.physical
  unfoldable pub physical : LogicalPlan F → PhysicalPlan F
  unfolding hash_join_keys
  physical (values rows) = physical_values rows
  physical (scan table ids) = seq_scan table
  physical (filter child p) = physical_filter (physical child) p
  physical (project child items) = physical_project (physical child) items
  physical (join left right c) = physical_join (hash_join_keys c) (physical left) (physical right) c
  physical (aggregate child group_by calls) = physical_aggregate (physical child) group_by calls
  physical (sort child order_by) = physical_sort (physical child) order_by
  physical (limit child n) = physical_limit (physical child) n
  physical (insert table columns child) = modify_insert table (physical child) columns
  physical (update table assignments child p) = modify_update table (physical child) assignments p
  physical (delete table child p) = modify_delete table (physical child) p
