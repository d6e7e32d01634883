-- ===== src/Planner/Logical.antt =====
-- planner/logical.py: logical plans. The classes of sql/bound.py and catalog/model.py that they hold
-- are here too.
use mini_postgres.Base.{ℕ, Option, List}
use mini_postgres.Values.Expressions.{BoundExpr}
use mini_postgres.Sql.Syntax.{Name, Column}

pub record TableMetadata : Type 0 where
  pub table_id : ℕ
  pub name : Name
  pub columns : List Column

pub record BoundTable : Type 0 where
  pub metadata : TableMetadata
  pub alias : Name

pub data Direction : Type 0 where
  asc desc : Direction

pub data NullsOrder : Type 0 where
  nulls_first nulls_last : NullsOrder

pub record BoundSelectItem (F : Type 0) : Type 0 where
  pub expression : BoundExpr F
  pub name : Name

pub record BoundOrderItem (F : Type 0) : Type 0 where
  pub expression : BoundExpr F
  pub direction : Direction
  pub nulls : Option NullsOrder

pub record BoundAssignment (F : Type 0) : Type 0 where
  pub column : Column
  pub expression : BoundExpr F

-- LogicalPlan's classes. A scan's set of required column IDs is a list, or none where it is not
-- known yet. An aggregation holds the expressions that it groups by, and its function calls.
pub data LogicalPlan (F : Type 0) : Type 0 where
  values : List (List (BoundExpr F)) → LogicalPlan F
  scan : BoundTable → Option (List ℕ) → LogicalPlan F
  filter : LogicalPlan F → BoundExpr F → LogicalPlan F
  project : LogicalPlan F → List (BoundSelectItem F) → LogicalPlan F
  join : LogicalPlan F → LogicalPlan F → BoundExpr F → LogicalPlan F
  aggregate : LogicalPlan F → List (BoundExpr F) → List (BoundExpr F) → LogicalPlan F
  sort : LogicalPlan F → List (BoundOrderItem F) → LogicalPlan F
  limit : LogicalPlan F → ℕ → LogicalPlan F
  insert : TableMetadata → List Column → LogicalPlan F → LogicalPlan F
  update :
      TableMetadata
      → List (BoundAssignment F)
      → LogicalPlan F
      → Option (BoundExpr F)
      → LogicalPlan F
  delete : TableMetadata → LogicalPlan F → Option (BoundExpr F) → LogicalPlan F
