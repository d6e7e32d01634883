-- ===== src/Planner/RuleOptimizer/Pruning.antt =====
-- The columns that pruning leaves to the scans.
use mini_postgres.Base.{◌≡◌, ◌⊎◌, inl, inr, refl, sym, subst, ℕ, some, List, [], ◌∷◌, ◌++◌, arith}
use mini_postgres.Values.Expressions.{ColumnBinding, BoundExpr}
use mini_postgres.Planner.Fold.{bindings}
use mini_postgres.Planner.Logical.{
  LogicalPlan, values, scan, filter, project, join, aggregate, sort, limit, insert, update, delete,
}
use mini_postgres.Planner.Rules.{relation_ids}
use mini_postgres.Planner.RuleOptimizer.{
  column_ids, columns_in, table_bindings, bindings_of, prune_columns,
}
use mini_postgres.Planner.RuleOptimizer.Columns.{
  IsIn, IsIn-left, IsIn-right, has_id-left, has_id-right, column_ids-IsIn, IsColumnOf,
  table_bindings-IsIn, Requires, Requires-more, Requires-side,
}

module _ {F : Type 0} where
  -- A column is read by the expression of an element of a list.
  abbrev pub IsReadBy : {A : Type 0} → (A → BoundExpr F) → List A → ColumnBinding → Type 0
  IsReadBy {A} f xs b = (a : A) × IsIn a xs × IsIn b (bindings (f a))

  bindings_of-IsIn :
      {A : Type 0} (f : A → BoundExpr F) (xs : List A) (b : ColumnBinding)
      → IsReadBy f xs b
      → IsIn b (bindings_of f xs)
  unfolding bindings_of
  bindings_of-IsIn f [] b (a, i, h) = absurd i
  bindings_of-IsIn f (x ∷ xs) b (a, inl e, h) =
      IsIn-left b (bindings (f x)) (bindings_of f xs)
        (subst (λ y. IsIn b (bindings (f y))) (sym e) h)
  bindings_of-IsIn f (x ∷ xs) b (a, inr i, h) =
      IsIn-right b (bindings (f x)) (bindings_of f xs) (bindings_of-IsIn f xs b (a, i, h))

  -- The second plan is the first, but for the columns of its scans: each has those columns of its table
  -- that are needed from outside or read above it, up to the next operator that makes new rows.
  abbrev pub Covers : (ColumnBinding → Type 0) → LogicalPlan F → LogicalPlan F → Type 0
  Covers R (values rows) (values rows') = rows' ≡ rows
  Covers R (scan t ids) (scan t' ids') =
      (t' ≡ t)
      × ((cs : List ℕ) × (ids' ≡ some cs)
          × ((b : ColumnBinding) → R b → b.table_id ≡ t.metadata.table_id → IsIn b.column_id cs))
  Covers R (filter c p) (filter c' p') = (p' ≡ p) × Covers (λ b. R b ⊎ IsIn b (bindings p)) c c'
  Covers R (project c items) (project c' items') =
      (items' ≡ items) × Covers (λ b. R b ⊎ IsReadBy (λ i. i.expression) items b) c c'
  Covers R (join l r p) (join l' r' p') =
      (p' ≡ p)
      × Covers (λ b. R b ⊎ IsIn b (bindings p)) l l'
      × Covers (λ b. R b ⊎ IsIn b (bindings p)) r r'
  Covers R (aggregate c group_by calls) (aggregate c' group_by' calls') =
      (group_by' ≡ group_by)
      × (calls' ≡ calls)
      × Covers (IsReadBy (λ e. e) (group_by ++ calls)) c c'
  Covers R (sort c order_by) (sort c' order_by') =
      (order_by' ≡ order_by) × Covers (λ b. R b ⊎ IsReadBy (λ i. i.expression) order_by b) c c'
  Covers R (limit c n) (limit c' n') = (n' ≡ n) × Covers R c c'
  Covers R (insert table columns c) (insert table' columns' c') =
      (table' ≡ table) × (columns' ≡ columns) × Covers (λ b. ⊥) c c'
  Covers R (update table assignments c p) (update table' assignments' c' p') =
      (table' ≡ table)
      × (assignments' ≡ assignments)
      × (p' ≡ p)
      × Covers (λ b. IsColumnOf table b ⊎ IsReadBy (λ a. a.expression) assignments b) c c'
  Covers R (delete table c p) (delete table' c' p') =
      (table' ≡ table) × (p' ≡ p) × Covers (IsColumnOf table) c c'
  Covers R _ _ = ⊥

  Requires-Covers :
      (plan : LogicalPlan F) (required : List ColumnBinding) (R : ColumnBinding → Type 0)
      → Requires R (relation_ids plan) required
      → Covers R plan (prune_columns plan required)
  unfolding prune_columns relation_ids
  Requires-Covers (values rows) required R f = refl
  Requires-Covers (scan t ids) required R f = (
    refl,
    (
      column_ids t.metadata.table_id required,
      refl,
      λ b r e. column_ids-IsIn b t.metadata.table_id required e (f b (ground arith) r),
    ),
  )
  Requires-Covers (filter c p) required R f = (
    refl,
    Requires-Covers c (required ++ bindings p) (λ b. R b ⊎ IsIn b (bindings p))
        (Requires-more R (λ b. IsIn b (bindings p)) (relation_ids c) required (bindings p) f
          (λ b q. q)),
  )
  Requires-Covers (project c items) required R f = (
    refl,
    Requires-Covers c (required ++ bindings_of (λ i. i.expression) items)
        (λ b. R b ⊎ IsReadBy (λ i. i.expression) items b)
        (Requires-more R (IsReadBy (λ i. i.expression) items) (relation_ids c) required
          (bindings_of (λ i. i.expression) items) f (bindings_of-IsIn (λ i. i.expression) items)),
  )
  Requires-Covers (join l r p) required R f = (
    refl,
    Requires-Covers l (columns_in (relation_ids l) (required ++ bindings p))
        (λ b. R b ⊎ IsIn b (bindings p))
        (Requires-side R (λ b. IsIn b (bindings p)) (relation_ids l ++ relation_ids r)
          (relation_ids l) required (bindings p)
          (λ n. has_id-left n (relation_ids l) (relation_ids r)) f (λ b q. q)),
    Requires-Covers r (columns_in (relation_ids r) (required ++ bindings p))
        (λ b. R b ⊎ IsIn b (bindings p))
        (Requires-side R (λ b. IsIn b (bindings p)) (relation_ids l ++ relation_ids r)
          (relation_ids r) required (bindings p)
          (λ n. has_id-right n (relation_ids l) (relation_ids r)) f (λ b q. q)),
  )
  Requires-Covers (aggregate c group_by calls) required R f = (
    refl,
    refl,
    Requires-Covers c (bindings_of (λ e. e) (group_by ++ calls))
        (IsReadBy (λ e. e) (group_by ++ calls))
        (λ b h. bindings_of-IsIn (λ e. e) (group_by ++ calls) b),
  )
  Requires-Covers (sort c order_by) required R f = (
    refl,
    Requires-Covers c (required ++ bindings_of (λ i. i.expression) order_by)
        (λ b. R b ⊎ IsReadBy (λ i. i.expression) order_by b)
        (Requires-more R (IsReadBy (λ i. i.expression) order_by) (relation_ids c) required
          (bindings_of (λ i. i.expression) order_by) f
          (bindings_of-IsIn (λ i. i.expression) order_by)),
  )
  Requires-Covers (limit c n) required R f = (refl, Requires-Covers c required R f)
  Requires-Covers (insert table columns c) required R f =
      (refl, refl, Requires-Covers c [] (λ b. ⊥) (λ b h q. q))
  Requires-Covers (update table assignments c p) required R f = (
    refl,
    refl,
    refl,
    Requires-Covers c (table_bindings table ++ bindings_of (λ a. a.expression) assignments)
        (λ b. IsColumnOf table b ⊎ IsReadBy (λ a. a.expression) assignments b)
        (Requires-more (IsColumnOf table) (IsReadBy (λ a. a.expression) assignments)
          (relation_ids c) (table_bindings table) (bindings_of (λ a. a.expression) assignments)
          (λ b h. table_bindings-IsIn table b) (bindings_of-IsIn (λ a. a.expression) assignments)),
  )
  Requires-Covers (delete table c p) required R f = (
    refl,
    refl,
    Requires-Covers c (table_bindings table) (IsColumnOf table)
        (λ b h. table_bindings-IsIn table b),
  )

  -- prune_columns changes no operator but the scans, and every scan keeps the columns of its table that
  -- are required from outside or read by an operator above it, up to the next aggregation, insertion,
  -- update or deletion. Below these it keeps what they read: an aggregation its groups and calls, a
  -- deletion all columns of its table, an update these and its assignments, an insertion nothing.
  pub prune_columns-Covers :
      (plan : LogicalPlan F) (required : List ColumnBinding)
      → Covers (λ b. IsIn b required) plan (prune_columns plan required)
  prune_columns-Covers plan required =
      Requires-Covers plan required (λ b. IsIn b required) (λ b h i. i)
