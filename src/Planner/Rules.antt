-- ===== src/Planner/Rules.antt =====
-- planner/rules.py: the rewriting of logical plans. A frozenset of columns or of table IDs is a list,
-- which is read only through its emptiness and its members. Python's == on plans is a parameter.
use mini_postgres.Base.{
  ℕ, Bool, true, false, ◌&&◌, ◌||◌, Option, none, some, List, [], ◌∷◌, ◌++◌, nat_beq, if◌then◌else◌,
  Result, ok, ◌>>=◌,
}
use mini_postgres.Values.{Floats, Scalar, boolean, boolean_type}
use mini_postgres.Values.Expressions.{ColumnBinding, BoundExpr, bound_literal, bound_binary, op_and}
use mini_postgres.Values.Expressions.Typing.{nullable_of}
use mini_postgres.Planner.Fold.{bindings, fold_expression}
use mini_postgres.Planner.Logical.{
  BoundSelectItem, BoundOrderItem, BoundAssignment, LogicalPlan, values, scan, filter, project,
  join, aggregate, sort, limit, insert, update, delete,
}

abbrev pub has_id : ℕ → List ℕ → Bool
has_id n [] = false
has_id n (m ∷ ms) = nat_beq n m || has_id n ms

-- referenced <= relations
abbrev pub is_subset : List ColumnBinding → List ℕ → Bool
is_subset [] ids = true
is_subset (b ∷ bs) ids = has_id b.table_id ids && is_subset bs ids

-- the conjuncts for the left side, for the right side, and those that remain
pub record Split (F : Type 0) : Type 0 where
  pub left_predicates : List (BoundExpr F)
  pub right_predicates : List (BoundExpr F)
  pub remaining : List (BoundExpr F)

module _ {F : Type 0} where
  unfoldable pub relation_ids : LogicalPlan F → List ℕ
  relation_ids (values rows) = []
  relation_ids (scan table ids) = table.metadata.table_id ∷ []
  relation_ids (filter child p) = relation_ids child
  relation_ids (project child items) = relation_ids child
  relation_ids (join left right c) = relation_ids left ++ relation_ids right
  relation_ids (aggregate child group_by calls) = relation_ids child
  relation_ids (sort child order_by) = relation_ids child
  relation_ids (limit child n) = relation_ids child
  relation_ids (insert table columns child) = table.table_id ∷ []
  relation_ids (update table assignments child p) = table.table_id ∷ []
  relation_ids (delete table child p) = table.table_id ∷ []

  -- _and
  unfoldable pub conjunction : BoundExpr F → BoundExpr F → BoundExpr F
  unfolding nullable_of
  conjunction e f = bound_binary e op_and f boolean_type (nullable_of e || nullable_of f)

  unfoldable pub conjuncts : BoundExpr F → List (BoundExpr F)
  conjuncts (bound_binary e op_and f t nullable) = conjuncts e ++ conjuncts f
  conjuncts e = e ∷ []

  -- _combine, of a first expression and the others
  unfoldable pub combine : BoundExpr F → List (BoundExpr F) → BoundExpr F
  unfolding conjunction
  combine e [] = e
  combine e (f ∷ fs) = combine (conjunction e f) fs

  -- a filter over a plan, or into the filter that the plan is
  unfoldable pub filter_with : LogicalPlan F → BoundExpr F → LogicalPlan F
  unfolding conjunction
  filter_with (filter child p) q = filter child (conjunction p q)
  filter_with child q = filter child q

  unfoldable pub add_filter : LogicalPlan F → List (BoundExpr F) → LogicalPlan F
  unfolding combine filter_with
  add_filter child [] = child
  add_filter child (e ∷ es) = filter_with child (combine e es)

  unfoldable pub classify : List ℕ → List ℕ → List (BoundExpr F) → Split F
  unfolding bindings
  classify left right [] = record { left_predicates = []; right_predicates = []; remaining = [] }
  classify left right (e ∷ es) =
      let s = classify left right es in
      elim (bindings e) [
        | [] ↦ record s { remaining = e ∷ s.remaining }
        | ◌∷◌ b bs ↦
            if is_subset (b ∷ bs) left
            then record s { left_predicates = e ∷ s.left_predicates }
            else if is_subset (b ∷ bs) right
            then record s { right_predicates = e ∷ s.right_predicates }
            else record s { remaining = e ∷ s.remaining }
      ]

  -- a join with the conjuncts where they belong
  unfoldable pub place : Split F → LogicalPlan F → LogicalPlan F → BoundExpr F → LogicalPlan F
  unfolding add_filter combine
  place s left right condition =
      let rewritten =
        join (add_filter left s.left_predicates) (add_filter right s.right_predicates) condition in
      elim s.remaining [ [] ↦ rewritten | ◌∷◌ e es ↦ filter rewritten (combine e es) ]

  -- _push_filter, of a predicate over a join
  unfoldable pub push_filter :
      BoundExpr F → LogicalPlan F → LogicalPlan F → BoundExpr F → LogicalPlan F
  unfolding relation_ids conjuncts classify place
  push_filter predicate left right condition =
      place (classify (relation_ids left) (relation_ids right) (conjuncts predicate)) left right
        condition

  abbrev pub is_true : Scalar F → Bool
  is_true (boolean b) = b
  is_true _ = false

  -- a filter whose predicate is no literal, over a rewritten child
  unfoldable pub filter_over : LogicalPlan F → BoundExpr F → LogicalPlan F
  unfolding conjunction push_filter
  filter_over (filter child p) q = filter child (conjunction p q)
  filter_over (join left right c) q = push_filter q left right c
  filter_over child q = filter child q

  unfoldable pub rewrite_filter : LogicalPlan F → BoundExpr F → LogicalPlan F
  unfolding filter_over
  rewrite_filter child (bound_literal v t nullable) = if is_true v then child else values []
  rewrite_filter child predicate = filter_over child predicate

module _ {F : Type 0} (floats : Floats F) where
  -- fold_expression on each of a tuple's expressions
  unfoldable pub fold_all : List (BoundExpr F) → Result (List (BoundExpr F))
  unfolding fold_expression
  fold_all [] = ok []
  fold_all (e ∷ es) = do e' ← fold_expression floats e; es' ← fold_all es; ok (e' ∷ es')

  unfoldable pub fold_rows : List (List (BoundExpr F)) → Result (List (List (BoundExpr F)))
  unfolding fold_all
  fold_rows [] = ok []
  fold_rows (r ∷ rs) = do r' ← fold_all r; rs' ← fold_rows rs; ok (r' ∷ rs')

  unfoldable pub fold_items : List (BoundSelectItem F) → Result (List (BoundSelectItem F))
  unfolding fold_expression
  fold_items [] = ok []
  fold_items (i ∷ is) = do
    e ← fold_expression floats i.expression
    is' ← fold_items is
    ok ((record i { expression = e }) ∷ is')

  unfoldable pub fold_order : List (BoundOrderItem F) → Result (List (BoundOrderItem F))
  unfolding fold_expression
  fold_order [] = ok []
  fold_order (i ∷ is) = do
    e ← fold_expression floats i.expression
    is' ← fold_order is
    ok ((record i { expression = e }) ∷ is')

  unfoldable pub fold_assignments : List (BoundAssignment F) → Result (List (BoundAssignment F))
  unfolding fold_expression
  fold_assignments [] = ok []
  fold_assignments (a ∷ as') = do
    e ← fold_expression floats a.expression
    rest ← fold_assignments as'
    ok ((record a { expression = e }) ∷ rest)

  unfoldable pub fold_recheck : Option (BoundExpr F) → Result (Option (BoundExpr F))
  unfolding fold_expression
  fold_recheck none = ok none
  fold_recheck (some p) = do p' ← fold_expression floats p; ok (some p')

  unfoldable pub rewrite_bottom_up : LogicalPlan F → Result (LogicalPlan F)
  unfolding fold_expression fold_all fold_rows fold_items fold_order fold_assignments fold_recheck
      rewrite_filter
  rewrite_bottom_up (values rows) = do rows' ← fold_rows rows; ok (values rows')
  rewrite_bottom_up (scan table ids) = ok (scan table ids)
  rewrite_bottom_up (filter child p) = do
    child' ← rewrite_bottom_up child
    p' ← fold_expression floats p
    ok (rewrite_filter child' p')
  rewrite_bottom_up (project child items) = do
    child' ← rewrite_bottom_up child
    items' ← fold_items items
    ok (project child' items')
  rewrite_bottom_up (join left right c) = do
    left' ← rewrite_bottom_up left
    right' ← rewrite_bottom_up right
    c' ← fold_expression floats c
    ok (join left' right' c')
  rewrite_bottom_up (aggregate child group_by calls) = do
    calls' ← fold_all calls
    child' ← rewrite_bottom_up child
    group_by' ← fold_all group_by
    ok (aggregate child' group_by' calls')
  rewrite_bottom_up (sort child order_by) = do
    child' ← rewrite_bottom_up child
    order_by' ← fold_order order_by
    ok (sort child' order_by')
  rewrite_bottom_up (limit child n) = do child' ← rewrite_bottom_up child; ok (limit child' n)
  rewrite_bottom_up (insert table columns child) = do
    child' ← rewrite_bottom_up child
    ok (insert table columns child')
  rewrite_bottom_up (update table assignments child recheck) = do
    child' ← rewrite_bottom_up child
    assignments' ← fold_assignments assignments
    recheck' ← fold_recheck recheck
    ok (update table assignments' child' recheck')
  rewrite_bottom_up (delete table child recheck) = do
    child' ← rewrite_bottom_up child
    recheck' ← fold_recheck recheck
    ok (delete table child' recheck')
