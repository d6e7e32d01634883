-- ===== src/Planner/RuleOptimizer/Chains.antt =====
-- One pass of the rewriting over a left-deep chain of joins, which is the plan of
-- SELECT ... FROM t JOIN ... WHERE p.
use mini_postgres.Base.{
  ℕ, zero, suc, ◌<◌, ◌≡◌, refl, true, none, List, [], ◌∷◌, ◌++◌, ok, arith, All, length,
}
use mini_postgres.Values.{Floats}
use mini_postgres.Values.Expressions.{ColumnBinding, BoundExpr, bound_literal, bound_column}
use mini_postgres.Planner.Fold.{bindings, fold_expression}
use mini_postgres.Planner.Logical.{BoundTable, LogicalPlan, scan, filter, join}
use mini_postgres.Planner.Rules.{
  has_id, is_subset, relation_ids, conjuncts, combine, filter_with, add_filter, classify, place,
  push_filter, filter_over, rewrite_filter, rewrite_bottom_up,
}

has_id-append : (n : ℕ) (xs ys : List ℕ) → has_id n xs ≡ true → has_id n (xs ++ ys) ≡ true
has_id-append n [] ys h = cc
has_id-append n (x ∷ xs) ys h = ground (arith, has_id-append n xs ys)

is_subset_mono :
    (bs : List ColumnBinding) (n : ℕ) (ids : List ℕ)
    → has_id n ids ≡ true
    → is_subset bs (n ∷ []) ≡ true
    → is_subset bs ids ≡ true
is_subset_mono [] n ids h k = refl
is_subset_mono (b ∷ bs) n ids h k =
    let e : b.table_id ≡ n = ground arith in
    let here : has_id b.table_id ids ≡ true = rw e h in ground (arith, is_subset_mono bs n ids h)

abbrev pub Joins : Type 0 → Type 0
Joins F = List (BoundTable × BoundExpr F)

module _ {F : Type 0} where
  -- The joins of a table, the last one first.
  unfoldable pub chain : BoundTable → Joins F → LogicalPlan F
  chain t [] = scan t none
  chain t ((u, c) ∷ js) = join (chain t js) (scan u none) c

  -- The same with a filter that was pushed past the last joins.
  unfoldable pub pushed : ℕ → BoundTable → Joins F → BoundExpr F → LogicalPlan F
  unfolding chain
  pushed zero t js p = filter (chain t js) p
  pushed (suc k) t [] p = filter (scan t none) p
  pushed (suc k) t ((u, c) ∷ js) p = join (pushed k t js p) (scan u none) c

  -- A predicate on one table, which is no conjunction and is folded already.
  pub record IsPushable (floats : Floats F) (t : BoundTable) (p : BoundExpr F) : Type 0 where
    pub folded : fold_expression floats p ≡ ok p
    pub single : conjuncts p ≡ p ∷ []
    pub column : ColumnBinding
    pub columns : List ColumnBinding
    pub reads : bindings p ≡ column ∷ columns
    pub local : is_subset (column ∷ columns) (t.metadata.table_id ∷ []) ≡ true

  has_id-chain :
      (t : BoundTable) (js : Joins F)
      → has_id t.metadata.table_id (relation_ids (chain t js)) ≡ true
  unfolding chain relation_ids
  has_id-chain t [] = ground arith
  has_id-chain t ((u, c) ∷ js) =
      has_id-append t.metadata.table_id (relation_ids (chain t js)) _ (has_id-chain t js)

  rewrite_filter-column :
      (child : LogicalPlan F) (p : BoundExpr F) (b : ColumnBinding) (bs : List ColumnBinding)
      → bindings p ≡ b ∷ bs
      → rewrite_filter child p ≡ filter_over child p
  unfolding rewrite_filter bindings
  rewrite_filter-column child (bound_literal v t n) b bs h = cc
  rewrite_filter-column child (bound_column c name t n) b bs h = refl
  rewrite_filter-column child p b bs h = refl

  -- No filter is merged into a chain of joins.
  filter_with-chain :
      (t : BoundTable) (js : Joins F) (p : BoundExpr F)
      → filter_with (chain t js) p ≡ filter (chain t js) p
  unfolding filter_with chain
  filter_with-chain t [] p = refl
  filter_with-chain t ((u, c) ∷ js) p = refl

  -- A column of the left side sends a predicate there.
  classify-left :
      (p : BoundExpr F) (b : ColumnBinding) (bs : List ColumnBinding) (left right : List ℕ)
      → bindings p ≡ b ∷ bs
      → is_subset (b ∷ bs) left ≡ true
      → classify left right (p ∷ [])
        ≡ record { left_predicates = p ∷ []; right_predicates = []; remaining = [] }
  unfolding classify
  classify-left p b bs left right h k = rw (h, classify, k) refl

module _ {F : Type 0} (floats : Floats F) (t : BoundTable) (p : BoundExpr F)
    (v : IsPushable floats t p) where
  push-chain :
      (js : Joins F) (u : BoundTable) (c : BoundExpr F)
      → push_filter p (chain t js) (scan u none) c ≡ join (filter (chain t js) p) (scan u none) c
  unfolding push_filter place add_filter combine relation_ids
  push-chain js u c =
      let inside : is_subset (v.column ∷ v.columns) (relation_ids (chain t js)) ≡ true =
        is_subset_mono (v.column ∷ v.columns) t.metadata.table_id (relation_ids (chain t js))
          (has_id-chain t js) v.local in
      rw
        (
          v.single,
          classify-left p v.column v.columns (relation_ids (chain t js)) (u.metadata.table_id ∷ [])
              v.reads inside,
        )
        (rw (filter_with-chain t js p) refl)

  rewrite-chain :
      (js : Joins F)
      → All (λ j. fold_expression floats j.1 ≡ ok j.1) js
      → rewrite_bottom_up floats (chain t js) ≡ ok (chain t js)
  unfolding chain rewrite_bottom_up
  rewrite-chain [] h = refl
  rewrite-chain ((u, c) ∷ js) (h, hs) = rw (rewrite-chain js hs, h) refl

  rewrite-filter_chain :
      (js : Joins F) (q : LogicalPlan F)
      → All (λ j. fold_expression floats j.1 ≡ ok j.1) js
      → filter_over (chain t js) p ≡ q
      → rewrite_bottom_up floats (filter (chain t js) p) ≡ ok q
  unfolding rewrite_bottom_up
  rewrite-filter_chain js q hs e =
      rw
        (
          rewrite-chain js hs,
          v.folded,
          rewrite_filter-column (chain t js) p v.column v.columns v.reads,
          e,
        )
        refl

  -- One pass pushes the filter past one join.
  pub rewrite-pushed :
      (k : ℕ) (js : Joins F)
      → All (λ j. fold_expression floats j.1 ≡ ok j.1) js
      → k < length js
      → rewrite_bottom_up floats (pushed k t js p) ≡ ok (pushed (suc k) t js p)
  unfolding pushed chain filter_over rewrite_bottom_up
  rewrite-pushed k [] hs lt = absurd (omega arith)
  rewrite-pushed zero ((u, c) ∷ js) hs lt =
      rewrite-filter_chain ((u, c) ∷ js) _ hs (push-chain js u c)
  rewrite-pushed (suc k) ((u, c) ∷ js) (h, hs) lt =
      rw (rewrite-pushed k js hs (omega arith), h) refl

  pub rewrite_last :
      (js : Joins F)
      → All (λ j. fold_expression floats j.1 ≡ ok j.1) js
      → rewrite_bottom_up floats (pushed (length js) t js p) ≡ ok (pushed (length js) t js p)
  unfolding pushed chain filter_over rewrite_bottom_up
  rewrite_last [] hs = rewrite-filter_chain [] _ hs refl
  rewrite_last ((u, c) ∷ js) (h, hs) = rw (rewrite_last js hs, h) refl
