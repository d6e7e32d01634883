-- ===== src/Planner/RuleOptimizer/Passes.antt =====
-- How many passes RuleOptimizer.rewrite takes over a chain of joins.
use mini_postgres.Base.{
  ℕ, zero, suc, ◌+◌, ◌≤◌, ◌<◌, ◌≡◌, ◌≢◌, refl, sym, ◌∙◌, ap, subst, ◌↔◌, inl, inr, Bool, true, List,
  [], ◌∷◌, ok, err, runtime_error, arith, All, length, Bool-cases, ltb,
}
use mini_postgres.Values.{Floats}
use mini_postgres.Values.Expressions.{BoundExpr}
use mini_postgres.Planner.Fold.{fold_expression}
use mini_postgres.Planner.Logical.{BoundTable, BoundSelectItem, LogicalPlan, project}
use mini_postgres.Planner.Rules.{fold_items, rewrite_bottom_up}
use mini_postgres.Planner.RuleOptimizer.{prune_columns, rewrite_passes, rewrite}
use mini_postgres.Planner.RuleOptimizer.Chains.{
  Joins, chain, pushed, IsPushable, rewrite-pushed, rewrite_last,
}

-- The filter's depth shows in the plan.
pushed_ne :
    {F : Type 0} (k : ℕ) (t : BoundTable) (js : Joins F) (p : BoundExpr F)
    → k < length js
    → pushed (suc k) t js p ≢ pushed k t js p
unfolding pushed chain
pushed_ne k t [] p lt h = omega arith
pushed_ne zero t ((u, c) ∷ js) p lt h = cc
pushed_ne (suc k) t ((u, c) ∷ js) p lt h = pushed_ne k t js p (omega arith) (cc)

-- The plan of a SELECT over the chain, after some passes.
abbrev pub selected :
    {F : Type 0} → List (BoundSelectItem F) → BoundTable → Joins F → BoundExpr F → ℕ → LogicalPlan F
selected items t js p k = project (pushed k t js p) items

module _ {F : Type 0} (floats : Floats F) (same : LogicalPlan F → LogicalPlan F → Bool)
    (same_iff : (x y : LogicalPlan F) → (same x y ≡ true) ↔ (x ≡ y)) where
  one_pass :
      (n : ℕ) (x y : LogicalPlan F)
      → rewrite_bottom_up floats x ≡ ok y
      → y ≢ x
      → rewrite_passes floats same (suc n) x ≡ rewrite_passes floats same n y
  unfolding rewrite_passes
  one_pass n x y h d = elim (Bool-cases (same y x)) [
    | inl e ↦ absurd (d ((same_iff y x).0 e))
    | inr e ↦ rw (h, e) refl
  ]

  last_pass :
      (n : ℕ) (x : LogicalPlan F)
      → rewrite_bottom_up floats x ≡ ok x
      → rewrite_passes floats same (suc n) x ≡ ok (prune_columns x [])
  unfolding rewrite_passes
  last_pass n x h = rw (h, (same_iff x x).1 refl) refl

  module _ (t : BoundTable) (p : BoundExpr F) (v : IsPushable floats t p)
      (items : List (BoundSelectItem F)) (hi : fold_items floats items ≡ ok items) (js : Joins F)
      (hs : All (λ j. fold_expression floats j.1 ≡ ok j.1) js) where
    rewrite-selected :
        (k : ℕ)
        → k < length js
        → rewrite_bottom_up floats (selected items t js p k) ≡ ok (selected items t js p (suc k))
    unfolding rewrite_bottom_up
    rewrite-selected k lt = rw (rewrite-pushed floats t p v k js hs lt, hi) refl

    selected_ne : (k : ℕ) → k < length js → selected items t js p (suc k) ≢ selected items t js p k
    selected_ne k lt h = pushed_ne k t js p lt (cc)

    passes_run_out :
        (n k : ℕ)
        → k + n ≤ length js
        → rewrite_passes floats same n (selected items t js p k) ≡ err runtime_error
    unfolding rewrite_passes
    passes_run_out zero k le = refl
    passes_run_out (suc n) k le =
        one_pass n _ _ (rewrite-selected k (omega arith)) (selected_ne k (omega arith))
        ∙ passes_run_out n (suc k) (omega arith)

    rewrite-selected_last :
        rewrite_bottom_up floats (selected items t js p (length js))
        ≡ ok (selected items t js p (length js))
    unfolding rewrite_bottom_up
    rewrite-selected_last = rw (rewrite_last floats t p v js hs, hi) refl

    passes_suffice :
        (n k : ℕ)
        → k ≤ length js
        → length js < k + n
        → rewrite_passes floats same n (selected items t js p k)
          ≡ ok (prune_columns (selected items t js p (length js)) [])
    passes_suffice zero k le lt = absurd (omega arith)
    passes_suffice (suc n) k le lt = elim (Bool-cases (ltb k (length js))) [
      | inl h ↦
          let lt' : k < length js = ground arith in
          one_pass n _ _ (rewrite-selected k lt') (selected_ne k lt')
          ∙ passes_suffice n (suc k) (omega arith) (omega arith)
      | inr h ↦
          let e : length js ≡ k = ground arith in
          last_pass n (selected items t js p k) (
            subst
              (λ m.
                rewrite_bottom_up floats (selected items t js p m) ≡ ok (selected items t js p m))
              e rewrite-selected_last)
          ∙ ap (λ m. ok (prune_columns (selected items t js p m) [])) (sym e)
    ]

    -- On a filter over a left-deep chain of joins: the predicate reads columns of the first table
    -- only, and at least one, is folded already and is no conjunction; the join conditions and the
    -- select items are folded already; and the given test decides whether two plans are equal. With
    -- at most seven joins, rewrite returns the plan with the filter at its table. With eight or more
    -- joins it raises RuntimeError.
    pub rewrite-chain_length :
        (length js < 8
          → rewrite floats same (selected items t js p 0)
            ≡ ok (prune_columns (selected items t js p (length js)) []))
        × (8 ≤ length js → rewrite floats same (selected items t js p 0) ≡ err runtime_error)
    unfolding rewrite
    rewrite-chain_length = (
      λ lt. passes_suffice 8 0 (omega arith) (omega arith),
      λ le. passes_run_out 8 0 (omega arith),
    )
