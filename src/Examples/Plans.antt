-- ===== src/Examples/Plans.antt =====
-- Folding and plan rewriting at concrete inputs. The floats of the examples are integers.
use mini_postgres.Base.{
  ◌≡◌, ◌↔◌, refl, Bool, true, false, List, some, [], ◌∷◌, ok, err, ℕ, ℤ, pos, runtime_error,
  type_mismatch, arith, All,
}
use native.Mathlib.Decide.{ℕ_discrete}
use mini_postgres.Values.{int64_type, boolean_type, integer, eq}
use mini_postgres.Values.Expressions.{
  arithmetic, comparison, add, BoundExpr, bound_literal, bound_column, bound_binary, bound_function,
  no_arguments, evaluate,
}
use mini_postgres.Sql.Syntax.{count_name}
use mini_postgres.Planner.Fold.{bindings, contains_binding, fold_rewritten, fold_expression}
use mini_postgres.Planner.Fold.Meaning.{Agrees, fold_expression-Agrees}
use mini_postgres.Planner.Logical.{BoundTable, BoundSelectItem, LogicalPlan}
use mini_postgres.Planner.Rules.{conjuncts, fold_items}
use mini_postgres.Planner.RuleOptimizer.{rewrite}
use mini_postgres.Planner.RuleOptimizer.Chains.{Joins, IsPushable}
use mini_postgres.Planner.RuleOptimizer.Passes.{selected, rewrite-chain_length}
use mini_postgres.Examples.Values.{whole, row, half, column_a}

-- a / 2 + (1 + 2)
abbrev pub constant : ℕ → BoundExpr ℤ
constant n = bound_literal (integer (pos n)) (some int64_type) false

abbrev half_and_three : BoundExpr ℤ
half_and_three =
    bound_binary half (arithmetic add)
      (bound_binary (constant 1) (arithmetic add) (constant 2) int64_type false) int64_type true

fold_expression-Agrees_example :
    Agrees whole row (fold_expression whole half_and_three) (evaluate whole half_and_three row)
fold_expression-Agrees_example = fold_expression-Agrees whole row (λ e. refl) half_and_three

abbrev pub count_star : BoundExpr ℤ
count_star = bound_function count_name no_arguments true int64_type false

-- SELECT COUNT(*) + 1 is not planned.
count_star_refused :
    fold_expression whole (bound_binary count_star (arithmetic add) (constant 1) int64_type false)
    ≡ err type_mismatch
unfolding fold_expression fold_rewritten contains_binding bindings evaluate
count_star_refused = refl

plan_discrete : Discrete (LogicalPlan ℤ)
plan_discrete = hlevel ℕ_discrete

abbrev pub decided {ℓ} : {A : Type ℓ} → Dec A → Bool
decided (yes h) = true
decided (no h) = false

pub decided_iff {ℓ} : {A : Type ℓ} (d : Dec A) → (decided d ≡ true) ↔ A
decided_iff (yes h) = (λ e. h, λ a. refl)
decided_iff (no h) = (λ e. cc, λ a. absurd (h a))

abbrev same : LogicalPlan ℤ → LogicalPlan ℤ → Bool
same x y = decided (plan_discrete x y)

same_iff : (x y : LogicalPlan ℤ) → (same x y ≡ true) ↔ (x ≡ y)
same_iff x y = decided_iff (plan_discrete x y)

abbrev pub table_of : ℕ → BoundTable
table_of n = record {
  metadata = record { table_id = n; name = 116 ∷ n ∷ []; columns = column_a ∷ [] };
  alias = 116 ∷ n ∷ [];
}

abbrev pub column_of : ℕ → BoundExpr ℤ
column_of n = bound_column (record { table_id = n; column_id = 0 }) (97 ∷ []) int64_type true

abbrev pub equals : BoundExpr ℤ → BoundExpr ℤ → BoundExpr ℤ
equals e f = bound_binary e (comparison eq) f boolean_type true

abbrev join_with : ℕ → BoundTable × BoundExpr ℤ
join_with n = (table_of n, equals (column_of 0) (column_of n))

abbrev pub eight_joins : Joins ℤ
eight_joins =
    join_with 8
    ∷ join_with 7
    ∷ join_with 6
    ∷ join_with 5
    ∷ join_with 4
    ∷ join_with 3
    ∷ join_with 2
    ∷ join_with 1
    ∷ []

abbrev pub condition : BoundExpr ℤ
condition = equals (column_of 0) (constant 1)

condition-IsPushable : IsPushable whole (table_of 0) condition
unfolding fold_expression fold_rewritten contains_binding bindings conjuncts
condition-IsPushable = record {
  folded = refl;
  single = refl;
  column = record { table_id = 0; column_id = 0 };
  columns = [];
  reads = refl;
  local = refl;
}

abbrev pub items : List (BoundSelectItem ℤ)
items = (record { expression = column_of 0; name = 97 ∷ [] }) ∷ []

items_folded : fold_items whole items ≡ ok items
unfolding fold_items fold_expression
items_folded = refl

joins_folded : All (λ j. fold_expression whole j.1 ≡ ok j.1) eight_joins
unfolding fold_expression fold_rewritten contains_binding bindings
joins_folded = (refl, (refl, (refl, (refl, (refl, (refl, (refl, (refl, tt))))))))

rewrite-chain_length_example :
    rewrite whole same (selected items (table_of 0) eight_joins condition 0) ≡ err runtime_error
rewrite-chain_length_example =
    (rewrite-chain_length whole same same_iff (table_of 0) condition condition-IsPushable items
        items_folded eight_joins joins_folded).1
      (omega arith)
