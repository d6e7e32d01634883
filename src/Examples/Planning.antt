-- ===== src/Examples/Planning.antt =====
-- The planner and an executor's lifecycle at concrete inputs.
use mini_postgres.Base.{
  ◌≡◌, refl, ℕ, zero, suc, ℤ, true, List, some, [], ◌∷◌, ok, err, Hashable, runtime_error,
}
use native.Mathlib.Decide.{ℕ_discrete}
use mini_postgres.Dict.{elem, add}
use mini_postgres.Values.{int64_type}
use mini_postgres.Values.Expressions.{BoundExpr, arithmetic, bound_binary}
use mini_postgres.Values.Expressions.{add as add_op}
use mini_postgres.Planner.Planner.{visit_expression, visit_expressions, collect_aggregates}
use mini_postgres.Planner.Planner.Calls.{all_calls, IsDistinct, collect_aggregates-calls}
use mini_postgres.Planner.RuleOptimizer.{prune_columns}
use mini_postgres.Planner.RuleOptimizer.Columns.{IsIn}
use mini_postgres.Planner.RuleOptimizer.Passes.{selected}
use mini_postgres.Planner.RuleOptimizer.Pruning.{Covers, prune_columns-Covers}
use mini_postgres.Executor.Lifecycle.{Hooks, new_executor}
use mini_postgres.Executor.Lifecycle.Protocol.{
  Call, call_open, call_next, call_close, run, Follows, run-Follows,
}
use mini_postgres.Examples.Plans.{
  decided, decided_iff, count_star, column_of, items, table_of, eight_joins, condition,
}

expression_discrete : Discrete (BoundExpr ℤ)
expression_discrete = hlevel ℕ_discrete

instance abbrev expression_hashable : Hashable (BoundExpr ℤ)
expression_hashable = record {
  same = λ e f. decided (expression_discrete e f);
  same_iff = λ e f. decided_iff (expression_discrete e f);
}

-- SELECT COUNT(*), COUNT(*) + a
abbrev select_items : List (BoundExpr ℤ)
select_items =
    count_star ∷ bound_binary count_star (arithmetic add_op) (column_of 1) int64_type true ∷ []

collect_aggregates-calls_example :
    IsDistinct (collect_aggregates select_items)
    × ((c : BoundExpr ℤ)
        → elem c (collect_aggregates select_items) ≡ elem c (all_calls select_items))
collect_aggregates-calls_example = collect_aggregates-calls select_items

-- The call is computed once.
collected_once : collect_aggregates select_items ≡ count_star ∷ []
unfolding collect_aggregates visit_expressions visit_expression add elem expression_discrete
    ℕ_discrete
collected_once = refl

-- SELECT a FROM t JOIN ... WHERE ..., with eight joins
prune_columns-Covers_example :
    Covers
      (λ b. IsIn b [])
      (selected items (table_of 0) eight_joins condition 0)
      (prune_columns (selected items (table_of 0) eight_joins condition 0) [])
prune_columns-Covers_example =
    prune_columns-Covers (selected items (table_of 0) eight_joins condition 0) []

-- An executor whose _next counts its calls and raises at the second.
abbrev counting : Hooks ℕ ℕ
counting = record {
  on_open = λ n. (ok tt, n);
  on_next = λ n. elim n [ zero ↦ (ok (some 0), 1) | suc m ↦ (err runtime_error, suc m) ];
  on_close = λ n. (ok tt, n);
}

abbrev calls : List Call
calls = call_next ∷ call_open ∷ call_next ∷ call_next ∷ call_close ∷ call_open ∷ call_close ∷ []

run-Follows_example : Follows counting (run counting calls (new_executor ([], 0)))
run-Follows_example = run-Follows counting 0 calls
