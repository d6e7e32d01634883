-- ===== src/Planner/Planner/Calls.antt =====
-- The calls that a SELECT's aggregation computes.
use mini_postgres.Base.{
  ◌≡◌, refl, ◌∙◌, false, ◌||◌, List, [], ◌∷◌, ◌++◌, Hashable, arith, Bool-cases, inl, inr,
}
use mini_postgres.Dict.{elem, add, elem-append, elem-add}
use mini_postgres.Values.Expressions.{
  BoundExpr, bound_literal, bound_column, bound_cast, bound_unary, bound_binary, bound_is_null,
  bound_function,
}
use mini_postgres.Planner.Planner.{visit_expression, visit_expressions, collect_aggregates}

module _ {F : Type 0} where
  -- The calls in an expression that stand in no other call.
  unfoldable pub calls : BoundExpr F → List (BoundExpr F)
  calls (bound_literal v t n) = []
  calls (bound_column b name t n) = []
  calls (bound_cast e t n) = calls e
  calls (bound_unary op e t n) = calls e
  calls (bound_binary e op f t n) = calls e ++ calls f
  calls (bound_is_null e is_not) = calls e
  calls (bound_function name args is_star t n) = bound_function name args is_star t n ∷ []

  unfoldable pub all_calls : List (BoundExpr F) → List (BoundExpr F)
  unfolding calls
  all_calls [] = []
  all_calls (e ∷ es) = calls e ++ all_calls es

module _ {F : Type 0} ⦃h : Hashable (BoundExpr F)⦄ where
  -- No call stands twice.
  abbrev pub IsDistinct : List (BoundExpr F) → Type 0
  IsDistinct [] = Unit
  IsDistinct (e ∷ es) = (elem e es ≡ false) × IsDistinct es

  IsDistinct-append :
      (es : List (BoundExpr F)) (c : BoundExpr F)
      → elem c es ≡ false
      → IsDistinct es
      → IsDistinct (es ++ c ∷ [])
  unfolding elem
  IsDistinct-append [] c n d = (refl, tt)
  IsDistinct-append (e ∷ es) c n (k, d) = (
    elem-append e es (c ∷ []) ∙ ground (arith, h.same_iff c e, h.same_iff e c),
    IsDistinct-append es c (ground arith) d,
  )

  add-IsDistinct :
      (c : BoundExpr F) (es : List (BoundExpr F)) → IsDistinct es → IsDistinct (add c es)
  unfolding add
  add-IsDistinct c es d = elim (Bool-cases (elem c es)) [
    | inl e ↦ rw e d
    | inr e ↦ rw e (IsDistinct-append es c e d)
  ]

  visit_expression-IsDistinct :
      (e : BoundExpr F) (found : List (BoundExpr F))
      → IsDistinct found
      → IsDistinct (visit_expression e found)
  unfolding visit_expression
  visit_expression-IsDistinct (bound_literal v t n) found d = d
  visit_expression-IsDistinct (bound_column b name t n) found d = d
  visit_expression-IsDistinct (bound_cast e t n) found d = visit_expression-IsDistinct e found d
  visit_expression-IsDistinct (bound_unary op e t n) found d = visit_expression-IsDistinct e found d
  visit_expression-IsDistinct (bound_binary e op f t n) found d =
      visit_expression-IsDistinct f (visit_expression e found)
        (visit_expression-IsDistinct e found d)
  visit_expression-IsDistinct (bound_is_null e is_not) found d =
      visit_expression-IsDistinct e found d
  visit_expression-IsDistinct (bound_function name args is_star t n) found d =
      add-IsDistinct _ found d

  elem-visit_expression :
      (c e : BoundExpr F) (found : List (BoundExpr F))
      → elem c (visit_expression e found) ≡ (elem c found || elem c (calls e))
  unfolding visit_expression calls elem
  elem-visit_expression c (bound_literal v t n) found = ground arith
  elem-visit_expression c (bound_column b name t n) found = ground arith
  elem-visit_expression c (bound_cast e t n) found = elem-visit_expression c e found
  elem-visit_expression c (bound_unary op e t n) found = elem-visit_expression c e found
  elem-visit_expression c (bound_binary e op f t n) found = ground (
    arith,
    elem-visit_expression c f (visit_expression e found),
    elem-visit_expression c e found,
    elem-append c (calls e) (calls f),
  )
  elem-visit_expression c (bound_is_null e is_not) found = elem-visit_expression c e found
  elem-visit_expression c (bound_function name args is_star t n) found =
      elem-add (bound_function name args is_star t n) c found ∙ ground arith

  elem-visit_expressions :
      (c : BoundExpr F) (es found : List (BoundExpr F))
      → elem c (visit_expressions es found) ≡ (elem c found || elem c (all_calls es))
  unfolding visit_expressions all_calls elem
  elem-visit_expressions c [] found = ground arith
  elem-visit_expressions c (e ∷ es) found = ground (
    arith,
    elem-visit_expressions c es (visit_expression e found),
    elem-visit_expression c e found,
    elem-append c (calls e) (all_calls es),
  )

  visit_expressions-IsDistinct :
      (es found : List (BoundExpr F)) → IsDistinct found → IsDistinct (visit_expressions es found)
  unfolding visit_expressions
  visit_expressions-IsDistinct [] found d = d
  visit_expressions-IsDistinct (e ∷ es) found d =
      visit_expressions-IsDistinct es (visit_expression e found)
        (visit_expression-IsDistinct e found d)

  -- The calls that are collected from some expressions are those that stand in one of them and in no
  -- other call, each once.
  pub collect_aggregates-calls :
      (es : List (BoundExpr F))
      → IsDistinct (collect_aggregates es)
        × ((c : BoundExpr F) → elem c (collect_aggregates es) ≡ elem c (all_calls es))
  unfolding collect_aggregates elem
  collect_aggregates-calls es =
      (visit_expressions-IsDistinct es [] tt, λ c. elem-visit_expressions c es [])
