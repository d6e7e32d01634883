-- ===== src/Planner/Fold/Meaning.antt =====
-- Folding keeps the value of an expression.
use mini_postgres.Base.{
  ℕ, not, ◌≡◌, refl, sym, ◌∙◌, subst, inl, inr, Bool, false, Option, none, List, [], ◌∷◌, ◌++◌,
  Error, if◌then◌else◌, Result, ok, err, ◌>>=◌, arith, Bool-cases, Result-cases, type_mismatch,
}
use mini_postgres.Values.{Floats, Scalar, DataType, boolean}
use mini_postgres.Values.Expressions.{
  BoundExpr, bound_literal, bound_column, bound_cast, bound_unary, bound_binary, bound_is_null,
  bound_function, BoundArguments, ExecutionRow, evaluate, is_null, UnaryOperator, BinaryOperator,
  cast_value, unary_value, binary_values,
}
use mini_postgres.Sql.Binder.{data_type_of}
use mini_postgres.Planner.Fold.{
  bindings, is_function, empty_row, contains_binding, fold_rewritten, fold_expression,
  fold_arguments,
}

-- A row without computed values, such as those of a table.
abbrev pub IsBase : {F : Type 0} → ExecutionRow F → Type 0
IsBase {F} row = (e : BoundExpr F) → row.computed e ≡ none

-- The one evaluation raises, and so does the other.
abbrev pub Raises {ℓ} : {A : Type ℓ} → Result A → Type ℓ
Raises {A} r = (x : Error) × (r ≡ err x)

append-nil_left : {A : Type 0} (xs ys : List A) → (xs ++ ys) ≡ [] → (xs ≡ []) × (ys ≡ [])
append-nil_left [] ys h = (refl, h)
append-nil_left (x ∷ xs) ys h = cc

no_binding :
    {F : Type 0} (e : BoundExpr F)
    → contains_binding e ≡ false
    → (bindings e ≡ []) × (is_function e ≡ false)
unfolding contains_binding
no_binding e h = ground arith

-- Evaluation on a base row, by the operands.
module _ {F : Type 0} (floats : Floats F) (row : ExecutionRow F) (base : IsBase row) where
  evaluate_cast :
      (e : BoundExpr F) (t : DataType) (n : Bool)
      → evaluate floats (bound_cast e t n) row ≡ (evaluate floats e row >>= cast_value floats t)
  unfolding evaluate
  evaluate_cast e t n = rw (base (bound_cast e t n), evaluate) refl

  evaluate_unary :
      (op : UnaryOperator) (e : BoundExpr F) (t : DataType) (n : Bool)
      → evaluate floats (bound_unary op e t n) row
        ≡ (evaluate floats e row >>= unary_value floats op t)
  unfolding evaluate
  evaluate_unary op e t n = rw (base (bound_unary op e t n), evaluate) refl

  pub evaluate_binary :
      (e : BoundExpr F) (op : BinaryOperator) (f : BoundExpr F) (t : DataType) (n : Bool)
      → evaluate floats (bound_binary e op f t n) row
        ≡ (evaluate floats e row >>= λ v. evaluate floats f row >>= binary_values floats op t v)
  unfolding evaluate
  evaluate_binary e op f t n = rw (base (bound_binary e op f t n), evaluate) refl

  evaluate-bound_is_null :
      (e : BoundExpr F) (is_not : Bool)
      → evaluate floats (bound_is_null e is_not) row ≡ (
          evaluate floats e row >>= λ v.
          ok (boolean (if is_not then not (is_null v) else is_null v)))
  unfolding evaluate
  evaluate-bound_is_null e is_not = rw (base (bound_is_null e is_not), evaluate) refl

  evaluate_function :
      (name : List ℕ) (args : BoundArguments F) (is_star : Bool) (t : DataType) (n : Bool)
      → evaluate floats (bound_function name args is_star t n) row ≡ err type_mismatch
  unfolding evaluate
  evaluate_function name args is_star t n =
      rw (base (bound_function name args is_star t n), evaluate) refl

  evaluate_literal :
      (v : Scalar F) (t : Option DataType) (n : Bool)
      → evaluate floats (bound_literal v t n) row ≡ ok v
  unfolding evaluate
  evaluate_literal v t n = rw (base (bound_literal v t n), evaluate) refl

evaluate-constant :
    {F : Type 0} (floats : Floats F) (row : ExecutionRow F)
    → IsBase row
    → (e : BoundExpr F) → bindings e ≡ []
    → evaluate floats e empty_row ≡ evaluate floats e row
unfolding bindings
evaluate-constant floats row base (bound_literal v t n) h =
    cc (evaluate_literal floats empty_row (λ x. refl) v t n, evaluate_literal floats row base v t n)
evaluate-constant floats row base (bound_column b name t n) h = cc
evaluate-constant floats row base (bound_cast e t n) h =
    rw
      (
        evaluate_cast floats empty_row (λ x. refl) e t n,
        evaluate_cast floats row base e t n,
        evaluate-constant floats row base e h,
      )
      refl
evaluate-constant floats row base (bound_unary op e t n) h =
    rw
      (
        evaluate_unary floats empty_row (λ x. refl) op e t n,
        evaluate_unary floats row base op e t n,
        evaluate-constant floats row base e h,
      )
      refl
evaluate-constant floats row base (bound_binary e op f t n) h =
    let (h1, h2) = append-nil_left (bindings e) (bindings f) h in
    rw
      (
        evaluate_binary floats empty_row (λ x. refl) e op f t n,
        evaluate_binary floats row base e op f t n,
        evaluate-constant floats row base e h1,
        evaluate-constant floats row base f h2,
      )
      refl
evaluate-constant floats row base (bound_is_null e is_not) h =
    rw
      (
        evaluate-bound_is_null floats empty_row (λ x. refl) e is_not,
        evaluate-bound_is_null floats row base e is_not,
        evaluate-constant floats row base e h,
      )
      refl
evaluate-constant floats row base (bound_function name args is_star t n) h = cc (
  evaluate_function floats empty_row (λ x. refl) name args is_star t n,
  evaluate_function floats row base name args is_star t n,
)

-- What folding an expression may return, if the expression evaluates to a given result on a row.
abbrev pub Agrees :
    {F : Type 0} → Floats F → ExecutionRow F → Result (BoundExpr F) → Result (Scalar F) → Type 0
Agrees floats row (ok e) r = evaluate floats e row ≡ r
Agrees floats row (err x) r = Raises r

module _ {F : Type 0} (floats : Floats F) (row : ExecutionRow F) (base : IsBase row) where
  fold_rewritten-Agrees :
      (e : BoundExpr F) → Agrees floats row (fold_rewritten floats e) (evaluate floats e row)
  unfolding fold_rewritten
  fold_rewritten-Agrees e = elim (Bool-cases (contains_binding e)) [
    | inl h ↦ rw h refl
    | inr h ↦
        let same : evaluate floats e empty_row ≡ evaluate floats e row =
          evaluate-constant floats row base e (no_binding e h).0 in
        elim (Result-cases (evaluate floats e empty_row)) [
          | inl (v, x) ↦
              rw (h, x)
                (evaluate_literal floats row base v (data_type_of e) (is_null v) ∙ sym x ∙ same)
          | inr (y, x) ↦ rw (h, x) (y, sym same ∙ x)
        ]
  ]

  -- A step on a folded operand, if the whole evaluates by the operand's value.
  step-Agrees :
      (r : Result (BoundExpr F)) (k : BoundExpr F → Result (BoundExpr F)) (s s' : Result (Scalar F))
      → Agrees floats row r s
      → ((e : BoundExpr F) → evaluate floats e row ≡ s → Agrees floats row (k e) s')
      → (Raises s → Raises s')
      → Agrees floats row (r >>= k) s'
  step-Agrees (ok e) k s s' h f g = f e h
  step-Agrees (err x) k s s' h f g = g h

  Raises-bind :
      (r : Result (Scalar F)) (k : Scalar F → Result (Scalar F)) → Raises r → Raises (r >>= k)
  Raises-bind r k (x, h) = (x, rw h refl)

  Raises-second :
      (r s : Result (Scalar F)) (k : Scalar F → Scalar F → Result (Scalar F))
      → Raises s
      → Raises (r >>= λ v. s >>= k v)
  Raises-second (ok v) s k (x, h) = (x, rw h refl)
  Raises-second (err y) s k (x, h) = (y, refl)

  -- A node over folded operands, if each may be put for its operand.
  node-Agrees :
      (e e' : BoundExpr F)
      → evaluate floats e' row ≡ evaluate floats e row
      → Agrees floats row (fold_rewritten floats e') (evaluate floats e row)
  node-Agrees e e' h =
      subst (Agrees floats row (fold_rewritten floats e')) h (fold_rewritten-Agrees e')

  one-Agrees :
      (r : Result (BoundExpr F)) (node : BoundExpr F → BoundExpr F)
      → (k : Scalar F → Result (Scalar F))
      → ((e : BoundExpr F) → evaluate floats (node e) row ≡ (evaluate floats e row >>= k))
      → (e : BoundExpr F) → Agrees floats row r (evaluate floats e row)
      → Agrees floats row
          (r >>= λ e'. fold_rewritten floats (node e'))
          (evaluate floats (node e) row)
  one-Agrees r node k law e h =
      step-Agrees r (λ e'. fold_rewritten floats (node e')) (evaluate floats e row)
        (evaluate floats (node e) row) h
        (λ e' h'. node-Agrees (node e) (node e') (rw (law e', law e, h') refl))
        (λ h'. subst Raises (sym (law e)) (Raises-bind (evaluate floats e row) k h'))

  function-Agrees :
      (r : Result (BoundArguments F)) (name : List ℕ) (args : BoundArguments F) (is_star : Bool)
      → (t : DataType) (n : Bool)
      → Agrees floats row
          (r >>= λ args'. ok (bound_function name args' is_star t n))
          (evaluate floats (bound_function name args is_star t n) row)
  function-Agrees (ok args') name args is_star t n = cc (
    evaluate_function floats row base name args' is_star t n,
    evaluate_function floats row base name args is_star t n,
  )
  function-Agrees (err x) name args is_star t n =
      (type_mismatch, evaluate_function floats row base name args is_star t n)

  -- Folding an expression keeps its value on every row without computed values; where folding
  -- raises, so does the evaluation of the expression on every such row.
  pub fold_expression-Agrees :
      (e : BoundExpr F) → Agrees floats row (fold_expression floats e) (evaluate floats e row)
  unfolding fold_expression
  fold_expression-Agrees (bound_literal v t n) = refl
  fold_expression-Agrees (bound_column b name t n) = refl
  fold_expression-Agrees (bound_cast e t n) =
      one-Agrees (fold_expression floats e) (λ e'. bound_cast e' t n) (cast_value floats t)
        (λ e'. evaluate_cast floats row base e' t n) e (fold_expression-Agrees e)
  fold_expression-Agrees (bound_unary op e t n) =
      one-Agrees (fold_expression floats e) (λ e'. bound_unary op e' t n) (unary_value floats op t)
        (λ e'. evaluate_unary floats row base op e' t n) e (fold_expression-Agrees e)
  fold_expression-Agrees (bound_is_null e is_not) =
      one-Agrees (fold_expression floats e) (λ e'. bound_is_null e' is_not)
        (λ v. ok (boolean (if is_not then not (is_null v) else is_null v)))
        (λ e'. evaluate-bound_is_null floats row base e' is_not) e (fold_expression-Agrees e)
  fold_expression-Agrees (bound_binary e op f t n) =
      let whole : BoundExpr F = bound_binary e op f t n in
      let law = evaluate_binary floats row base e op f t n in
      step-Agrees (fold_expression floats e) _ (evaluate floats e row) (evaluate floats whole row)
        (fold_expression-Agrees e)
        (λ e' h.
          step-Agrees (fold_expression floats f) _ (evaluate floats f row)
            (evaluate floats whole row) (fold_expression-Agrees f)
            (λ f' h'.
              node-Agrees whole (bound_binary e' op f' t n)
                (rw (evaluate_binary floats row base e' op f' t n, law, h, h') refl))
            (λ h'. subst Raises (sym law) (
              Raises-second (evaluate floats e row) (evaluate floats f row)
                (binary_values floats op t) h')))
        (λ h. subst Raises (sym law) (Raises-bind (evaluate floats e row) _ h))
  fold_expression-Agrees (bound_function name args is_star t n) =
      function-Agrees (fold_arguments floats args) name args is_star t n
