-- ===== src/Sql/Binder/Typing.antt =====
-- Bound expressions are well typed.
use mini_postgres.Base.{
  ℕ, ◌≡◌, refl, sym, subst, ◌⊎◌, inl, inr, Bool, true, false, ◌||◌, Option, none, some, List, [],
  ◌∷◌, if◌then◌else◌, Result, ok, err, ◌>>=◌, >>=-eq-ok, ok_injective, bind_error, arith,
  Bool-cases, All,
}
use mini_postgres.Values.{DataType, int64_type, boolean_type, text_equal}
use mini_postgres.Values.Expressions.{
  UnaryOperator, op_not, op_plus, op_minus, BinaryOperator, op_and, op_or, comparison, arithmetic,
  BoundExpr, bound_unary, bound_binary,
}
use mini_postgres.Values.Expressions.Typing.{
  nullable_of, Schema, Typed, typed_column, typed_not, typed_plus, typed_minus, typed_and, typed_or,
  typed_arithmetic, typed_comparison, typed_is_null, typed_function,
}
use mini_postgres.Sql.Syntax.{
  Name, Expr, literal, column_ref, star, unary_expr, binary_expr, is_null_expr, function_call,
  Exprs, no_exprs, more_exprs, Column, ScopeEntry, has_name, count_name, sum_name, avg_name,
  only_match, resolve_column, function_allowed, matches, entries_of,
}
use mini_postgres.Sql.Binder.{
  data_type_of, require_numeric, require_boolean, numeric_pair, comparable_pair, binary_of,
  unary_of, typed_aggregate, function_of, star_function, bind_expression,
}
use mini_postgres.Sql.Binder.Columns.{InScope, Known, matches-Known, entries_of-InScope}
use mini_postgres.Sql.Binder.Coercion.{
  WellTyped, literal_of-WellTyped, require_numeric-eq-ok, require_boolean-eq-ok, typed_at,
  numeric_pair-Alike, comparable_pair-Alike,
}

module _ {F : Type 0} (columns : Schema) where
  typed_logic :
      (op : BinaryOperator) (e f : BoundExpr F)
      → (op ≡ op_and) ⊎ (op ≡ op_or)
      → Typed columns e (some boolean_type)
      → Typed columns f (some boolean_type)
      → Typed columns
          (bound_binary e op f boolean_type (nullable_of e || nullable_of f))
          (some boolean_type)
  typed_logic op e f (inl h) d d' =
      subst
        (λ o.
          Typed columns (bound_binary e o f boolean_type (nullable_of e || nullable_of f))
            (some boolean_type))
        (sym h) (typed_and e f d d')
  typed_logic op e f (inr h) d d' =
      subst
        (λ o.
          Typed columns (bound_binary e o f boolean_type (nullable_of e || nullable_of f))
            (some boolean_type))
        (sym h) (typed_or e f d d')

  logic-WellTyped :
      (op : BinaryOperator) (e f b : BoundExpr F)
      → (op ≡ op_and) ⊎ (op ≡ op_or)
      → WellTyped columns e
      → WellTyped columns f
      → (require_boolean e >>= λ _. require_boolean f >>= λ _.
          ok (bound_binary e op f boolean_type (nullable_of e || nullable_of f)))
        ≡ ok b
      → WellTyped columns b
  unfolding data_type_of
  logic-WellTyped op e f b o d d' h =
      let (t, x, h1) = >>=-eq-ok (require_boolean e) _ h in
      let (u, y, h2) = >>=-eq-ok (require_boolean f) _ h1 in
      subst (WellTyped columns) (ok_injective h2) (
        typed_logic op e f o
          (typed_at columns e boolean_type d (require_boolean-eq-ok columns e t x).0)
          (typed_at columns f boolean_type d' (require_boolean-eq-ok columns f u y).0))

  binary_of-WellTyped :
      (op : BinaryOperator) (e f b : BoundExpr F)
      → WellTyped columns e
      → WellTyped columns f
      → binary_of op e f ≡ ok b
      → WellTyped columns b
  unfolding binary_of data_type_of
  binary_of-WellTyped op_and e f b d d' h = logic-WellTyped op_and e f b (inl refl) d d' h
  binary_of-WellTyped op_or e f b d d' h = logic-WellTyped op_or e f b (inr refl) d d' h
  binary_of-WellTyped (comparison op) e f b d d' h =
      let (p, x, h1) = >>=-eq-ok (comparable_pair e f) _ h in
      let (t, (i, j)) = comparable_pair-Alike columns e f p.0 p.1 d d' x in
      subst (WellTyped columns) (ok_injective h1) (typed_comparison op p.0 p.1 t i j)
  binary_of-WellTyped (arithmetic op) e f b d d' h =
      let (p, x, h1) = >>=-eq-ok (numeric_pair e f) _ h in
      let ((i, j), k) = numeric_pair-Alike columns e f p.0 p.1 p.2 d d' x in
      subst (WellTyped columns) (ok_injective h1) (typed_arithmetic op p.0 p.1 p.2 k i j)

  unary_of-WellTyped :
      (op : UnaryOperator) (e b : BoundExpr F)
      → WellTyped columns e
      → unary_of op e ≡ ok b
      → WellTyped columns b
  unfolding unary_of data_type_of
  unary_of-WellTyped op_not e b d h =
      let (t, x, h1) = >>=-eq-ok (require_boolean e) _ h in
      let (y, z) = require_boolean-eq-ok columns e t x in
      subst (WellTyped columns) (ok_injective h1) (
        subst (λ u. Typed columns (bound_unary op_not e u (nullable_of e)) (some u)) (sym z)
          (typed_not e (typed_at columns e boolean_type d y)))
  unary_of-WellTyped op_plus e b d h =
      let (t, x, h1) = >>=-eq-ok (require_numeric e) _ h in
      let (y, z) = require_numeric-eq-ok columns e t x in
      subst (WellTyped columns) (ok_injective h1) (typed_plus e t z (typed_at columns e t d y))
  unary_of-WellTyped op_minus e b d h =
      let (t, x, h1) = >>=-eq-ok (require_numeric e) _ h in
      let (y, z) = require_numeric-eq-ok columns e t x in
      subst (WellTyped columns) (ok_injective h1) (typed_minus e t z (typed_at columns e t d y))

  typed_aggregate-WellTyped :
      (name : Name) (e b : BoundExpr F) (t : Option DataType)
      → typed_aggregate name e t ≡ ok b
      → WellTyped columns b
  unfolding typed_aggregate data_type_of
  typed_aggregate-WellTyped name e b none h = cc
  typed_aggregate-WellTyped name e b (some t) h =
      subst (WellTyped columns) (ok_injective h) (typed_function name _ false _ true)

  function_of-WellTyped :
      (name : Name) (e b : BoundExpr F) → function_of name e ≡ ok b → WellTyped columns b
  unfolding function_of data_type_of
  function_of-WellTyped name e b h = elim (Bool-cases (text_equal name count_name)) [
    | inl c ↦
        subst (WellTyped columns) (ok_injective (rw c at h))
          (typed_function name _ false int64_type false)
    | inr c ↦
        let (t, x, h1) =
          >>=-eq-ok
            (if has_name name (sum_name ∷ avg_name ∷ []) then require_numeric e else ok int64_type)
            (λ _. typed_aggregate name e (data_type_of e)) (rw c at h) in
        typed_aggregate-WellTyped name e b (data_type_of e) h1
  ]

  star_function-WellTyped :
      (name : Name) (b : BoundExpr F) → star_function name ≡ ok b → WellTyped columns b
  unfolding star_function data_type_of
  star_function-WellTyped name b h = elim (Bool-cases (text_equal name count_name)) [
    | inl c ↦
        subst (WellTyped columns) (ok_injective (rw c at h))
          (typed_function name _ true int64_type false)
    | inr c ↦ absurd (ground arith)
  ]

  only_match-WellTyped :
      (ms : List (ℕ × Column)) (b : BoundExpr F)
      → All (Known columns) ms
      → only_match ms ≡ ok b
      → WellTyped columns b
  unfolding only_match data_type_of
  only_match-WellTyped [] b k h = cc
  only_match-WellTyped (m ∷ []) b (k, _) h =
      subst (WellTyped columns) (ok_injective h)
        (typed_column _ m.1.name m.1.data_type m.1.nullable k)
  only_match-WellTyped (m ∷ n ∷ ms) b k h = cc

  resolve_column-WellTyped :
      (casefold : Name → Name) (scope : List ScopeEntry) (name : Name) (table : Option Name)
      → (b : BoundExpr F) → InScope columns scope
      → resolve_column casefold scope name table ≡ ok b
      → WellTyped columns b
  unfolding resolve_column data_type_of
  resolve_column-WellTyped casefold scope name table b k h =
      let (es, x, h1) = >>=-eq-ok (entries_of casefold table scope) _ h in
      only_match-WellTyped (matches casefold name es) b
        (matches-Known columns casefold name es
          (entries_of-InScope columns casefold table scope es k x))
        h1

allowed_only :
    {F : Type 0} (allowed : Bool) (r : Result (BoundExpr F)) (b : BoundExpr F)
    → (if allowed then r else err bind_error) ≡ ok b
    → r ≡ ok b
allowed_only true r b h = h
allowed_only false r b h = cc

too_many :
    {F : Type 0} (casefold upper : Name → Name) (scope : List ScopeEntry) (allow nested : Bool)
    → (name : Name) (e f : Expr F) (es : Exprs F)
    → bind_expression casefold upper scope allow nested
        (function_call name (more_exprs e (more_exprs f es)))
      ≡ err bind_error
unfolding bind_expression
too_many casefold upper scope allow nested name (literal _) f es = refl
too_many casefold upper scope allow nested name (column_ref _ _) f es = refl
too_many casefold upper scope allow nested name (star _) f es = refl
too_many casefold upper scope allow nested name (unary_expr _ _) f es = refl
too_many casefold upper scope allow nested name (binary_expr _ _ _) f es = refl
too_many casefold upper scope allow nested name (is_null_expr _ _) f es = refl
too_many casefold upper scope allow nested name (function_call _ _) f es = refl

-- Every expression that the binder returns is well typed, of the data type that it names, under any
-- schema that knows the scope's columns.
pub bind_expression-WellTyped :
    {F : Type 0} (casefold upper : Name → Name) (scope : List ScopeEntry) (columns : Schema)
    → InScope columns scope
    → (allow nested : Bool) (e : Expr F) (b : BoundExpr F)
    → bind_expression casefold upper scope allow nested e ≡ ok b
    → WellTyped columns b
unfolding bind_expression data_type_of
bind_expression-WellTyped casefold upper scope columns k allow nested (literal v) b h =
    literal_of-WellTyped columns v b h
bind_expression-WellTyped casefold upper scope columns k allow nested (column_ref name table) b h =
    resolve_column-WellTyped columns casefold scope name table b k h
bind_expression-WellTyped casefold upper scope columns k allow nested (star table) b h = cc
bind_expression-WellTyped casefold upper scope columns k allow nested (unary_expr op e) b h =
    let (c, x, h1) = >>=-eq-ok (bind_expression casefold upper scope allow nested e) _ h in
    unary_of-WellTyped columns op c b
      (bind_expression-WellTyped casefold upper scope columns k allow nested e c x) h1
bind_expression-WellTyped casefold upper scope columns k allow nested (binary_expr e op f) b h =
    let (c, x, h1) = >>=-eq-ok (bind_expression casefold upper scope allow nested e) _ h in
    let (d, y, h2) = >>=-eq-ok (bind_expression casefold upper scope allow nested f) _ h1 in
    binary_of-WellTyped columns op c d b
      (bind_expression-WellTyped casefold upper scope columns k allow nested e c x)
      (bind_expression-WellTyped casefold upper scope columns k allow nested f d y) h2
bind_expression-WellTyped casefold upper scope columns k allow nested (is_null_expr e is_not) b h =
    let (c, x, h1) = >>=-eq-ok (bind_expression casefold upper scope allow nested e) _ h in
    subst (WellTyped columns) (ok_injective h1) (
      typed_is_null c is_not (data_type_of c)
        (bind_expression-WellTyped casefold upper scope columns k allow nested e c x))
bind_expression-WellTyped casefold upper scope columns k allow nested (function_call name no_exprs)
      b h =
    cc
bind_expression-WellTyped casefold upper scope columns k allow nested
      (function_call name (more_exprs (star t) no_exprs)) b h =
    star_function-WellTyped columns (upper name) b
      (allowed_only (function_allowed (upper name) allow nested) (star_function (upper name)) b h)
bind_expression-WellTyped casefold upper scope columns k allow nested
      (function_call name (more_exprs e no_exprs)) b h =
    let (c, x, h1) =
      >>=-eq-ok (bind_expression casefold upper scope true true e) (function_of (upper name))
        (allowed_only (function_allowed (upper name) allow nested) _ b h) in
    function_of-WellTyped columns (upper name) c b h1
bind_expression-WellTyped casefold upper scope columns k allow nested
      (function_call name (more_exprs e (more_exprs f es))) b h =
    cc (too_many casefold upper scope allow nested name e f es)
