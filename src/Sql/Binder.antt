-- ===== src/Sql/Binder.antt =====
-- The part of sql/binder.py that binds expressions. str.casefold and str.upper are parameters.
pub mod Columns
pub mod Coercion
pub mod Typing
pub mod Soundness
use mini_postgres.Base.{
  ℕ, Bool, true, false, not, ◌||◌, ◌&&◌, Option, none, some, List, [], ◌∷◌, ◌++◌, if◌then◌else◌,
  Result, ok, err, ◌>>=◌, type_mismatch, bind_error,
}
use mini_postgres.Values.{
  DataType, int64_type, float64_type, boolean_type, is_numeric, Scalar, null, integer, infer_type,
  validate_int64, text_equal, same_type,
}
use mini_postgres.Values.Expressions.{
  ColumnBinding, UnaryOperator, op_not, op_plus, op_minus, BinaryOperator, op_and, op_or,
  comparison, arithmetic, BoundExpr, bound_literal, bound_column, bound_cast, bound_unary,
  bound_binary, bound_is_null, bound_function, BoundArguments, no_arguments, argument, is_null,
}
use mini_postgres.Values.Expressions.Typing.{nullable_of}
use mini_postgres.Sql.Syntax.{
  Name, Expr, literal, column_ref, star, unary_expr, binary_expr, is_null_expr, function_call,
  Exprs, no_exprs, more_exprs, Column, ScopeEntry, has_name, count_name, sum_name, avg_name,
  resolve_column, function_allowed, find_column, matches, entries_of,
}

module _ {F : Type 0} where
  unfoldable pub data_type_of : BoundExpr F → Option DataType
  data_type_of (bound_literal v t nullable) = t
  data_type_of (bound_column b name t nullable) = some t
  data_type_of (bound_cast e t nullable) = some t
  data_type_of (bound_unary op e t nullable) = some t
  data_type_of (bound_binary e op f t nullable) = some t
  data_type_of (bound_is_null e is_not) = some boolean_type
  data_type_of (bound_function name args is_star t nullable) = some t

  -- _require_numeric; its caller goes on with the data type
  unfoldable pub require_numeric : BoundExpr F → Result DataType
  unfolding data_type_of
  require_numeric e = elim (data_type_of e) [
    | none ↦ err type_mismatch
    | some t ↦ if is_numeric t then ok t else err type_mismatch
  ]

  unfoldable pub require_boolean : BoundExpr F → Result DataType
  unfolding data_type_of
  require_boolean e = elim (data_type_of e) [
    | none ↦ err type_mismatch
    | some t ↦ if same_type t boolean_type then ok boolean_type else err type_mismatch
  ]

  -- _coerce where the expression has no data type
  unfoldable pub coerce_null : BoundExpr F → DataType → Result (BoundExpr F)
  coerce_null (bound_literal null t nullable) target = ok (bound_literal null (some target) true)
  coerce_null e target = err type_mismatch

  unfoldable pub coerce_typed : BoundExpr F → DataType → DataType → Result (BoundExpr F)
  unfolding nullable_of
  coerce_typed e t target =
      if same_type t target
      then ok e
      else if same_type t int64_type
      then if same_type target float64_type
        then ok (bound_cast e float64_type (nullable_of e))
        else err type_mismatch
      else err type_mismatch

  unfoldable pub coerce : BoundExpr F → DataType → Result (BoundExpr F)
  unfolding data_type_of coerce_null coerce_typed
  coerce e target = elim (data_type_of e) [
    | none ↦ coerce_null e target
    | some t ↦ coerce_typed e t target
  ]

  -- _numeric_pair once it is known whether one of the operands is a FLOAT64
  unfoldable pub widen_pair :
      Bool → BoundExpr F → BoundExpr F → Result (BoundExpr F × BoundExpr F × DataType)
  unfolding coerce
  widen_pair true e f = do
    e' ← coerce e float64_type
    f' ← coerce f float64_type
    ok (e', f', float64_type)
  widen_pair false e f = ok (e, f, int64_type)

  unfoldable pub numeric_pair :
      BoundExpr F → BoundExpr F → Result (BoundExpr F × BoundExpr F × DataType)
  unfolding require_numeric widen_pair
  numeric_pair e f = do
    t ← require_numeric e
    u ← require_numeric f
    widen_pair (same_type t float64_type || same_type u float64_type) e f

  -- _comparable_pair where both operands have data types
  unfoldable pub comparable_typed :
      BoundExpr F → BoundExpr F → DataType → DataType → Result (BoundExpr F × BoundExpr F)
  unfolding numeric_pair
  comparable_typed e f t u =
      if same_type t u
      then ok (e, f)
      else if is_numeric t
      then if is_numeric u then (do p ← numeric_pair e f; ok (p.0, p.1)) else err type_mismatch
      else err type_mismatch

  unfoldable pub comparable_pair : BoundExpr F → BoundExpr F → Result (BoundExpr F × BoundExpr F)
  unfolding data_type_of coerce comparable_typed
  comparable_pair e f = elim (data_type_of e) [
    | none ↦ elim (data_type_of f) [ none ↦ ok (e, f) | some u ↦ do e' ← coerce e u; ok (e', f) ]
    | some t ↦ elim (data_type_of f) [
      | none ↦ do f' ← coerce f t; ok (e, f')
      | some u ↦ comparable_typed e f t u
    ]
  ]

  -- _bind_binary on the bound operands
  unfoldable pub binary_of : BinaryOperator → BoundExpr F → BoundExpr F → Result (BoundExpr F)
  unfolding require_boolean numeric_pair comparable_pair nullable_of
  binary_of (arithmetic op) e f = do
    p ← numeric_pair e f
    ok (bound_binary p.0 (arithmetic op) p.1 p.2 (nullable_of p.0 || nullable_of p.1))
  binary_of (comparison op) e f = do
    p ← comparable_pair e f
    ok (bound_binary p.0 (comparison op) p.1 boolean_type (nullable_of p.0 || nullable_of p.1))
  binary_of op e f = do
    _ ← require_boolean e
    _ ← require_boolean f
    ok (bound_binary e op f boolean_type (nullable_of e || nullable_of f))

  unfoldable pub unary_of : UnaryOperator → BoundExpr F → Result (BoundExpr F)
  unfolding require_boolean require_numeric nullable_of
  unary_of op_not e = do t ← require_boolean e; ok (bound_unary op_not e t (nullable_of e))
  unary_of op e = do t ← require_numeric e; ok (bound_unary op e t (nullable_of e))

  unfoldable pub literal_of : Scalar F → Result (BoundExpr F)
  unfolding infer_type validate_int64
  literal_of (integer n) = do
    m ← validate_int64 n
    ok (bound_literal (integer m) (infer_type {F = F} (integer m)) false)
  literal_of v = ok (bound_literal v (infer_type v) (is_null v))

  -- the end of _bind_function, by the argument's data type
  unfoldable pub typed_aggregate : Name → BoundExpr F → Option DataType → Result (BoundExpr F)
  typed_aggregate name e none = err type_mismatch
  typed_aggregate name e (some t) =
      let result_type = if text_equal name avg_name then float64_type else t in
      ok (bound_function name (argument e no_arguments) false result_type true)

  -- _bind_function on its bound argument
  unfoldable pub function_of : Name → BoundExpr F → Result (BoundExpr F)
  unfolding require_numeric data_type_of typed_aggregate
  function_of name e =
      if text_equal name count_name
      then ok (bound_function name (argument e no_arguments) false int64_type false)
      else do
        _ ← if has_name name (sum_name ∷ avg_name ∷ []) then require_numeric e else ok int64_type
        typed_aggregate name e (data_type_of e)

  unfoldable pub star_function : Name → Result (BoundExpr F)
  star_function name =
      if text_equal name count_name
      then ok (bound_function name no_arguments true int64_type false)
      else err bind_error

module _ {F : Type 0} (casefold upper : Name → Name) (scope : List ScopeEntry) where
  -- _bind_expression_inner; nested says that an aggregate's argument is being bound
  unfoldable pub bind_expression : Bool → Bool → Expr F → Result (BoundExpr F)
  unfolding literal_of resolve_column unary_of binary_of function_of star_function
  bind_expression allow nested (literal v) = literal_of v
  bind_expression allow nested (column_ref name table) = resolve_column casefold scope name table
  bind_expression allow nested (star table) = err bind_error
  bind_expression allow nested (unary_expr op e) = do
    b ← bind_expression allow nested e
    unary_of op b
  bind_expression allow nested (binary_expr e op f) = do
    b ← bind_expression allow nested e
    c ← bind_expression allow nested f
    binary_of op b c
  bind_expression allow nested (is_null_expr e is_not) = do
    b ← bind_expression allow nested e
    ok (bound_is_null b is_not)
  bind_expression allow nested (function_call name (more_exprs (star table) no_exprs)) =
      if function_allowed (upper name) allow nested
      then star_function (upper name)
      else err bind_error
  bind_expression allow nested (function_call name (more_exprs e no_exprs)) =
      let bound = bind_expression true true e in
      if function_allowed (upper name) allow nested
      then (do b ← bound; function_of (upper name) b)
      else err bind_error
  bind_expression allow nested (function_call name _) = err bind_error
