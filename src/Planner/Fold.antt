-- ===== src/Planner/Fold.antt =====
-- planner/rules.py: fold_expression, and the columns that an expression reads. A frozenset of columns
-- is a list here, which is read only through its emptiness and its members.
pub mod Meaning
use mini_postgres.Base.{
  Bool, true, false, Option, none, some, List, [], ◌∷◌, ◌++◌, if◌then◌else◌, Result, ok, err, ◌>>=◌,
}
use mini_postgres.Values.{Floats, Scalar}
use mini_postgres.Values.Expressions.{
  ColumnBinding, BoundExpr, bound_literal, bound_column, bound_cast, bound_unary, bound_binary,
  bound_is_null, bound_function, BoundArguments, no_arguments, argument, ExecutionRow, evaluate,
  is_null,
}
use mini_postgres.Sql.Binder.{data_type_of}

-- _bindings, and _union_bindings of a function's arguments
unfoldable mutual
  pub bindings : {F : Type 0} → BoundExpr F → List ColumnBinding
  bindings (bound_literal v t nullable) = []
  bindings (bound_column b name t nullable) = b ∷ []
  bindings (bound_cast e t nullable) = bindings e
  bindings (bound_unary op e t nullable) = bindings e
  bindings (bound_binary e op f t nullable) = bindings e ++ bindings f
  bindings (bound_is_null e is_not) = bindings e
  bindings (bound_function name args is_star t nullable) = union_bindings args

  pub union_bindings : {F : Type 0} → BoundArguments F → List ColumnBinding
  union_bindings no_arguments = []
  union_bindings (argument e args) = bindings e ++ union_bindings args

abbrev pub is_function : {F : Type 0} → BoundExpr F → Bool
is_function (bound_function name args is_star t nullable) = true
is_function _ = false

-- ExecutionRow({}, {})
abbrev pub empty_row : {F : Type 0} → ExecutionRow F
empty_row = record { cells = λ b. none; computed = λ e. none }

unfoldable pub contains_binding : {F : Type 0} → BoundExpr F → Bool
unfolding bindings
contains_binding e = elim (bindings e) [ [] ↦ is_function e | ◌∷◌ b bs ↦ true ]

-- the end of fold_expression, on the expression with its operands folded
unfoldable pub fold_rewritten : {F : Type 0} → Floats F → BoundExpr F → Result (BoundExpr F)
unfolding contains_binding data_type_of
fold_rewritten floats e =
    if contains_binding e
    then ok e
    else do v ← evaluate floats e empty_row; ok (bound_literal v (data_type_of e) (is_null v))

unfoldable mutual
  unfolding fold_rewritten

  pub fold_expression : {F : Type 0} → Floats F → BoundExpr F → Result (BoundExpr F)
  fold_expression floats (bound_literal v t nullable) = ok (bound_literal v t nullable)
  fold_expression floats (bound_column b name t nullable) = ok (bound_column b name t nullable)
  fold_expression floats (bound_cast e t nullable) = do
    e' ← fold_expression floats e
    fold_rewritten floats (bound_cast e' t nullable)
  fold_expression floats (bound_unary op e t nullable) = do
    e' ← fold_expression floats e
    fold_rewritten floats (bound_unary op e' t nullable)
  fold_expression floats (bound_binary e op f t nullable) = do
    e' ← fold_expression floats e
    f' ← fold_expression floats f
    fold_rewritten floats (bound_binary e' op f' t nullable)
  fold_expression floats (bound_is_null e is_not) = do
    e' ← fold_expression floats e
    fold_rewritten floats (bound_is_null e' is_not)
  fold_expression floats (bound_function name args is_star t nullable) = do
    args' ← fold_arguments floats args
    ok (bound_function name args' is_star t nullable)

  pub fold_arguments : {F : Type 0} → Floats F → BoundArguments F → Result (BoundArguments F)
  fold_arguments floats no_arguments = ok no_arguments
  fold_arguments floats (argument e args) = do
    e' ← fold_expression floats e
    args' ← fold_arguments floats args
    ok (argument e' args')
