-- ===== src/Examples/Values.antt =====
-- Expressions and their evaluation at concrete inputs. The floats of the examples are integers.
use mini_postgres.Base.{
  ◌≡◌, refl, true, false, none, some, [], ◌∷◌, ok, ℤ, pos, negsuc, ◌+ℤ◌, ◌-ℤ◌, ◌*ℤ◌, beq_ℤ, ltb_ℤ,
  leb_ℤ, arith, sub_ℕ, abs,
}
use mini_postgres.Values.{Floats, int64_type, integer, validate_int64}
use mini_postgres.Values.Expressions.{
  ColumnBinding, arithmetic, divide, BoundExpr, bound_literal, bound_column, bound_binary,
  ExecutionRow, evaluate, divide_towards_zero, binary_values, arithmetic_values, number, operate,
  is_zero, quotient, as_result, int64_result,
}
use mini_postgres.Values.Expressions.Typing.{
  is_int64, fits, delivers, nullable_of, Schema, Typed, typed_literal, typed_column,
  typed_arithmetic, Conforms,
}
use mini_postgres.Values.Expressions.Soundness.{evaluate-delivers}
use mini_postgres.Values.{float64_type, float, text_equal, infer_type}
use mini_postgres.Values.Expressions.{bound_cast, add}
use mini_postgres.Base.{List, none, ◌∷◌, []}
use mini_postgres.Sql.Syntax.{
  Name, Column, ScopeEntry, Expr, literal, column_ref, binary_expr, resolve_column, only_match,
  entries_of, matches, find_column,
}
use mini_postgres.Sql.Binder.{
  bind_expression, literal_of, binary_of, numeric_pair, require_numeric, widen_pair, coerce,
  coerce_typed, data_type_of,
}
use mini_postgres.Sql.Binder.Columns.{InScope}
use mini_postgres.Sql.Binder.Typing.{bind_expression-WellTyped}
use mini_postgres.Sql.Binder.Soundness.{bind_expression-delivers}

abbrev pub whole : Floats ℤ
whole = record {
  of_int = λ n. n;
  neg = λ n. pos 0 -ℤ n;
  plus = ◌+ℤ◌;
  minus = ◌-ℤ◌;
  times = ◌*ℤ◌;
  divide = λ n m. divide_towards_zero n m;
  divide_int = λ n m. divide_towards_zero n m;
  equal = λ n m. beq_ℤ n m;
  less = λ n m. ltb_ℤ n m;
  less_equal = λ n m. leb_ℤ n m;
}

abbrev schema : Schema
schema b = (int64_type, true)

abbrev pub row : ExecutionRow ℤ
row = record { cells = λ b. some (integer (negsuc 6)); computed = λ e. none }

row-Conforms : Conforms schema row
unfolding fits is_int64
row-Conforms = record { cells_fit = λ b v h. ground arith; computed_fit = λ e t v d h. cc }

abbrev binding : ColumnBinding
binding = record { table_id = 1; column_id = 0 }

-- a / 2
abbrev pub half : BoundExpr ℤ
half =
    bound_binary (bound_column binding (97 ∷ []) int64_type true) (arithmetic divide)
      (bound_literal (integer (pos 2)) (some int64_type) false) int64_type true

half-Typed : Typed schema half (some int64_type)
unfolding nullable_of fits is_int64
half-Typed =
    typed_arithmetic divide _ _ int64_type refl
      (typed_column binding (97 ∷ []) int64_type true refl)
      (typed_literal (integer (pos 2)) (some int64_type) false refl)

evaluate-delivers_example :
    delivers (evaluate whole half row) (some int64_type) (nullable_of half) ≡ true
evaluate-delivers_example =
    evaluate-delivers whole schema row row-Conforms half (some int64_type) half-Typed

-- -7 / 2 is -3.
half_of_row : evaluate whole half row ≡ ok (integer (negsuc 2))
unfolding evaluate binary_values arithmetic_values number operate is_zero quotient
    divide_towards_zero as_result int64_result validate_int64 ◌-ℤ◌ abs sub_ℕ
half_of_row = refl

abbrev pub column_a : Column
column_a = record { name = 97 ∷ []; data_type = int64_type; nullable = true; column_id = 0 }

abbrev scope : List ScopeEntry
scope = (record { table_id = 1; columns = column_a ∷ []; visible_names = (116 ∷ []) ∷ [] }) ∷ []

abbrev same_name : Name → Name
same_name n = n

-- a + 2.0, with the float 2
abbrev sum : Expr ℤ
sum = binary_expr (column_ref (97 ∷ []) none) (arithmetic add) (literal (float (pos 2)))

abbrev bound_sum : BoundExpr ℤ
bound_sum =
    bound_binary (bound_cast (bound_column binding (97 ∷ []) int64_type true) float64_type true)
      (arithmetic add) (bound_literal (float (pos 2)) (some float64_type) false) float64_type true

binds_sum : bind_expression same_name same_name scope false false sum ≡ ok bound_sum
unfolding bind_expression literal_of infer_type resolve_column only_match entries_of matches
    find_column text_equal binary_of numeric_pair require_numeric widen_pair coerce coerce_typed
    data_type_of nullable_of
binds_sum = refl

scope-InScope : InScope schema scope
scope-InScope = ((refl, tt), tt)

bind_expression-WellTyped_example : Typed schema bound_sum (data_type_of bound_sum)
bind_expression-WellTyped_example =
    bind_expression-WellTyped same_name same_name scope schema scope-InScope false false sum
      bound_sum binds_sum

bind_expression-delivers_example :
    delivers (evaluate whole bound_sum row) (data_type_of bound_sum) (nullable_of bound_sum) ≡ true
bind_expression-delivers_example =
    bind_expression-delivers whole same_name same_name scope schema row false false sum bound_sum
      scope-InScope row-Conforms binds_sum
