-- ===== src/Values/Expressions.antt =====
-- sql/bound.py's expressions and executor/expressions.py, which evaluates them on a row.
pub mod Typing
pub mod Shapes
pub mod Soundness
use mini_postgres.Base.{
  ℕ, ◌/◌, Bool, true, false, not, ◌&&◌, ◌||◌, Option, none, some, List, [], ◌∷◌, nat_beq,
  if◌then◌else◌, Result, ok, err, ◌>>=◌, type_mismatch, type_error, ℤ, pos, negsuc, beq_ℤ,
  is_negative, abs, ◌+ℤ◌, ◌-ℤ◌, ◌*ℤ◌,
}
use mini_postgres.Values.{
  Floats, DataType, int64_type, float64_type, Scalar, null, integer, float, boolean, text,
  ComparisonOperator, validate_int64, sql_not, sql_and, sql_or, compare_values,
}

pub record ColumnBinding : Type 0 where
  pub table_id : ℕ
  pub column_id : ℕ

pub data UnaryOperator : Type 0 where
  op_not op_plus op_minus : UnaryOperator

pub data ArithmeticOperator : Type 0 where
  add subtract multiply divide : ArithmeticOperator

pub data BinaryOperator : Type 0 where
  op_and op_or : BinaryOperator
  comparison : ComparisonOperator → BinaryOperator
  arithmetic : ArithmeticOperator → BinaryOperator

-- BoundExpr's classes. The last two fields of each are data_type and nullable; BoundIsNull's are
-- always BOOLEAN and False. A name is the list of its code points.
mutual
  pub data BoundExpr (F : Type 0) : Type 0 where
    bound_literal : Scalar F → Option DataType → Bool → BoundExpr F
    bound_column : ColumnBinding → List ℕ → DataType → Bool → BoundExpr F
    bound_cast : BoundExpr F → DataType → Bool → BoundExpr F
    bound_unary : UnaryOperator → BoundExpr F → DataType → Bool → BoundExpr F
    bound_binary : BoundExpr F → BinaryOperator → BoundExpr F → DataType → Bool → BoundExpr F
    bound_is_null : BoundExpr F → Bool → BoundExpr F
    bound_function : List ℕ → BoundArguments F → Bool → DataType → Bool → BoundExpr F

  pub data BoundArguments (F : Type 0) : Type 0 where
    no_arguments : BoundArguments F
    argument : BoundExpr F → BoundArguments F → BoundArguments F

-- ExecutionRow's dicts of cells and of computed values, which this code only looks up
pub record ExecutionRow (F : Type 0) : Type 0 where
  pub cells : ColumnBinding → Option (Scalar F)
  pub computed : BoundExpr F → Option (Scalar F)

-- An operand of Python's arithmetic. A bool is an int there.
pub data Number (F : Type 0) : Type 0 where
  int_number : ℤ → Number F
  float_number : F → Number F

module _ {F : Type 0} where
  abbrev pub is_null : Scalar F → Bool
  is_null null = true
  is_null _ = false

  -- A text, or a None, is an operand that the binder never leaves to arithmetic: it is a TypeError
  -- here, as it is there but for `+` on two texts and `*` on a text and an int.
  unfoldable pub number : Scalar F → Result (Number F)
  number null = err type_error
  number (integer n) = ok (int_number n)
  number (float x) = ok (float_number x)
  number (boolean b) = ok (int_number (if b then pos 1 else pos 0))
  number (text s) = err type_error

  -- the check of an INT64 result
  unfoldable pub int64_result : Number F → Result (Scalar F)
  unfolding validate_int64
  int64_result (int_number n) = do m ← validate_int64 n; ok (integer m)
  int64_result (float_number x) = err type_mismatch

-- abs(n) // abs(m), with the sign of the quotient
unfoldable pub divide_towards_zero : ℤ → ℤ → ℤ
divide_towards_zero n m =
    let magnitude = pos (abs n / abs m) in
    if is_negative n
    then if is_negative m then magnitude else pos 0 -ℤ magnitude
    else if is_negative m
    then pos 0 -ℤ magnitude
    else magnitude

module _ {F : Type 0} (floats : Floats F) where
  open floats use {of_int, neg, plus, minus, times, divide_int, equal}

  abbrev pub as_float : Number F → F
  as_float (int_number n) = of_int n
  as_float (float_number x) = x

  -- right == 0
  unfoldable pub is_zero : Number F → Bool
  is_zero (int_number n) = beq_ℤ n (pos 0)
  is_zero (float_number x) = equal x (of_int (pos 0))

  unfoldable pub number_with : (ℤ → ℤ → ℤ) → (F → F → F) → Number F → Number F → Number F
  number_with f g (int_number n) (int_number m) = int_number (f n m)
  number_with f g x y = float_number (g (as_float x) (as_float y))

  -- the `/` of _binary, on operands of which the second is not zero
  unfoldable pub quotient : DataType → Number F → Number F → Number F
  unfolding divide_towards_zero
  quotient int64_type (int_number n) (int_number m) = int_number (divide_towards_zero n m)
  quotient t (int_number n) (int_number m) = float_number (divide_int n m)
  quotient t x y = float_number (floats.divide (as_float x) (as_float y))

  unfoldable pub operate : ArithmeticOperator → DataType → Number F → Number F → Result (Number F)
  unfolding number_with is_zero quotient
  operate add t x y = ok (number_with ◌+ℤ◌ plus x y)
  operate subtract t x y = ok (number_with ◌-ℤ◌ minus x y)
  operate multiply t x y = ok (number_with ◌*ℤ◌ times x y)
  operate divide t x y = if is_zero y then err type_mismatch else ok (quotient t x y)

  -- the end of _binary
  unfoldable pub as_result : DataType → Number F → Result (Scalar F)
  unfolding int64_result
  as_result int64_type x = int64_result x
  as_result t x = ok (float (as_float x))

  -- _binary on the operands' values, for an arithmetic operator
  unfoldable pub arithmetic_values :
      ArithmeticOperator → DataType → Scalar F → Scalar F → Result (Scalar F)
  unfolding number operate as_result
  arithmetic_values op t null w = ok null
  arithmetic_values op t v null = ok null
  arithmetic_values op t v w = do x ← number v; y ← number w; r ← operate op t x y; as_result t r

  unfoldable pub binary_values : BinaryOperator → DataType → Scalar F → Scalar F → Result (Scalar F)
  unfolding sql_and sql_or compare_values arithmetic_values
  binary_values op_and t v w = sql_and v w
  binary_values op_or t v w = sql_or v w
  binary_values (comparison op) t v w = compare_values floats op v w
  binary_values (arithmetic op) t v w = arithmetic_values op t v w

  unfoldable pub negated : DataType → Number F → Result (Scalar F)
  unfolding int64_result
  negated int64_type (int_number n) = int64_result (int_number (pos 0 -ℤ n))
  negated int64_type (float_number x) = err type_mismatch
  negated t (int_number n) = ok (integer (pos 0 -ℤ n))
  negated t (float_number x) = ok (float (neg x))

  -- _unary on the operand's value
  unfoldable pub unary_value : UnaryOperator → DataType → Scalar F → Result (Scalar F)
  unfolding sql_not number negated
  unary_value op_not t v = sql_not v
  unary_value op t null = ok null
  unary_value op_plus t v = ok v
  unary_value op_minus t v = do x ← number v; negated t x

  -- float(value) of a cast. A text, which the binder never casts, is refused.
  unfoldable pub cast_value : DataType → Scalar F → Result (Scalar F)
  unfolding number
  cast_value t null = ok null
  cast_value float64_type v = do x ← number v; ok (float (as_float x))
  cast_value t v = err type_mismatch

  unfoldable pub evaluate : BoundExpr F → ExecutionRow F → Result (Scalar F)
  unfolding binary_values unary_value cast_value
  evaluate (bound_literal v t nullable) row = elim (row.computed (bound_literal v t nullable)) [
    | some w ↦ ok w
    | none ↦ ok v
  ]
  evaluate (bound_column b name t nullable) row =
      elim (row.computed (bound_column b name t nullable)) [
        | some w ↦ ok w
        | none ↦ elim (row.cells b) [ some v ↦ ok v | none ↦ err type_mismatch ]
      ]
  evaluate (bound_cast e t nullable) row = elim (row.computed (bound_cast e t nullable)) [
    | some w ↦ ok w
    | none ↦ do v ← evaluate e row; cast_value t v
  ]
  evaluate (bound_unary op e t nullable) row = elim (row.computed (bound_unary op e t nullable)) [
    | some w ↦ ok w
    | none ↦ do v ← evaluate e row; unary_value op t v
  ]
  evaluate (bound_binary e op f t nullable) row =
      elim (row.computed (bound_binary e op f t nullable)) [
        | some u ↦ ok u
        | none ↦ do v ← evaluate e row; w ← evaluate f row; binary_values op t v w
      ]
  evaluate (bound_is_null e is_not) row = elim (row.computed (bound_is_null e is_not)) [
    | some w ↦ ok w
    | none ↦ do v ← evaluate e row; ok (boolean (if is_not then not (is_null v) else is_null v))
  ]
  evaluate (bound_function name args star t nullable) row =
      elim (row.computed (bound_function name args star t nullable)) [
        | some w ↦ ok w
        | none ↦ err type_mismatch
      ]
