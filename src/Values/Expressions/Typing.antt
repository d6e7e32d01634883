-- ===== src/Values/Expressions/Typing.antt =====
-- Well-typed expressions and the values that they may have.
use mini_postgres.Base.{
  ◌≡◌, ◌^◌, Bool, true, false, ◌||◌, Option, some, ltb, Result, ok, err, List, ℕ, type_mismatch,
  numeric_overflow, ℤ, pos, negsuc,
}
use mini_postgres.Values.{
  DataType, int64_type, float64_type, boolean_type, text_type, is_numeric, Scalar, null, integer,
  float, boolean, text, ComparisonOperator,
}
use mini_postgres.Values.Expressions.{
  ColumnBinding, op_not, op_plus, op_minus, ArithmeticOperator, op_and, op_or, comparison,
  arithmetic, BoundExpr, bound_literal, bound_column, bound_cast, bound_unary, bound_binary,
  bound_is_null, bound_function, BoundArguments, ExecutionRow,
}

-- A signed 64-bit integer.
unfoldable pub is_int64 : ℤ → Bool
is_int64 (pos n) = ltb n (2 ^ 63)
is_int64 (negsuc n) = ltb n (2 ^ 63)

-- The columns' data types, and whether they may be null.
abbrev pub Schema : Type 0
Schema = ColumnBinding → DataType × Bool

module _ {F : Type 0} where
  -- A value of a column or expression with this data type, null if it may be. No data type is that
  -- of an untyped NULL.
  unfoldable pub fits : Scalar F → Option DataType → Bool → Bool
  unfolding is_int64
  fits null t nullable = nullable
  fits (integer n) (some int64_type) nullable = is_int64 n
  fits (float x) (some float64_type) nullable = true
  fits (boolean b) (some boolean_type) nullable = true
  fits (text s) (some text_type) nullable = true
  fits _ t nullable = false

  -- Such a value, or one of the two errors that SQL may raise while it evaluates.
  unfoldable pub delivers : Result (Scalar F) → Option DataType → Bool → Bool
  unfolding fits
  delivers (ok v) t nullable = fits v t nullable
  delivers (err type_mismatch) t nullable = true
  delivers (err numeric_overflow) t nullable = true
  delivers (err _) t nullable = false

  unfoldable pub nullable_of : BoundExpr F → Bool
  nullable_of (bound_literal v t nullable) = nullable
  nullable_of (bound_column b name t nullable) = nullable
  nullable_of (bound_cast e t nullable) = nullable
  nullable_of (bound_unary op e t nullable) = nullable
  nullable_of (bound_binary e op f t nullable) = nullable
  nullable_of (bound_is_null e is_not) = false
  nullable_of (bound_function name args star t nullable) = nullable

  -- What the binder makes sure of, of an expression and its data type.
  pub data Typed (columns : Schema) : BoundExpr F → Option DataType → Type 0 where
    typed_literal :
        (v : Scalar F) (t : Option DataType) (nullable : Bool)
        → fits v t nullable ≡ true
        → Typed columns (bound_literal v t nullable) t
    typed_column :
        (b : ColumnBinding) (name : List ℕ) (t : DataType) (nullable : Bool)
        → columns b ≡ (t, nullable)
        → Typed columns (bound_column b name t nullable) (some t)
    typed_cast :
        (e : BoundExpr F)
        → Typed columns e (some int64_type)
        → Typed columns (bound_cast e float64_type (nullable_of e)) (some float64_type)
    typed_not :
        (e : BoundExpr F)
        → Typed columns e (some boolean_type)
        → Typed columns (bound_unary op_not e boolean_type (nullable_of e)) (some boolean_type)
    typed_plus :
        (e : BoundExpr F) (t : DataType)
        → is_numeric t ≡ true
        → Typed columns e (some t)
        → Typed columns (bound_unary op_plus e t (nullable_of e)) (some t)
    typed_minus :
        (e : BoundExpr F) (t : DataType)
        → is_numeric t ≡ true
        → Typed columns e (some t)
        → Typed columns (bound_unary op_minus e t (nullable_of e)) (some t)
    typed_and :
        (e f : BoundExpr F)
        → Typed columns e (some boolean_type)
        → Typed columns f (some boolean_type)
        → Typed columns
            (bound_binary e op_and f boolean_type (nullable_of e || nullable_of f))
            (some boolean_type)
    typed_or :
        (e f : BoundExpr F)
        → Typed columns e (some boolean_type)
        → Typed columns f (some boolean_type)
        → Typed columns
            (bound_binary e op_or f boolean_type (nullable_of e || nullable_of f))
            (some boolean_type)
    typed_arithmetic :
        (op : ArithmeticOperator) (e f : BoundExpr F) (t : DataType)
        → is_numeric t ≡ true
        → Typed columns e (some t)
        → Typed columns f (some t)
        → Typed columns
            (bound_binary e (arithmetic op) f t (nullable_of e || nullable_of f))
            (some t)
    typed_comparison :
        (op : ComparisonOperator) (e f : BoundExpr F) (t : Option DataType)
        → Typed columns e t
        → Typed columns f t
        → Typed columns
            (bound_binary e (comparison op) f boolean_type (nullable_of e || nullable_of f))
            (some boolean_type)
    typed_is_null :
        (e : BoundExpr F) (is_not : Bool) (t : Option DataType)
        → Typed columns e t
        → Typed columns (bound_is_null e is_not) (some boolean_type)
    typed_function :
        (name : List ℕ) (args : BoundArguments F) (star : Bool) (t : DataType) (nullable : Bool)
        → Typed columns (bound_function name args star t nullable) (some t)

  -- The cells of a row, and its computed values, are of their data types.
  pub record Conforms (columns : Schema) (row : ExecutionRow F) : Type 0 where
    pub cells_fit :
        (b : ColumnBinding) (v : Scalar F)
        → row.cells b ≡ some v
        → fits v (some (columns b).0) (columns b).1 ≡ true
    pub computed_fit :
        (e : BoundExpr F) (t : Option DataType) (v : Scalar F)
        → Typed columns e t
        → row.computed e ≡ some v
        → fits v t (nullable_of e) ≡ true
