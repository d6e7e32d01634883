-- ===== src/Values/Expressions/Soundness.antt =====
-- The evaluation of well-typed expressions.
use mini_postgres.Base.{
  ◌≡◌, refl, subst, inl, inr, Bool, true, false, ◌||◌, Option, none, some, Result, ok, err,
  type_mismatch, numeric_overflow, ℤ, pos, negsuc, ◌-ℤ◌, arith, ◌>>=◌, Bool-cases,
}
use mini_postgres.Values.{
  Floats, DataType, int64_type, float64_type, boolean_type, text_type, is_numeric, Scalar, null,
  integer, float, ComparisonOperator, validate_int64, sql_not, sql_and, sql_or, compare_values,
  sql_bool, not_sql, and_sql, or_sql,
}
use mini_postgres.Values.Expressions.{
  op_not, op_plus, op_minus, ArithmeticOperator, add, subtract, multiply, divide, op_and, op_or,
  comparison, arithmetic, BoundExpr, ExecutionRow, evaluate, Number, int_number, float_number,
  number, int64_result, is_zero, quotient, operate, as_result, arithmetic_values, binary_values,
  negated, unary_value, cast_value,
}
use mini_postgres.Values.Expressions.Typing.{
  is_int64, fits, delivers, nullable_of, Schema, Typed, Conforms, typed_literal, typed_column,
  typed_cast, typed_not, typed_plus, typed_minus, typed_and, typed_or, typed_arithmetic,
  typed_comparison, typed_is_null, typed_function,
}

pub validate-is_int64 : (n : ℤ) → is_int64 n ≡ true → validate_int64 n ≡ ok n
unfolding validate_int64 is_int64
validate-is_int64 (pos n) h = ground arith
validate-is_int64 (negsuc n) h = ground arith

module _ {F : Type 0} where
  int64_result-delivers :
      (x : Number F) (nullable : Bool) → delivers (int64_result x) (some int64_type) nullable ≡ true
  unfolding int64_result validate_int64 delivers fits is_int64
  int64_result-delivers (int_number (pos n)) nullable = ground arith
  int64_result-delivers (int_number (negsuc n)) nullable = ground arith
  int64_result-delivers (float_number x) nullable = refl

  -- The second of two steps delivers what the first lets it.
  delivers-bind :
      (r : Result (Scalar F)) (k : Scalar F → Result (Scalar F)) (t u : Option DataType)
      (n m : Bool)
      → delivers r t n ≡ true
      → ((v : Scalar F) → fits v t n ≡ true → delivers (k v) u m ≡ true)
      → delivers (r >>= k) u m ≡ true
  unfolding delivers
  delivers-bind (ok v) k t u n m h f = f v h
  delivers-bind (err type_mismatch) k t u n m h f = refl
  delivers-bind (err numeric_overflow) k t u n m h f = refl
  delivers-bind (err x) k t u n m h f = h

  not-delivers :
      (v : Scalar F) (n : Bool)
      → fits v (some boolean_type) n ≡ true
      → delivers (sql_not v) (some boolean_type) n ≡ true
  unfolding fits delivers sql_not sql_bool not_sql
  not-delivers v n h = ground arith

  and-delivers :
      (v w : Scalar F) (n m : Bool)
      → fits v (some boolean_type) n ≡ true
      → fits w (some boolean_type) m ≡ true
      → delivers (sql_and v w) (some boolean_type) (n || m) ≡ true
  unfolding fits delivers sql_and sql_bool and_sql
  and-delivers v w n m h k = ground arith

  or-delivers :
      (v w : Scalar F) (n m : Bool)
      → fits v (some boolean_type) n ≡ true
      → fits w (some boolean_type) m ≡ true
      → delivers (sql_or v w) (some boolean_type) (n || m) ≡ true
  unfolding fits delivers sql_or sql_bool or_sql
  or-delivers v w n m h k = ground arith

module _ {F : Type 0} (floats : Floats F) where
  comparison-delivers :
      (op : ComparisonOperator) (v w : Scalar F) (t : Option DataType) (n m : Bool)
      → fits v t n ≡ true
      → fits w t m ≡ true
      → delivers (compare_values floats op v w) (some boolean_type) (n || m) ≡ true
  unfolding fits delivers compare_values
  comparison-delivers op null w t n m h k = ground arith
  comparison-delivers op (integer i) null t n m h k = ground arith
  comparison-delivers op (integer i) (integer j) t n m h k =
      ground (arith, validate-is_int64 i, validate-is_int64 j)
  comparison-delivers op v w t n m h k = ground arith

  as_result-delivers :
      (x : Number F) (t : DataType) (n : Bool)
      → is_numeric t ≡ true
      → delivers (as_result floats t x) (some t) n ≡ true
  unfolding delivers as_result
  as_result-delivers x int64_type n h = int64_result-delivers x n
  as_result-delivers x float64_type n h = refl
  as_result-delivers x boolean_type n h = cc
  as_result-delivers x text_type n h = cc

  operate-delivers :
      (op : ArithmeticOperator) (x y : Number F) (t : DataType) (n : Bool)
      → is_numeric t ≡ true
      → delivers (operate floats op t x y >>= as_result floats t) (some t) n ≡ true
  unfolding operate delivers
  operate-delivers add x y t n h = as_result-delivers _ t n h
  operate-delivers subtract x y t n h = as_result-delivers _ t n h
  operate-delivers multiply x y t n h = as_result-delivers _ t n h
  operate-delivers divide x y t n h = elim (Bool-cases (is_zero floats y)) [
    | inl e ↦ rw e refl
    | inr e ↦ rw e (as_result-delivers (quotient floats t x y) t n h)
  ]

  arithmetic-delivers :
      (op : ArithmeticOperator) (v w : Scalar F) (t : DataType) (n m : Bool)
      → is_numeric t ≡ true
      → fits v (some t) n ≡ true
      → fits w (some t) m ≡ true
      → delivers (arithmetic_values floats op t v w) (some t) (n || m) ≡ true
  unfolding fits delivers arithmetic_values number
  arithmetic-delivers op null w t n m q h k = ground arith
  arithmetic-delivers op (integer i) (integer j) t n m q h k =
      operate-delivers op (int_number i) (int_number j) t (n || m) q
  arithmetic-delivers op (float x) (float y) t n m q h k =
      operate-delivers op (float_number x) (float_number y) t (n || m) q
  arithmetic-delivers op v w t n m q h k = ground arith

  minus-delivers :
      (v : Scalar F) (t : DataType) (n : Bool)
      → is_numeric t ≡ true
      → fits v (some t) n ≡ true
      → delivers (unary_value floats op_minus t v) (some t) n ≡ true
  unfolding fits delivers unary_value number negated
  minus-delivers null t n q h = h
  minus-delivers (integer k) int64_type n q h =
      int64_result-delivers {F = F} (int_number (pos 0 -ℤ k)) n
  minus-delivers (float x) float64_type n q h = refl
  minus-delivers v t n q h = ground arith

  plus-delivers :
      (v : Scalar F) (t : DataType) (n : Bool)
      → fits v (some t) n ≡ true
      → delivers (unary_value floats op_plus t v) (some t) n ≡ true
  unfolding fits delivers unary_value
  plus-delivers v t n h = ground arith

  cast-delivers :
      (v : Scalar F) (n : Bool)
      → fits v (some int64_type) n ≡ true
      → delivers (cast_value floats float64_type v) (some float64_type) n ≡ true
  unfolding fits delivers cast_value number
  cast-delivers v n h = ground arith

  -- Of a row's own value, or of the rest of the evaluation.
  computed-delivers :
      (o : Option (Scalar F)) (r : Result (Scalar F)) (t : Option DataType) (n : Bool)
      → ((v : Scalar F) → o ≡ some v → fits v t n ≡ true)
      → delivers r t n ≡ true
      → delivers (elim o [ some v ↦ ok v | none ↦ r ]) t n ≡ true
  unfolding delivers
  computed-delivers none r t n f h = h
  computed-delivers (some v) r t n f h = f v refl

  column-delivers :
      (o : Option (Scalar F)) (t : Option DataType) (n : Bool)
      → ((v : Scalar F) → o ≡ some v → fits v t n ≡ true)
      → delivers (elim o [ some v ↦ ok v | none ↦ err type_mismatch ]) t n ≡ true
  unfolding delivers
  column-delivers none t n f = refl
  column-delivers (some v) t n f = f v refl

  two-delivers :
      (r s : Result (Scalar F)) (k : Scalar F → Scalar F → Result (Scalar F))
      → (t u : Option DataType) (n m : Bool) → delivers r t n ≡ true
      → delivers s t m ≡ true
      → ((v w : Scalar F)
          → fits v t n ≡ true
          → fits w t m ≡ true
          → delivers (k v w) u (n || m) ≡ true)
      → delivers (r >>= λ v. s >>= k v) u (n || m) ≡ true
  two-delivers r s k t u n m h h' f =
      delivers-bind r _ t u n (n || m) h
        λ v p. delivers-bind s (k v) t u m (n || m) h' λ w q. f v w p q

  own-delivers :
      (columns : Schema) (row : ExecutionRow F)
      → Conforms columns row
      → (e : BoundExpr F) (t : Option DataType) (r : Result (Scalar F)) → Typed columns e t
      → delivers r t (nullable_of e) ≡ true
      → delivers (elim (row.computed e) [ some v ↦ ok v | none ↦ r ]) t (nullable_of e) ≡ true
  own-delivers columns row c e t r d h =
      computed-delivers (row.computed e) r t (nullable_of e) (λ v. c.computed_fit e t v d) h

  -- Evaluating a well-typed expression on a row of the schema returns a value of the expression's
  -- data type, which is an INT64 in its range and null only if the expression is nullable, or it
  -- raises TypeMismatch or NumericOverflow and nothing else.
  pub evaluate-delivers :
      (columns : Schema) (row : ExecutionRow F)
      → Conforms columns row
      → (e : BoundExpr F) (t : Option DataType) → Typed columns e t
      → delivers (evaluate floats e row) t (nullable_of e) ≡ true
  unfolding evaluate nullable_of delivers binary_values unary_value
  evaluate-delivers columns row c e t (typed_literal v t' n h) =
      own-delivers columns row c e t (ok v) (typed_literal v t' n h) h
  evaluate-delivers columns row c e t (typed_column b name t' n h) =
      own-delivers columns row c e t _ (typed_column b name t' n h) (
        column-delivers (row.cells b) t n
          (λ v h'. subst (λ q. fits v (some q.0) q.1 ≡ true) h (c.cells_fit b v h')))
  evaluate-delivers columns row c e t (typed_cast e' d) =
      own-delivers columns row c e t _ (typed_cast e' d) (
        delivers-bind (evaluate floats e' row) (cast_value floats float64_type) (some int64_type) t
          (nullable_of e') (nullable_of e') (evaluate-delivers columns row c e' (some int64_type) d)
          (λ v. cast-delivers v (nullable_of e')))
  evaluate-delivers columns row c e t (typed_not e' d) =
      own-delivers columns row c e t _ (typed_not e' d) (
        delivers-bind (evaluate floats e' row) (unary_value floats op_not boolean_type)
          (some boolean_type) t (nullable_of e') (nullable_of e')
          (evaluate-delivers columns row c e' (some boolean_type) d)
          (λ v. not-delivers v (nullable_of e')))
  evaluate-delivers columns row c e t (typed_plus e' t' q d) =
      own-delivers columns row c e t _ (typed_plus e' t' q d) (
        delivers-bind (evaluate floats e' row) (unary_value floats op_plus t') (some t') t
          (nullable_of e') (nullable_of e') (evaluate-delivers columns row c e' (some t') d)
          (λ v. plus-delivers v t' (nullable_of e')))
  evaluate-delivers columns row c e t (typed_minus e' t' q d) =
      own-delivers columns row c e t _ (typed_minus e' t' q d) (
        delivers-bind (evaluate floats e' row) (unary_value floats op_minus t') (some t') t
          (nullable_of e') (nullable_of e') (evaluate-delivers columns row c e' (some t') d)
          (λ v. minus-delivers v t' (nullable_of e') q))
  evaluate-delivers columns row c e t (typed_and e' f d d') =
      own-delivers columns row c e t _ (typed_and e' f d d') (
        two-delivers (evaluate floats e' row) (evaluate floats f row)
          (binary_values floats op_and boolean_type) (some boolean_type) t (nullable_of e')
          (nullable_of f) (evaluate-delivers columns row c e' (some boolean_type) d)
          (evaluate-delivers columns row c f (some boolean_type) d')
          (λ v w. and-delivers v w (nullable_of e') (nullable_of f)))
  evaluate-delivers columns row c e t (typed_or e' f d d') =
      own-delivers columns row c e t _ (typed_or e' f d d') (
        two-delivers (evaluate floats e' row) (evaluate floats f row)
          (binary_values floats op_or boolean_type) (some boolean_type) t (nullable_of e')
          (nullable_of f) (evaluate-delivers columns row c e' (some boolean_type) d)
          (evaluate-delivers columns row c f (some boolean_type) d')
          (λ v w. or-delivers v w (nullable_of e') (nullable_of f)))
  evaluate-delivers columns row c e t (typed_arithmetic op e' f t' q d d') =
      own-delivers columns row c e t _ (typed_arithmetic op e' f t' q d d') (
        two-delivers (evaluate floats e' row) (evaluate floats f row)
          (binary_values floats (arithmetic op) t') (some t') t (nullable_of e') (nullable_of f)
          (evaluate-delivers columns row c e' (some t') d)
          (evaluate-delivers columns row c f (some t') d')
          (λ v w. arithmetic-delivers op v w t' (nullable_of e') (nullable_of f) q))
  evaluate-delivers columns row c e t (typed_comparison op e' f t' d d') =
      own-delivers columns row c e t _ (typed_comparison op e' f t' d d') (
        two-delivers (evaluate floats e' row) (evaluate floats f row)
          (binary_values floats (comparison op) boolean_type) (t') t (nullable_of e')
          (nullable_of f) (evaluate-delivers columns row c e' (t') d)
          (evaluate-delivers columns row c f (t') d')
          (λ v w. comparison-delivers op v w t' (nullable_of e') (nullable_of f)))
  evaluate-delivers columns row c e t (typed_is_null e' is_not t' d) =
      own-delivers columns row c e t _ (typed_is_null e' is_not t' d) (
        delivers-bind (evaluate floats e' row) _ t' t (nullable_of e') false
          (evaluate-delivers columns row c e' t' d) (λ v h. refl))
  evaluate-delivers columns row c e t (typed_function name args star t' n) =
      own-delivers columns row c e t _ (typed_function name args star t' n) refl
