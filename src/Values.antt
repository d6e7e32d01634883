-- ===== src/Values.antt =====
-- types.py: the scalars, the checks of their types, SQL's three-valued logic and comparison. The
-- floating-point numbers are a type F with the operations that the code uses.
pub mod Expressions
use mini_postgres.Base.{
  ℕ, ◌^◌, Bool, true, false, not, ◌&&◌, ◌||◌, Option, none, some, List, [], ◌∷◌, ltb, nat_beq,
  if◌then◌else◌, Result, ok, err, ◌>>=◌, type_mismatch, numeric_overflow, ℤ, pos, negsuc, ltb_ℤ,
  leb_ℤ, beq_ℤ,
}

-- Python's float: float(n), -x, the four operations, the three comparisons, and n / m on
-- integers.
pub record Floats (F : Type 0) : Type 0 where
  pub of_int : ℤ → F
  pub neg : F → F
  pub plus : F → F → F
  pub minus : F → F → F
  pub times : F → F → F
  pub divide : F → F → F
  pub divide_int : ℤ → ℤ → F
  pub equal : F → F → Bool
  pub less : F → F → Bool
  pub less_equal : F → F → Bool

pub data DataType : Type 0 where
  int64_type float64_type boolean_type text_type : DataType

-- A text is the list of its code points.
pub data Scalar (F : Type 0) : Type 0 where
  null : Scalar F
  integer : ℤ → Scalar F
  float : F → Scalar F
  boolean : Bool → Scalar F
  text : List ℕ → Scalar F

pub data ComparisonOperator : Type 0 where
  eq ne ltgt lt le gt ge : ComparisonOperator

abbrev pub same_type : DataType → DataType → Bool
same_type int64_type int64_type = true
same_type float64_type float64_type = true
same_type boolean_type boolean_type = true
same_type text_type text_type = true
same_type _ _ = false

abbrev pub is_numeric : DataType → Bool
is_numeric int64_type = true
is_numeric float64_type = true
is_numeric _ = false

-- str.__lt__ and str.__eq__, by code points
unfoldable pub text_less : List ℕ → List ℕ → Bool
text_less xs [] = false
text_less [] (y ∷ ys) = true
text_less (x ∷ xs) (y ∷ ys) = ltb x y || nat_beq x y && text_less xs ys

unfoldable pub text_equal : List ℕ → List ℕ → Bool
text_equal [] [] = true
text_equal [] (y ∷ ys) = false
text_equal (x ∷ xs) [] = false
text_equal (x ∷ xs) (y ∷ ys) = nat_beq x y && text_equal xs ys

unfoldable pub bool_less : Bool → Bool → Bool
bool_less a b = not a && b

unfoldable pub bool_equal : Bool → Bool → Bool
bool_equal a b = if a then b else not b

unfoldable pub validate_int64 : ℤ → Result ℤ
validate_int64 (pos n) = if ltb n (2 ^ 63) then ok (pos n) else err numeric_overflow
validate_int64 (negsuc n) = if ltb n (2 ^ 63) then ok (negsuc n) else err numeric_overflow

-- the last lines of compare_values, on values with Python's ==, < and <=
unfoldable pub compare_by {ℓ} :
    {A : Type ℓ}
    → (A → A → Bool)
    → (A → A → Bool)
    → (A → A → Bool)
    → ComparisonOperator
    → A
    → A
    → Bool
compare_by equal less less_equal eq a b = equal a b
compare_by equal less less_equal ne a b = not (equal a b)
compare_by equal less less_equal ltgt a b = not (equal a b)
compare_by equal less less_equal lt a b = less a b
compare_by equal less less_equal le a b = less_equal a b
compare_by equal less less_equal gt a b = less b a
compare_by equal less less_equal ge a b = less_equal b a

module _ {F : Type 0} where
  unfoldable pub infer_type : Scalar F → Option DataType
  infer_type null = none
  infer_type (boolean b) = some boolean_type
  infer_type (integer n) = some int64_type
  infer_type (float x) = some float64_type
  infer_type (text s) = some text_type

  unfoldable pub validate_scalar : Scalar F → DataType → Bool → Result (Scalar F)
  unfolding validate_int64
  validate_scalar null t nullable = if nullable then ok null else err type_mismatch
  validate_scalar (integer n) int64_type nullable = do m ← validate_int64 n; ok (integer m)
  validate_scalar (float x) float64_type nullable = ok (float x)
  validate_scalar (boolean b) boolean_type nullable = ok (boolean b)
  validate_scalar (text s) text_type nullable = ok (text s)
  validate_scalar _ t nullable = err type_mismatch

  -- _require_sql_bool
  unfoldable pub sql_bool : Scalar F → Result (Option Bool)
  sql_bool null = ok none
  sql_bool (boolean b) = ok (some b)
  sql_bool _ = err type_mismatch

  abbrev pub of_sql_bool : Option Bool → Scalar F
  of_sql_bool none = null
  of_sql_bool (some b) = boolean b

unfoldable pub not_sql : Option Bool → Option Bool
not_sql none = none
not_sql (some b) = some (not b)

unfoldable pub and_sql : Option Bool → Option Bool → Option Bool
and_sql (some false) b = some false
and_sql a (some false) = some false
and_sql none b = none
and_sql a none = none
and_sql (some true) (some true) = some true

unfoldable pub or_sql : Option Bool → Option Bool → Option Bool
or_sql (some true) b = some true
or_sql a (some true) = some true
or_sql none b = none
or_sql a none = none
or_sql (some false) (some false) = some false

module _ {F : Type 0} where
  unfoldable pub sql_not : Scalar F → Result (Scalar F)
  unfolding sql_bool not_sql
  sql_not v = do b ← sql_bool v; ok (of_sql_bool (not_sql b))

  unfoldable pub sql_and : Scalar F → Scalar F → Result (Scalar F)
  unfolding sql_bool and_sql
  sql_and v w = do a ← sql_bool v; b ← sql_bool w; ok (of_sql_bool (and_sql a b))

  unfoldable pub sql_or : Scalar F → Scalar F → Result (Scalar F)
  unfolding sql_bool or_sql
  sql_or v w = do a ← sql_bool v; b ← sql_bool w; ok (of_sql_bool (or_sql a b))

module _ {F : Type 0} (floats : Floats F) where
  open floats use {of_int, equal, less, less_equal}

  abbrev pub compare_floats : ComparisonOperator → F → F → Scalar F
  compare_floats op x y = boolean (compare_by equal less less_equal op x y)

  -- compare_values with an operator that it knows, widen_numeric_pair in it
  unfoldable pub compare_values : ComparisonOperator → Scalar F → Scalar F → Result (Scalar F)
  unfolding compare_by validate_int64 text_less text_equal bool_less bool_equal
  compare_values op null w = ok null
  compare_values op v null = ok null
  compare_values op (integer n) (integer m) = do
    a ← validate_int64 n
    b ← validate_int64 m
    ok (boolean (compare_by beq_ℤ ltb_ℤ leb_ℤ op a b))
  compare_values op (integer n) (float y) = ok (compare_floats op (of_int n) y)
  compare_values op (float x) (integer m) = ok (compare_floats op x (of_int m))
  compare_values op (float x) (float y) = ok (compare_floats op x y)
  compare_values op (boolean a) (boolean b) =
      ok (boolean (compare_by bool_equal bool_less (λ x y. not (bool_less y x)) op a b))
  compare_values op (text s) (text t) =
      ok (boolean (compare_by text_equal text_less (λ x y. not (text_less y x)) op s t))
  compare_values op v w = err type_mismatch
