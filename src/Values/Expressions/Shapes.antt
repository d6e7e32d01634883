-- ===== src/Values/Expressions/Shapes.antt =====
-- The values of a data type.
use mini_postgres.Base.{◌≡◌, ℕ, ℤ, Bool, true, some, List}
use mini_postgres.Values.{
  DataType, int64_type, float64_type, boolean_type, text_type, Scalar, null, integer, float,
  boolean, text,
}
use mini_postgres.Values.Expressions.Typing.{fits, is_int64}

module _ {F : Type 0} where
  pub data Shape : DataType → Scalar F → Type 0 where
    null_shape : (t : DataType) → Shape t null
    integer_shape : (n : ℤ) → is_int64 n ≡ true → Shape int64_type (integer n)
    float_shape : (x : F) → Shape float64_type (float x)
    boolean_shape : (b : Bool) → Shape boolean_type (boolean b)
    text_shape : (s : List ℕ) → Shape text_type (text s)

  pub shape : (t : DataType) (v : Scalar F) → fits v (some t) true ≡ true → Shape t v
  unfolding fits
  shape t null h = null_shape t
  shape int64_type (integer n) h = integer_shape n h
  shape int64_type (float x) h = absurd (cc)
  shape int64_type (boolean b) h = absurd (cc)
  shape int64_type (text s) h = absurd (cc)
  shape float64_type (integer n) h = absurd (cc)
  shape float64_type (float x) h = float_shape x
  shape float64_type (boolean b) h = absurd (cc)
  shape float64_type (text s) h = absurd (cc)
  shape boolean_type (integer n) h = absurd (cc)
  shape boolean_type (float x) h = absurd (cc)
  shape boolean_type (boolean b) h = boolean_shape b
  shape boolean_type (text s) h = absurd (cc)
  shape text_type (integer n) h = absurd (cc)
  shape text_type (float x) h = absurd (cc)
  shape text_type (boolean b) h = absurd (cc)
  shape text_type (text s) h = text_shape s
