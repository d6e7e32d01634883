-- ===== src/Executor/Tables/Validation.antt =====
-- Schema.validate_row returns the tuple that it is given, if it returns.
use mini_postgres.Base.{
  ◌≡◌, ◌∙◌, ap, ℤ, pos, negsuc, Bool, true, false, List, [], ◌∷◌, ok, >>=-eq-ok, ok_injective,
  length, arith, Result-cases, inl, inr,
}
use mathlib.Core.Path.{ap₂}
use mini_postgres.Values.{
  Scalar, null, integer, float, boolean, text, DataType, int64_type, float64_type, boolean_type,
  text_type, validate_int64, validate_scalar,
}
use mini_postgres.Sql.Syntax.{Column}
use mini_postgres.Executor.Tables.{Tuple, validate_columns, validate_row}

validate_int64-eq : (n m : ℤ) → validate_int64 n ≡ ok m → n ≡ m
unfolding validate_int64
validate_int64-eq (pos n) m h = ground arith
validate_int64-eq (negsuc n) m h = ground arith

module _ {F : Type 0} where
  validate_scalar-eq :
      (v w : Scalar F) (t : DataType) (nullable : Bool)
      → validate_scalar v t nullable ≡ ok w
      → v ≡ w
  unfolding validate_scalar
  validate_scalar-eq null w t true h = ok_injective h
  validate_scalar-eq null w t false h = absurd (cc)
  validate_scalar-eq (integer n) w int64_type b h =
      let (m, e, h') = >>=-eq-ok (validate_int64 n) _ h in
      ap integer (validate_int64-eq n m e) ∙ ok_injective h'
  validate_scalar-eq (integer n) w float64_type b h = absurd (cc)
  validate_scalar-eq (integer n) w boolean_type b h = absurd (cc)
  validate_scalar-eq (integer n) w text_type b h = absurd (cc)
  validate_scalar-eq (float x) w float64_type b h = ok_injective h
  validate_scalar-eq (float x) w int64_type b h = absurd (cc)
  validate_scalar-eq (float x) w boolean_type b h = absurd (cc)
  validate_scalar-eq (float x) w text_type b h = absurd (cc)
  validate_scalar-eq (boolean x) w boolean_type b h = ok_injective h
  validate_scalar-eq (boolean x) w int64_type b h = absurd (cc)
  validate_scalar-eq (boolean x) w float64_type b h = absurd (cc)
  validate_scalar-eq (boolean x) w text_type b h = absurd (cc)
  validate_scalar-eq (text x) w text_type b h = ok_injective h
  validate_scalar-eq (text x) w int64_type b h = absurd (cc)
  validate_scalar-eq (text x) w float64_type b h = absurd (cc)
  validate_scalar-eq (text x) w boolean_type b h = absurd (cc)

  validate_columns-eq :
      (cs : List Column) (vs ws : Tuple F)
      → length vs ≡ length cs
      → validate_columns cs vs ≡ ok ws
      → vs ≡ ws
  unfolding validate_columns
  validate_columns-eq [] [] ws l h = ok_injective h
  validate_columns-eq [] (v ∷ vs) ws l h = absurd (omega (arith, l))
  validate_columns-eq (c ∷ cs) [] ws l h = absurd (omega (arith, l))
  validate_columns-eq (c ∷ cs) (v ∷ vs) ws l h =
      elim (Result-cases (validate_scalar v c.data_type c.nullable)) [
        | inl (w, e) ↦
            let (us, e', h') =
              >>=-eq-ok (validate_columns cs vs) _ (rw (validate_columns, e) at h) in
            ap₂ ◌∷◌ (validate_scalar-eq v w c.data_type c.nullable e)
              (validate_columns-eq cs vs us (omega (arith, l)) e')
            ∙ ok_injective h'
        | inr (x, e) ↦ let h' = rw (validate_columns, e) at h in absurd (cc)
      ]

  pub validate_row-eq : (cs : List Column) (vs ws : Tuple F) → validate_row cs vs ≡ ok ws → vs ≡ ws
  unfolding validate_row
  validate_row-eq cs vs ws h =
      let l : length vs ≡ length cs = ground arith in
      let h' : validate_columns cs vs ≡ ok ws = ground arith in validate_columns-eq cs vs ws l h'

  pub length-validate_row :
      (cs : List Column) (vs ws : Tuple F) → validate_row cs vs ≡ ok ws → length vs ≡ length cs
  unfolding validate_row
  length-validate_row cs vs ws h = ground arith
