-- ===== src/Sql/Binder/Coercion.antt =====
-- The operands that the binder coerces to one data type.
use mini_postgres.Base.{
  ◌≡◌, refl, sym, ◌∙◌, ap, subst, ◌⊎◌, inl, inr, Bool, true, false, ◌||◌, Option, none, some,
  Result, ok, err, ◌>>=◌, >>=-eq-ok, ok_injective, arith, Bool-cases, Option-cases, Result-cases, ℤ,
  pos, negsuc,
}
use mini_postgres.Values.{
  DataType, int64_type, float64_type, boolean_type, is_numeric, Scalar, null, integer, float,
  boolean, text, infer_type, validate_int64, same_type,
}
use mini_postgres.Values.Expressions.{BoundExpr, bound_literal, bound_cast}
use mini_postgres.Values.Expressions.Typing.{
  is_int64, fits, nullable_of, Schema, Typed, typed_literal, typed_cast,
}
use mini_postgres.Sql.Binder.{
  data_type_of, require_numeric, require_boolean, coerce_null, coerce_typed, coerce, widen_pair,
  numeric_pair, comparable_typed, comparable_pair, literal_of,
}

same_type_eq : (t u : DataType) → same_type t u ≡ true → t ≡ u
same_type_eq t u h = ground arith

validate_int64-is_int64 : (n m : ℤ) → validate_int64 n ≡ ok m → is_int64 m ≡ true
unfolding validate_int64 is_int64
validate_int64-is_int64 (pos n) m h = ground arith
validate_int64-is_int64 (negsuc n) m h = ground arith

integers :
    (t u : DataType)
    → is_numeric t ≡ true
    → is_numeric u ≡ true
    → (same_type t float64_type || same_type u float64_type) ≡ false
    → (t ≡ int64_type) × (u ≡ int64_type)
integers t u h k n = ground arith

module _ {F : Type 0} (columns : Schema) where
  abbrev pub WellTyped : BoundExpr F → Type 0
  WellTyped b = Typed columns b (data_type_of b)

  pub literal_of-WellTyped : (v : Scalar F) (b : BoundExpr F) → literal_of v ≡ ok b → WellTyped b
  unfolding literal_of infer_type validate_int64 data_type_of fits is_int64
  literal_of-WellTyped null b h = subst WellTyped (ok_injective h) (typed_literal _ _ _ refl)
  literal_of-WellTyped (integer n) b h =
      let (m, e, e') = >>=-eq-ok (validate_int64 n) _ h in
      subst WellTyped (ok_injective e') (typed_literal _ _ _ (validate_int64-is_int64 n m e))
  literal_of-WellTyped (float x) b h = subst WellTyped (ok_injective h) (typed_literal _ _ _ refl)
  literal_of-WellTyped (boolean x) b h = subst WellTyped (ok_injective h) (typed_literal _ _ _ refl)
  literal_of-WellTyped (text x) b h = subst WellTyped (ok_injective h) (typed_literal _ _ _ refl)

  pub require_numeric-eq-ok :
      (e : BoundExpr F) (t : DataType)
      → require_numeric e ≡ ok t
      → (data_type_of e ≡ some t) × (is_numeric t ≡ true)
  unfolding require_numeric
  require_numeric-eq-ok e t h = ground arith

  pub require_boolean-eq-ok :
      (e : BoundExpr F) (t : DataType)
      → require_boolean e ≡ ok t
      → (data_type_of e ≡ some boolean_type) × (t ≡ boolean_type)
  unfolding require_boolean
  require_boolean-eq-ok e t h = elim (Option-cases (data_type_of e)) [
    | inl x ↦ absurd (ground arith)
    | inr (u, x) ↦
        let same : u ≡ boolean_type = same_type_eq u boolean_type (ground arith) in
        (x ∙ ap some same, ground arith)
  ]

  pub typed_at :
      (e : BoundExpr F) (t : DataType)
      → WellTyped e
      → data_type_of e ≡ some t
      → Typed columns e (some t)
  typed_at e t d h = subst (Typed columns e) h d

  coerce_null-Typed :
      (e b : BoundExpr F) (target : DataType)
      → coerce_null e target ≡ ok b
      → Typed columns b (some target)
  unfolding coerce_null fits
  coerce_null-Typed (bound_literal null t n) b target h =
      subst (λ x. Typed columns x (some target)) (ok_injective h) (typed_literal _ _ _ refl)
  coerce_null-Typed e b target h = cc

  coerce_typed-cases :
      (e b : BoundExpr F) (t target : DataType)
      → coerce_typed e t target ≡ ok b
      → ((t ≡ target) × (e ≡ b))
        ⊎ ((t ≡ int64_type)
            × (target ≡ float64_type)
            × (bound_cast e float64_type (nullable_of e) ≡ b))
  unfolding coerce_typed
  coerce_typed-cases e b t target h = ground arith

  coerce_typed-Typed :
      (e b : BoundExpr F) (t target : DataType)
      → Typed columns e (some t)
      → coerce_typed e t target ≡ ok b
      → Typed columns b (some target)
  coerce_typed-Typed e b t target d h = elim (coerce_typed-cases e b t target h) [
    | inl (x, y) ↦
        subst (λ u. Typed columns b (some u)) x (subst (λ c. Typed columns c (some t)) y d)
    | inr (x, y, z) ↦
        subst (λ u. Typed columns b (some u)) (sym y)
          (subst (λ c. Typed columns c (some float64_type)) z
            (typed_cast e (subst (λ u. Typed columns e (some u)) x d)))
  ]

  coerce-Typed :
      (e b : BoundExpr F) (target : DataType)
      → WellTyped e
      → coerce e target ≡ ok b
      → Typed columns b (some target)
  unfolding coerce
  coerce-Typed e b target d h = elim (Option-cases (data_type_of e)) [
    | inl x ↦ coerce_null-Typed e b target (ground arith)
    | inr (t, x) ↦ coerce_typed-Typed e b t target (typed_at e t d x) (ground arith)
  ]

  -- Two expressions of one data type.
  abbrev pub Alike : BoundExpr F → BoundExpr F → Option DataType → Type 0
  Alike e f t = Typed columns e t × Typed columns f t

  widen_pair-Alike :
      (is_float : Bool) (e f e' f' : BoundExpr F) (t : DataType)
      → WellTyped e
      → WellTyped f
      → (is_float ≡ false → Alike e f (some int64_type))
      → widen_pair is_float e f ≡ ok (e', f', t)
      → Alike e' f' (some t) × (is_numeric t ≡ true)
  unfolding widen_pair
  widen_pair-Alike true e f e' f' t d d' k h =
      let (a, x, h1) = >>=-eq-ok (coerce e float64_type) _ h in
      let (b, y, h2) = >>=-eq-ok (coerce f float64_type) _ h1 in
      subst (λ p. Alike p.0 p.1 (some p.2) × (is_numeric p.2 ≡ true)) (ok_injective h2)
        ((coerce-Typed e a float64_type d x, coerce-Typed f b float64_type d' y), refl)
  widen_pair-Alike false e f e' f' t d d' k h =
      subst (λ p. Alike p.0 p.1 (some p.2) × (is_numeric p.2 ≡ true)) (ok_injective h)
        (k refl, refl)

  pub numeric_pair-Alike :
      (e f e' f' : BoundExpr F) (t : DataType)
      → WellTyped e
      → WellTyped f
      → numeric_pair e f ≡ ok (e', f', t)
      → Alike e' f' (some t) × (is_numeric t ≡ true)
  unfolding numeric_pair
  numeric_pair-Alike e f e' f' t d d' h =
      let (t1, x, h1) = >>=-eq-ok (require_numeric e) _ h in
      let (u1, y, h2) = >>=-eq-ok (require_numeric f) _ h1 in
      let (x', x'') = require_numeric-eq-ok e t1 x in
      let (y', y'') = require_numeric-eq-ok f u1 y in
      widen_pair-Alike (same_type t1 float64_type || same_type u1 float64_type) e f e' f' t d d'
        (λ n.
          let (i, j) = integers t1 u1 x'' y'' n in
          (typed_at e int64_type d (x' ∙ ap some i), typed_at f int64_type d' (y' ∙ ap some j)))
        h2

  comparable_typed-cases :
      (e f e' f' : BoundExpr F) (t u : DataType)
      → comparable_typed e f t u ≡ ok (e', f')
      → ((t ≡ u) × (e ≡ e') × (f ≡ f')) ⊎ ((v : DataType) × (numeric_pair e f ≡ ok (e', f', v)))
  unfolding comparable_typed
  comparable_typed-cases e f e' f' t u h = elim (Bool-cases (same_type t u)) [
    | inl c ↦ inl (same_type_eq t u c, ground arith, ground arith)
    | inr c ↦ elim (Result-cases (numeric_pair e f)) [
      | inl ((a, b, v), x) ↦
          let same : a ≡ e' = ground arith in
          let same' : b ≡ f' = ground arith in
          inr (v, x ∙ ap (λ c. ok (c, b, v)) same ∙ ap (λ c. ok (e', c, v)) same')
      | inr (y, x) ↦ absurd (ground arith)
    ]
  ]

  moved :
      (e e' : BoundExpr F) (t : Option DataType)
      → e ≡ e'
      → data_type_of e ≡ t
      → WellTyped e
      → Typed columns e' t
  moved e e' t h k d = subst (λ b. Typed columns b t) h (subst (Typed columns e) k d)

  first_only :
      (r : Result (BoundExpr F)) (f e' f' : BoundExpr F)
      → ◌>>=◌ {B = BoundExpr F × BoundExpr F} r (λ a. ok (a, f)) ≡ ok (e', f')
      → (r ≡ ok e') × (f ≡ f')
  first_only (ok a) f e' f' h = (ground arith, ground arith)
  first_only (err x) f e' f' h = cc

  second_only :
      (r : Result (BoundExpr F)) (e e' f' : BoundExpr F)
      → ◌>>=◌ {B = BoundExpr F × BoundExpr F} r (λ a. ok (e, a)) ≡ ok (e', f')
      → (e ≡ e') × (r ≡ ok f')
  second_only (ok a) e e' f' h = (ground arith, ground arith)
  second_only (err x) e e' f' h = cc

  pub comparable_pair-Alike :
      (e f e' f' : BoundExpr F)
      → WellTyped e
      → WellTyped f
      → comparable_pair e f ≡ ok (e', f')
      → (t : Option DataType) × Alike e' f' t
  unfolding comparable_pair
  comparable_pair-Alike e f e' f' d d' h = elim (Option-cases (data_type_of e)) [
    | inl x ↦ elim (Option-cases (data_type_of f)) [
      | inl y ↦
          let i : e ≡ e' = ground arith in
          let j : f ≡ f' = ground arith in (none, (moved e e' none i x d, moved f f' none j y d'))
      | inr (u, y) ↦
          let (i, j) = first_only (coerce e u) f e' f' (ground arith) in
          (some u, (coerce-Typed e e' u d i, moved f f' (some u) j y d'))
    ]
    | inr (t, x) ↦ elim (Option-cases (data_type_of f)) [
      | inl y ↦
          let (i, j) = second_only (coerce f t) e e' f' (ground arith) in
          (some t, (moved e e' (some t) i x d, coerce-Typed f f' t d' j))
      | inr (u, y) ↦
          let h' : comparable_typed e f t u ≡ ok (e', f') = ground arith in
          elim (comparable_typed-cases e f e' f' t u h') [
            | inl (i, j, k) ↦
                (some u, (moved e e' (some u) j (x ∙ ap some i) d, moved f f' (some u) k y d'))
            | inr (v, z) ↦ (some v, (numeric_pair-Alike e f e' f' v d d' z).0)
          ]
    ]
  ]
