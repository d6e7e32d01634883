-- ===== src/Executor/Joins/Matching.antt =====
-- The rows of an executor that opens, and where an equality of columns holds.
use mini_postgres.Base.{
  ◌≡◌, refl, subst, ℤ, Bool, true, false, not, ◌&&◌, List, [], ◌∷◌, ok, err, All, arith, >>=-eq-ok,
  ok_injective, beq_ℤ,
}
use mini_postgres.Values.{
  Floats, DataType, Scalar, null, integer, float, boolean, text, eq, compare_values, compare_by,
  bool_equal, text_equal,
}
use mini_postgres.Values.Expressions.{is_null}
use mini_postgres.Planner.Rules.{is_true}
use mini_postgres.Executor.Rows.{Rows, no_more, raises, row, Executor, drain, binding_hashable}
use mini_postgres.Executor.Keys.{key_equal, same_key, IsPartial}
use mini_postgres.Executor.Keys.Equality.{IsExact, key_equal-IsPartial}
use mini_postgres.Values.Expressions.Shapes.{
  Shape, null_shape, integer_shape, float_shape, boolean_shape, text_shape,
}
use mini_postgres.Values.Expressions.Soundness.{validate-is_int64}
use mini_postgres.Executor.Joins.Merging.{AllRows}

-- The rows match: neither key is null, and they are equal.
abbrev pub keys_match : {F : Type 0} → (Scalar F → Scalar F → Bool) → Scalar F → Scalar F → Bool
keys_match equal v w = not (is_null v) && (not (is_null w) && equal w v)

partial_comm : {K : Type 0} (same : K → K → Bool) → IsPartial same → (j k : K) → same j k ≡ same k j
partial_comm same partial j k = ground (arith, partial.symmetric j k, partial.symmetric k j)

-- The rows of an executor, if it opens.
abbrev pub Opens {ℓ} : {A : Type 0} → (A → Type ℓ) → Executor A → Type ℓ
Opens P (err e) = Unit
Opens P (ok rs) = AllRows P rs

pub All-drain {ℓ} :
    {A : Type 0} (P : A → Type ℓ) (rs : Rows A) (as' : List A)
    → AllRows P rs
    → drain rs ≡ ok as'
    → All P as'
unfolding drain
All-drain P no_more [] hs e = tt
All-drain P no_more (a ∷ as') hs e = absurd (cc)
All-drain P (raises x) as' hs e = absurd (cc)
All-drain P (row a rs) as' (h, hs) e =
    let (bs, e', g) = >>=-eq-ok (drain rs) _ e in
    subst (All P) (ok_injective g) (h, All-drain P rs bs hs e')

pub AllRows-map {ℓ κ} :
    {A : Type 0} {P : A → Type ℓ} {Q : A → Type κ} (rs : Rows A)
    → ((a : A) → P a → Q a)
    → AllRows P rs
    → AllRows Q rs
AllRows-map no_more f hs = tt
AllRows-map (raises e) f hs = tt
AllRows-map (row a rs) f (h, hs) = (f a h, AllRows-map rs f hs)

module _ {F : Type 0} (floats : Floats F) (equals_int : F → ℤ → Bool)
    (exact : IsExact floats equals_int) where
  abbrev pub Compares : Scalar F → Scalar F → Type 0
  Compares v w =
      (u : Scalar F) × (compare_values floats eq v w ≡ ok u)
      × (is_true u ≡ keys_match (key_equal floats equals_int) v w)

  comm : (v w : Scalar F) → key_equal floats equals_int v w ≡ key_equal floats equals_int w v
  comm = partial_comm _ (key_equal-IsPartial floats equals_int exact)

  bool_equal-key :
      (a b : Bool) → bool_equal a b ≡ key_equal floats equals_int (boolean b) (boolean a)
  unfolding bool_equal same_key
  bool_equal-key true true = refl
  bool_equal-key true false = refl
  bool_equal-key false true = refl
  bool_equal-key false false = refl

  -- For values of one data type, col = col is true exactly where the keys match.
  pub compare-keys_match : (t : DataType) (v w : Scalar F) → Shape t v → Shape t w → Compares v w
  unfolding compare_values compare_by same_key
  compare-keys_match _ _ w (null_shape t) k = (null, refl, refl)
  compare-keys_match _ _ _ (integer_shape n h) (null_shape _) = (null, refl, refl)
  compare-keys_match _ _ _ (float_shape x) (null_shape _) = (null, refl, refl)
  compare-keys_match _ _ _ (boolean_shape a) (null_shape _) = (null, refl, refl)
  compare-keys_match _ _ _ (text_shape s) (null_shape _) = (null, refl, refl)
  compare-keys_match _ _ _ (integer_shape n h) (integer_shape m g) = (
    boolean (beq_ℤ n m),
    rw (validate-is_int64 n h, validate-is_int64 m g) refl,
    comm (integer n) (integer m),
  )
  compare-keys_match _ _ _ (float_shape x) (float_shape y) =
      (boolean (floats.equal x y), refl, comm (float x) (float y))
  compare-keys_match _ _ _ (boolean_shape a) (boolean_shape b) =
      (boolean (bool_equal a b), refl, bool_equal-key a b)
  compare-keys_match _ _ _ (text_shape s) (text_shape s') =
      (boolean (text_equal s s'), refl, comm (text s) (text s'))
