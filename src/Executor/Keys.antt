-- ===== src/Executor/Keys.antt =====
-- Python's == between the scalars that are keys of a dict in executor/operators.py, and a dict from
-- keys to lists of rows, which the hash join and the aggregation append to.
pub mod Equality
use mini_postgres.Base.{
  ◌≡◌, refl, sym, ◌∙◌, ap, ℕ, ℤ, pos, beq_ℤ, Bool, true, false, not, ◌&&◌, ◌||◌, List, [], ◌∷◌,
  ◌++◌, if◌then◌else◌, arith, Bool-cases, inl, inr,
}
use mini_postgres.Values.{Floats, Scalar, null, integer, float, boolean, text, text_equal}

-- What == looks at: True and 1 are equal, and so are 1 and 1.0.
pub data Key (F : Type 0) : Type 0 where
  null_key : Key F
  int_key : ℤ → Key F
  float_key : F → Key F
  text_key : List ℕ → Key F

module _ {F : Type 0} where
  abbrev pub key_of : Scalar F → Key F
  key_of null = null_key
  key_of (integer n) = int_key n
  key_of (float x) = float_key x
  key_of (boolean b) = int_key (if b then pos 1 else pos 0)
  key_of (text s) = text_key s

-- float == int compares the exact values, and is a parameter beside the operations of Floats.
module _ {F : Type 0} (floats : Floats F) (equals_int : F → ℤ → Bool) where
  unfoldable pub same_key : Key F → Key F → Bool
  unfolding text_equal
  same_key null_key null_key = true
  same_key (int_key n) (int_key m) = beq_ℤ n m
  same_key (int_key n) (float_key y) = equals_int y n
  same_key (float_key x) (int_key m) = equals_int x m
  same_key (float_key x) (float_key y) = floats.equal x y
  same_key (text_key s) (text_key t) = text_equal s t
  same_key _ _ = false

  abbrev pub key_equal : Scalar F → Scalar F → Bool
  key_equal v w = same_key (key_of v) (key_of w)

-- Containers compare their elements by identity first: one NaN object is found where it stands, though
-- it does not equal itself. Whether two floats are one object is a parameter.
abbrev pub by_identity : {F : Type 0} → (F → F → Bool) → Floats F → Floats F
by_identity is_same floats = record floats { equal = λ x y. is_same x y || floats.equal x y }

module _ {F : Type 0} (floats : Floats F) (equals_int : F → ℤ → Bool) (is_same : F → F → Bool) where
  -- == on tuples of scalars, as a dict compares its keys
  unfoldable pub tuple_equal : List (Scalar F) → List (Scalar F) → Bool
  unfolding same_key
  tuple_equal [] [] = true
  tuple_equal (v ∷ vs) (w ∷ ws) =
      same_key (by_identity is_same floats) equals_int (key_of v) (key_of w) && tuple_equal vs ws
  tuple_equal _ _ = false

module _ {K A : Type 0} (same : K → K → Bool) where
  -- table[key].append(a), and table.setdefault(key, []).append(a)
  unfoldable pub append_to : List (K × List A) → K → A → List (K × List A)
  append_to [] k a = (k, a ∷ []) ∷ []
  append_to ((j, as') ∷ t) k a =
      let rest = append_to t k a in if same j k then (j, as' ++ a ∷ []) ∷ t else (j, as') ∷ rest

  -- table.get(key, ())
  unfoldable pub listed : List (K × List A) → K → List A
  listed [] k = []
  listed ((j, as') ∷ t) k = let rest = listed t k in if same j k then as' else rest

-- == is symmetric and transitive. It is not reflexive, since no NaN equals itself.
pub record IsPartial {K : Type 0} (same : K → K → Bool) : Type 0 where
  pub symmetric : (j k : K) → same j k ≡ true → same k j ≡ true
  pub transitive : (i j k : K) → same i j ≡ true → same j k ≡ true → same i k ≡ true

module _ {K A : Type 0} (same : K → K → Bool) (partial : IsPartial same) where
  open partial use {symmetric, transitive}

  pub listed-append_to :
      (t : List (K × List A)) (k q : K) (a : A)
      → listed same (append_to same t k a) q
        ≡ (if same k q then listed same t q ++ a ∷ [] else listed same t q)
  unfolding listed append_to
  listed-append_to [] k q a = ground arith
  listed-append_to ((j, as') ∷ t) k q a = ground (
    arith,
    listed-append_to t k q a,
    symmetric j k,
    symmetric k q,
    transitive j k q,
    transitive k j q,
    transitive j q k,
  )
