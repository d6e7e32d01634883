-- ===== src/Executor/Sort/Flip.antt =====
-- Comparing two rows the other way round gives the opposite result.
use mini_postgres.Base.{
  ◌≡◌, refl, ◌∙◌, ap, ℕ, ℤ, Bool, true, false, Option, List, [], ◌∷◌, if◌then◌else◌, Result, ok,
  err, ◌>>=◌, >>=-eq-ok, ok_injective, Hashable, arith, ltb_ℤ,
}
use mini_postgres.Values.{Floats, Scalar, null, integer, float, boolean, text, text_less}
use mini_postgres.Planner.Logical.{Direction, asc, desc, NullsOrder, BoundOrderItem}
use mini_postgres.Executor.Rows.{ComputedKey, Row, evaluate_on}
use mini_postgres.Executor.Keys.{Key, null_key, int_key, float_key, text_key, key_of}
use mini_postgres.Executor.Aggregates.{Mixed, key_less}
use mini_postgres.Executor.Sort.{
  Comparison, before, tied, after, flip, directed, are_nulls_first, compare_present,
  compare_order_values, compare_rows,
}

-- What Python guarantees of < on numbers, a NaN included: it holds one way at most.
pub record IsStrict {F : Type 0} (floats : Floats F) (mixed : Mixed F) : Type 0 where
  pub less_asym : (x y : F) → floats.less x y ≡ true → floats.less y x ≡ false
  pub less_int_asym : (x : F) (n : ℤ) → mixed.less_int x n ≡ true → mixed.greater_int x n ≡ false
  pub greater_int_asym : (x : F) (n : ℤ) → mixed.greater_int x n ≡ true → mixed.less_int x n ≡ false

ltb_ℤ_asym : (n m : ℤ) → ltb_ℤ n m ≡ true → ltb_ℤ m n ≡ false
ltb_ℤ_asym n m h = ground arith

text_less_asym : (s t : List ℕ) → text_less s t ≡ true → text_less t s ≡ false
unfolding text_less
text_less_asym xs [] h = cc
text_less_asym [] (y ∷ ys) h = refl
text_less_asym (x ∷ xs) (y ∷ ys) h = ground (arith, text_less_asym xs ys)

abbrev compared : Result Bool → Result Bool → Result Comparison
compared p q = do
  less ← p
  if less then ok before else do greater ← q; ok (if greater then after else tied)

both-flip :
    (p q : Result Bool)
    → (p ≡ ok true → q ≡ ok false)
    → (c : Comparison) → compared p q ≡ ok c
    → compared q p ≡ ok (flip c)
both-flip (err e) q f c h = absurd (cc)
both-flip (ok true) q f c h = rw (f refl) (ap ok (ap flip (ok_injective h)))
both-flip (ok false) (err e) f c h = absurd (cc)
both-flip (ok false) (ok true) f c h = ap ok (ap flip (ok_injective h))
both-flip (ok false) (ok false) f c h = ap ok (ap flip (ok_injective h))

module _ {F : Type 0} (floats : Floats F) (mixed : Mixed F) (strict : IsStrict floats mixed) where
  open strict use {less_asym, less_int_asym, greater_int_asym}

  key_less_asym :
      (j k : Key F) → key_less floats mixed j k ≡ ok true → key_less floats mixed k j ≡ ok false
  unfolding key_less
  key_less_asym (int_key n) (int_key m) h = ap ok (ltb_ℤ_asym n m (ok_injective h))
  key_less_asym (int_key n) (float_key y) h = ap ok (greater_int_asym y n (ok_injective h))
  key_less_asym (float_key x) (int_key m) h = ap ok (less_int_asym x m (ok_injective h))
  key_less_asym (float_key x) (float_key y) h = ap ok (less_asym x y (ok_injective h))
  key_less_asym (text_key s) (text_key t) h = ap ok (text_less_asym s t (ok_injective h))
  key_less_asym null_key k h = absurd (cc)
  key_less_asym (int_key n) null_key h = absurd (cc)
  key_less_asym (int_key n) (text_key t) h = absurd (cc)
  key_less_asym (float_key n) null_key h = absurd (cc)
  key_less_asym (float_key n) (text_key t) h = absurd (cc)
  key_less_asym (text_key n) null_key h = absurd (cc)
  key_less_asym (text_key n) (int_key t) h = absurd (cc)
  key_less_asym (text_key n) (float_key t) h = absurd (cc)

  compare_present-flip :
      (v w : Scalar F) (c : Comparison)
      → compare_present floats mixed v w ≡ ok c
      → compare_present floats mixed w v ≡ ok (flip c)
  unfolding compare_present
  compare_present-flip v w =
      both-flip (key_less floats mixed (key_of v) (key_of w))
        (key_less floats mixed (key_of w) (key_of v)) (key_less_asym (key_of v) (key_of w))

  directed-flip : (d : Direction) (c : Comparison) → directed d (flip c) ≡ flip (directed d c)
  directed-flip asc c = refl
  directed-flip desc before = refl
  directed-flip desc tied = refl
  directed-flip desc after = refl

  present-flip :
      (d : Direction) (p q : Result Comparison) (c : Comparison)
      → ((e : Comparison) → p ≡ ok e → q ≡ ok (flip e))
      → (p >>= λ e. ok (directed d e)) ≡ ok c
      → (q >>= λ e. ok (directed d e)) ≡ ok (flip c)
  present-flip d (err e) q c f h = absurd (cc)
  present-flip d (ok e) q c f h =
      rw (f e refl) (ap ok (directed-flip d e ∙ ap flip (ok_injective h)))

  null-flip :
      (b : Bool) (c : Comparison)
      → ok (if b then before else after) ≡ ok c
      → ok (if b then after else before) ≡ ok (flip c)
  null-flip true c h = ap ok (ap flip (ok_injective h))
  null-flip false c h = ap ok (ap flip (ok_injective h))

  null-flip_back :
      (b : Bool) (c : Comparison)
      → ok (if b then after else before) ≡ ok c
      → ok (if b then before else after) ≡ ok (flip c)
  null-flip_back true c h = ap ok (ap flip (ok_injective h))
  null-flip_back false c h = ap ok (ap flip (ok_injective h))

  compare_order_values-flip :
      (d : Direction) (nulls : Option NullsOrder) (v w : Scalar F) (c : Comparison)
      → compare_order_values floats mixed d nulls v w ≡ ok c
      → compare_order_values floats mixed d nulls w v ≡ ok (flip c)
  unfolding compare_order_values
  compare_order_values-flip d nulls null null c h = ap ok (ap flip (ok_injective h))
  compare_order_values-flip d nulls null (integer n') c h = null-flip (are_nulls_first d nulls) c h
  compare_order_values-flip d nulls null (float x') c h = null-flip (are_nulls_first d nulls) c h
  compare_order_values-flip d nulls null (boolean b') c h = null-flip (are_nulls_first d nulls) c h
  compare_order_values-flip d nulls null (text s') c h = null-flip (are_nulls_first d nulls) c h
  compare_order_values-flip d nulls (integer n) null c h =
      null-flip_back (are_nulls_first d nulls) c h
  compare_order_values-flip d nulls (integer n) (integer n') c h =
      present-flip d _ _ c (compare_present-flip (integer n) (integer n')) h
  compare_order_values-flip d nulls (integer n) (float x') c h =
      present-flip d _ _ c (compare_present-flip (integer n) (float x')) h
  compare_order_values-flip d nulls (integer n) (boolean b') c h =
      present-flip d _ _ c (compare_present-flip (integer n) (boolean b')) h
  compare_order_values-flip d nulls (integer n) (text s') c h =
      present-flip d _ _ c (compare_present-flip (integer n) (text s')) h
  compare_order_values-flip d nulls (float x) null c h =
      null-flip_back (are_nulls_first d nulls) c h
  compare_order_values-flip d nulls (float x) (integer n') c h =
      present-flip d _ _ c (compare_present-flip (float x) (integer n')) h
  compare_order_values-flip d nulls (float x) (float x') c h =
      present-flip d _ _ c (compare_present-flip (float x) (float x')) h
  compare_order_values-flip d nulls (float x) (boolean b') c h =
      present-flip d _ _ c (compare_present-flip (float x) (boolean b')) h
  compare_order_values-flip d nulls (float x) (text s') c h =
      present-flip d _ _ c (compare_present-flip (float x) (text s')) h
  compare_order_values-flip d nulls (boolean b) null c h =
      null-flip_back (are_nulls_first d nulls) c h
  compare_order_values-flip d nulls (boolean b) (integer n') c h =
      present-flip d _ _ c (compare_present-flip (boolean b) (integer n')) h
  compare_order_values-flip d nulls (boolean b) (float x') c h =
      present-flip d _ _ c (compare_present-flip (boolean b) (float x')) h
  compare_order_values-flip d nulls (boolean b) (boolean b') c h =
      present-flip d _ _ c (compare_present-flip (boolean b) (boolean b')) h
  compare_order_values-flip d nulls (boolean b) (text s') c h =
      present-flip d _ _ c (compare_present-flip (boolean b) (text s')) h
  compare_order_values-flip d nulls (text s) null c h = null-flip_back (are_nulls_first d nulls) c h
  compare_order_values-flip d nulls (text s) (integer n') c h =
      present-flip d _ _ c (compare_present-flip (text s) (integer n')) h
  compare_order_values-flip d nulls (text s) (float x') c h =
      present-flip d _ _ c (compare_present-flip (text s) (float x')) h
  compare_order_values-flip d nulls (text s) (boolean b') c h =
      present-flip d _ _ c (compare_present-flip (text s) (boolean b')) h
  compare_order_values-flip d nulls (text s) (text s') c h =
      present-flip d _ _ c (compare_present-flip (text s) (text s')) h

  next_flip :
      (d : Comparison) (p q : Result Comparison) (c : Comparison)
      → ((e : Comparison) → p ≡ ok e → q ≡ ok (flip e))
      → (elim d [ tied ↦ p | before ↦ ok before | after ↦ ok after ]) ≡ ok c
      → (elim (flip d) [ tied ↦ q | before ↦ ok before | after ↦ ok after ]) ≡ ok (flip c)
  next_flip before p q c f h = ap ok (ap flip (ok_injective h))
  next_flip tied p q c f h = f c h
  next_flip after p q c f h = ap ok (ap flip (ok_injective h))

  module _ ⦃keys : Hashable (ComputedKey F)⦄ where
    pub compare_rows-flip :
        (items : List (BoundOrderItem F)) (l r : Row F) (c : Comparison)
        → compare_rows floats mixed items l r ≡ ok c
        → compare_rows floats mixed items r l ≡ ok (flip c)
    unfolding compare_rows
    compare_rows-flip [] l r c h = ap ok (ap flip (ok_injective h))
    compare_rows-flip (i ∷ is) l r c h =
        let (v, e, h1) = >>=-eq-ok (evaluate_on floats i.expression l) _ h in
        let (w, e', h2) = >>=-eq-ok (evaluate_on floats i.expression r) _ h1 in
        let (d, e'', h3) =
          >>=-eq-ok (compare_order_values floats mixed i.direction i.nulls v w) _ h2 in
        rw (compare_rows, e, e', compare_order_values-flip i.direction i.nulls v w d e'')
          (next_flip d _ _ c (compare_rows-flip is l r) h3)
