-- ===== src/Executor/Sort/Placement.antt =====
-- What ORDER BY asks of two rows that stand one before the other, and that _compare decides it.
use mini_postgres.Base.{
  ◌≡◌, ◌≢◌, ◌⊎◌, inl, inr, refl, sym, true, false, Option, none, some, List, [], ◌∷◌, if◌then◌else◌,
  ok, ◌>>=◌, >>=-eq-ok, ok_injective, Hashable, arith,
}
use mini_postgres.Values.{Floats, Scalar, null, integer, float, boolean, text}
use mini_postgres.Planner.Logical.{
  Direction, asc, desc, NullsOrder, nulls_first, nulls_last, BoundOrderItem,
}
use mini_postgres.Executor.Rows.{ComputedKey, Row, evaluate_on}
use mini_postgres.Executor.Keys.{key_of}
use mini_postgres.Executor.Aggregates.{Mixed, key_less}
use mini_postgres.Executor.Sort.{
  Comparison, before, tied, after, directed, are_nulls_first, compare_present, compare_order_values,
  compare_rows,
}

-- NULLS FIRST, or DESC without either
abbrev pub NullsComeFirst : Direction → Option NullsOrder → Type 0
NullsComeFirst d nulls = (nulls ≡ some nulls_first) ⊎ ((nulls ≡ none) × (d ≡ desc))

-- NULLS LAST, or ASC without either
abbrev pub NullsComeLast : Direction → Option NullsOrder → Type 0
NullsComeLast d nulls = (nulls ≡ some nulls_last) ⊎ ((nulls ≡ none) × (d ≡ asc))

nulls_placed :
    (d : Direction) (nulls : Option NullsOrder)
    → ((are_nulls_first d nulls ≡ true) × NullsComeFirst d nulls)
      ⊎ ((are_nulls_first d nulls ≡ false) × NullsComeLast d nulls)
nulls_placed d (some nulls_first) = inl (refl, inl refl)
nulls_placed d (some nulls_last) = inr (refl, inl refl)
nulls_placed asc none = inr (refl, inr (refl, refl))
nulls_placed desc none = inl (refl, inr (refl, refl))

module _ {F : Type 0} (floats : Floats F) (mixed : Mixed F) where
  -- One value comes before another, by Python's < on values that are not null.
  pub data Precedes (d : Direction) (nulls : Option NullsOrder) (v w : Scalar F) : Type 0 where
    null_before : NullsComeFirst d nulls → v ≡ null → w ≢ null → Precedes d nulls v w
    before_null : NullsComeLast d nulls → v ≢ null → w ≡ null → Precedes d nulls v w
    ascending :
        d ≡ asc
        → v ≢ null
        → w ≢ null
        → key_less floats mixed (key_of v) (key_of w) ≡ ok true
        → Precedes d nulls v w
    descending :
        d ≡ desc
        → v ≢ null
        → w ≢ null
        → key_less floats mixed (key_of w) (key_of v) ≡ ok true
        → Precedes d nulls v w

  -- Two values are nulls, or neither is a null and neither is less than the other.
  abbrev pub Ties : Scalar F → Scalar F → Type 0
  Ties v w =
      ((v ≡ null) × (w ≡ null))
      ⊎ ((v ≢ null)
          × (w ≢ null)
          × (key_less floats mixed (key_of v) (key_of w) ≡ ok false)
          × (key_less floats mixed (key_of w) (key_of v) ≡ ok false))

  abbrev Placed : Direction → Option NullsOrder → Scalar F → Scalar F → Comparison → Type 0
  Placed d nulls v w before = Precedes d nulls v w
  Placed d nulls v w tied = Ties v w
  Placed d nulls v w after = Unit

  compare_present-cases :
      (v w : Scalar F) (c : Comparison)
      → compare_present floats mixed v w ≡ ok c
      → elim c as (λ _. Type 0) [
        | before ↦ key_less floats mixed (key_of v) (key_of w) ≡ ok true
        | tied ↦
            (key_less floats mixed (key_of v) (key_of w) ≡ ok false)
            × (key_less floats mixed (key_of w) (key_of v) ≡ ok false)
        | after ↦ key_less floats mixed (key_of w) (key_of v) ≡ ok true
      ]
  unfolding compare_present
  compare_present-cases v w before h = ground arith
  compare_present-cases v w tied h = (ground arith, ground arith)
  compare_present-cases v w after h = ground arith

  present-Placed :
      (d : Direction) (nulls : Option NullsOrder) (v w : Scalar F) (c e : Comparison)
      → v ≢ null
      → w ≢ null
      → compare_present floats mixed v w ≡ ok e
      → directed d e ≡ c
      → Placed d nulls v w c
  present-Placed asc nulls v w before before nv nw h q =
      ascending refl nv nw (compare_present-cases v w before h)
  present-Placed asc nulls v w before tied nv nw h q = absurd (cc)
  present-Placed asc nulls v w before after nv nw h q = absurd (cc)
  present-Placed desc nulls v w before after nv nw h q =
      descending refl nv nw (compare_present-cases v w after h)
  present-Placed desc nulls v w before tied nv nw h q = absurd (cc)
  present-Placed desc nulls v w before before nv nw h q = absurd (cc)
  present-Placed d nulls v w tied tied nv nw h q =
      let (a, b) = compare_present-cases v w tied h in inr (nv, nw, a, b)
  present-Placed asc nulls v w tied before nv nw h q = absurd (cc)
  present-Placed asc nulls v w tied after nv nw h q = absurd (cc)
  present-Placed desc nulls v w tied before nv nw h q = absurd (cc)
  present-Placed desc nulls v w tied after nv nw h q = absurd (cc)
  present-Placed d nulls v w after e nv nw h q = tt

  null-Placed :
      (d : Direction) (nulls : Option NullsOrder) (w : Scalar F) (c : Comparison)
      → w ≢ null
      → ok (if are_nulls_first d nulls then before else after) ≡ ok c
      → Placed d nulls null w c
  null-Placed d nulls w before n h = elim (nulls_placed d nulls) [
    | inl (e, p) ↦ null_before p refl n
    | inr (e, p) ↦ let k = rw e at h in absurd (cc)
  ]
  null-Placed d nulls w tied n h = elim (nulls_placed d nulls) [
    | inl (e, p) ↦ let k = rw e at h in absurd (cc)
    | inr (e, p) ↦ let k = rw e at h in absurd (cc)
  ]
  null-Placed d nulls w after n h = tt

  Placed-null :
      (d : Direction) (nulls : Option NullsOrder) (v : Scalar F) (c : Comparison)
      → v ≢ null
      → ok (if are_nulls_first d nulls then after else before) ≡ ok c
      → Placed d nulls v null c
  Placed-null d nulls v before n h = elim (nulls_placed d nulls) [
    | inl (e, p) ↦ let k = rw e at h in absurd (cc)
    | inr (e, p) ↦ before_null p n refl
  ]
  Placed-null d nulls v tied n h = elim (nulls_placed d nulls) [
    | inl (e, p) ↦ let k = rw e at h in absurd (cc)
    | inr (e, p) ↦ let k = rw e at h in absurd (cc)
  ]
  Placed-null d nulls v after n h = tt

  both-Placed :
      (d : Direction) (nulls : Option NullsOrder) (v w : Scalar F) (c : Comparison)
      → v ≢ null
      → w ≢ null
      → (compare_present floats mixed v w >>= λ e. ok (directed d e)) ≡ ok c
      → Placed d nulls v w c
  both-Placed d nulls v w c nv nw h =
      let (e, k, q) = >>=-eq-ok (compare_present floats mixed v w) _ h in
      present-Placed d nulls v w c e nv nw k (ok_injective q)

  compare_order_values-Placed :
      (d : Direction) (nulls : Option NullsOrder) (v w : Scalar F) (c : Comparison)
      → compare_order_values floats mixed d nulls v w ≡ ok c
      → Placed d nulls v w c
  unfolding compare_order_values
  compare_order_values-Placed d nulls null null before h = absurd (cc)
  compare_order_values-Placed d nulls null null tied h = inl (refl, refl)
  compare_order_values-Placed d nulls null null after h = tt
  compare_order_values-Placed d nulls null (integer n) c h =
      null-Placed d nulls (integer n) c (λ e. cc) h
  compare_order_values-Placed d nulls null (float x) c h =
      null-Placed d nulls (float x) c (λ e. cc) h
  compare_order_values-Placed d nulls null (boolean b) c h =
      null-Placed d nulls (boolean b) c (λ e. cc) h
  compare_order_values-Placed d nulls null (text s) c h = null-Placed d nulls (text s) c (λ e. cc) h
  compare_order_values-Placed d nulls (integer n) null c h =
      Placed-null d nulls (integer n) c (λ e. cc) h
  compare_order_values-Placed d nulls (integer n) (integer n') c h =
      both-Placed d nulls (integer n) (integer n') c (λ e. cc) (λ e. cc) h
  compare_order_values-Placed d nulls (integer n) (float x') c h =
      both-Placed d nulls (integer n) (float x') c (λ e. cc) (λ e. cc) h
  compare_order_values-Placed d nulls (integer n) (boolean b') c h =
      both-Placed d nulls (integer n) (boolean b') c (λ e. cc) (λ e. cc) h
  compare_order_values-Placed d nulls (integer n) (text s') c h =
      both-Placed d nulls (integer n) (text s') c (λ e. cc) (λ e. cc) h
  compare_order_values-Placed d nulls (float x) null c h =
      Placed-null d nulls (float x) c (λ e. cc) h
  compare_order_values-Placed d nulls (float x) (integer n') c h =
      both-Placed d nulls (float x) (integer n') c (λ e. cc) (λ e. cc) h
  compare_order_values-Placed d nulls (float x) (float x') c h =
      both-Placed d nulls (float x) (float x') c (λ e. cc) (λ e. cc) h
  compare_order_values-Placed d nulls (float x) (boolean b') c h =
      both-Placed d nulls (float x) (boolean b') c (λ e. cc) (λ e. cc) h
  compare_order_values-Placed d nulls (float x) (text s') c h =
      both-Placed d nulls (float x) (text s') c (λ e. cc) (λ e. cc) h
  compare_order_values-Placed d nulls (boolean b) null c h =
      Placed-null d nulls (boolean b) c (λ e. cc) h
  compare_order_values-Placed d nulls (boolean b) (integer n') c h =
      both-Placed d nulls (boolean b) (integer n') c (λ e. cc) (λ e. cc) h
  compare_order_values-Placed d nulls (boolean b) (float x') c h =
      both-Placed d nulls (boolean b) (float x') c (λ e. cc) (λ e. cc) h
  compare_order_values-Placed d nulls (boolean b) (boolean b') c h =
      both-Placed d nulls (boolean b) (boolean b') c (λ e. cc) (λ e. cc) h
  compare_order_values-Placed d nulls (boolean b) (text s') c h =
      both-Placed d nulls (boolean b) (text s') c (λ e. cc) (λ e. cc) h
  compare_order_values-Placed d nulls (text s) null c h = Placed-null d nulls (text s) c (λ e. cc) h
  compare_order_values-Placed d nulls (text s) (integer n') c h =
      both-Placed d nulls (text s) (integer n') c (λ e. cc) (λ e. cc) h
  compare_order_values-Placed d nulls (text s) (float x') c h =
      both-Placed d nulls (text s) (float x') c (λ e. cc) (λ e. cc) h
  compare_order_values-Placed d nulls (text s) (boolean b') c h =
      both-Placed d nulls (text s) (boolean b') c (λ e. cc) (λ e. cc) h
  compare_order_values-Placed d nulls (text s) (text s') c h =
      both-Placed d nulls (text s) (text s') c (λ e. cc) (λ e. cc) h

  module _ ⦃keys : Hashable (ComputedKey F)⦄ where
    -- A row may stand before another: at the first item where their values do not tie, its value comes
    -- before the other's, or they tie at every item.
    pub data InOrder : List (BoundOrderItem F) → Row F → Row F → Type 0 where
      all_tied : (l r : Row F) → InOrder [] l r
      decided :
          (i : BoundOrderItem F) (is : List (BoundOrderItem F)) (l r : Row F) (v w : Scalar F)
          → evaluate_on floats i.expression l ≡ ok v
          → evaluate_on floats i.expression r ≡ ok w
          → Precedes i.direction i.nulls v w
          → InOrder (i ∷ is) l r
      undecided :
          (i : BoundOrderItem F) (is : List (BoundOrderItem F)) (l r : Row F) (v w : Scalar F)
          → evaluate_on floats i.expression l ≡ ok v
          → evaluate_on floats i.expression r ≡ ok w
          → Ties v w
          → InOrder is l r
          → InOrder (i ∷ is) l r

    compare_next :
        (i : BoundOrderItem F) (is : List (BoundOrderItem F)) (l r : Row F) (v w : Scalar F)
        (c d : Comparison)
        → evaluate_on floats i.expression l ≡ ok v
        → evaluate_on floats i.expression r ≡ ok w
        → d ≢ after
        → (compare_rows floats mixed is l r ≡ ok d → InOrder is l r)
        → Placed i.direction i.nulls v w c
        → (elim c [
          | tied ↦ compare_rows floats mixed is l r
          | before ↦ ok before
          | after ↦ ok after
        ])
          ≡ ok d
        → InOrder (i ∷ is) l r
    compare_next i is l r v w before d e e' n f p h = decided i is l r v w e e' p
    compare_next i is l r v w tied d e e' n f p h = undecided i is l r v w e e' p (f h)
    compare_next i is l r v w after d e e' n f p h = absurd (n (sym (ok_injective h)))

    pub compare_rows-InOrder :
        (items : List (BoundOrderItem F)) (l r : Row F) (d : Comparison)
        → compare_rows floats mixed items l r ≡ ok d
        → d ≢ after
        → InOrder items l r
    unfolding compare_rows
    compare_rows-InOrder [] l r d h n = all_tied l r
    compare_rows-InOrder (i ∷ is) l r d h n =
        let (v, e, h1) = >>=-eq-ok (evaluate_on floats i.expression l) _ h in
        let (w, e', h2) = >>=-eq-ok (evaluate_on floats i.expression r) _ h1 in
        let (c, e'', h3) =
          >>=-eq-ok (compare_order_values floats mixed i.direction i.nulls v w) _ h2 in
        compare_next i is l r v w c d e e' n (λ k. compare_rows-InOrder is l r d k n)
          (compare_order_values-Placed i.direction i.nulls v w c e'') h3
