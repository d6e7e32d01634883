-- ===== src/Executor/Joins/Merging.antt =====
-- The rows that a join merges, and the value of an equality of columns on them.
use mini_postgres.Base.{
  ◌≡◌, refl, sym, ◌∙◌, ap, inl, inr, ℕ, Bool, true, false, ◌||◌, none, some, List, [], ◌∷◌, ◌++◌,
  if◌then◌else◌, ok, err, Error, Hashable, arith, Option-cases, ok_injective,
}
use mini_postgres.Dict.{Dict, get}
use mini_postgres.Values.{Floats, DataType, Scalar, eq, compare_values}
use mini_postgres.Values.Expressions.{
  ColumnBinding, bound_column, bound_binary, comparison, evaluate, binary_values,
}
use mini_postgres.Values.Expressions.Typing.{fits}
use mini_postgres.Planner.Fold.Meaning.{evaluate_binary}
use mini_postgres.Executor.Rows.{
  ComputedKey, Row, Rows, no_more, raises, row, merge, evaluate_on, view, overlaps,
  binding_hashable,
}

abbrev pub AllRows {ℓ} : {A : Type 0} → (A → Type ℓ) → Rows A → Type ℓ
AllRows P no_more = Unit
AllRows P (raises e) = Unit
AllRows P (row a rs) = P a × AllRows P rs

-- A row of tables alone, which has the column, with a value of the data type or null.
pub record HasColumn {F : Type 0} (c : ColumnBinding) (t : DataType) (r : Row F) : Type 0 where
  pub plain : r.computed ≡ []
  pub cell : Scalar F
  pub here : get r.cells c ≡ some cell
  pub typed : fits cell (some t) true ≡ true

module _ {K V : Type 0} ⦃e : Hashable K⦄ where
  pub get-append : (c d : Dict K V) (k : K) (v : V) → get c k ≡ some v → get (c ++ d) k ≡ some v
  unfolding get
  get-append [] d k v h = cc
  get-append ((j, w) ∷ c) d k v h = ground (arith, get-append c d k v)

  pub get-append_none : (c d : Dict K V) (k : K) → get c k ≡ none → get (c ++ d) k ≡ get d k
  unfolding get
  get-append_none [] d k h = refl
  get-append_none ((j, w) ∷ c) d k h = ground (arith, get-append_none c d k)

  overlaps-cons :
      (j : K) (w : V) (c d : Dict K V)
      → overlaps ((j, w) ∷ c) d ≡ false
      → (get d j ≡ none) × (overlaps c d ≡ false)
  unfolding overlaps
  overlaps-cons j w c d h = elim (Option-cases (get d j)) [
    | inl g ↦ (g, cc (g, h))
    | inr (v, g) ↦ absurd (cc (g, h))
  ]

  pub get-overlaps :
      (c d : Dict K V) (k : K) (v : V) → overlaps c d ≡ false → get d k ≡ some v → get c k ≡ none
  unfolding get
  get-overlaps [] d k v h g = refl
  get-overlaps ((j, w) ∷ c) d k v h g =
      let (free, later) = overlaps-cons j w c d h in
      ground (arith, free, g, get-overlaps c d k v later g, e.same_iff j k)

-- What a call did whose guard did not raise.
guarded :
    {A : Type 0} (b : Bool) (e : Error) (x y : A)
    → (if b then err e else ok x) ≡ ok y
    → (b ≡ false) × (x ≡ y)
guarded true e x y h = absurd (cc)
guarded false e x y h = (refl, ok_injective h)

or_left : (a b : Bool) → (a || b) ≡ false → a ≡ false
or_left a b h = ground arith

module _ {F : Type 0} ⦃keys : Hashable (ComputedKey F)⦄ where
  -- What merge returned.
  pub record IsMerged (l r m : Row F) : Type 0 where
    pub cells : m.cells ≡ l.cells ++ r.cells
    pub computed : m.computed ≡ l.computed ++ r.computed
    pub apart : overlaps l.cells r.cells ≡ false

  pub merge-IsMerged : (l r m : Row F) → merge l r ≡ ok m → IsMerged l r m
  unfolding merge
  merge-IsMerged l r m h =
      let (free, e) = guarded _ _ _ _ h in
      record {
        cells = sym (ap (λ x. x.cells) e);
        computed = sym (ap (λ x. x.computed) e);
        apart = or_left _ _ free;
      }

  module _ (floats : Floats F) where
    pub evaluate_on-column :
        (c : ColumnBinding) (name : List ℕ) (t : DataType) (n : Bool) (r : Row F) (v : Scalar F)
        → r.computed ≡ []
        → get r.cells c ≡ some v
        → evaluate_on floats (bound_column c name t n) r ≡ ok v
    unfolding evaluate_on evaluate get
    evaluate_on-column c name t n r v h g = rw (h, evaluate, get, g) refl

    pub evaluate_on-comparison :
        (c d : ColumnBinding) (x y : List ℕ) (t t' u : DataType) (n n' i : Bool) (r : Row F)
        (v w : Scalar F)
        → r.computed ≡ []
        → get r.cells c ≡ some v
        → get r.cells d ≡ some w
        → evaluate_on floats
            (bound_binary (bound_column c x t n) (comparison eq) (bound_column d y t' n') u i)
            r
          ≡ compare_values floats eq v w
    unfolding evaluate_on evaluate get binary_values
    evaluate_on-comparison c d x y t t' u n n' i r v w h g k =
        evaluate_binary floats (view r) (λ e. rw h refl) (bound_column c x t n) (comparison eq)
          (bound_column d y t' n') u i
        ∙ rw (evaluate_on-column c x t n r v h g, evaluate_on-column d y t' n' r w h k) refl
