-- ===== src/Dict.antt =====
-- Python's `dict`, as the list of its entries in insertion order, and its sets, as lists without
-- repetition under `add` and `discard`. Both are read through the laws below.
use mini_postgres.Base.{
  ◌≡◌, refl, Bool, false, ◌||◌, ◌&&◌, not, Option, none, some, List, [], ◌∷◌, ◌++◌, arith,
  if◌then◌else◌, Hashable, ◌==◌, Bool-cases, inl, inr,
}

abbrev pub Dict {ℓ κ} : Type ℓ → Type κ → Type (ℓ ⊔ κ)
Dict K V = List (K × V)

module _ {ℓ κ} {K : Type ℓ} {V : Type κ} ⦃e : Hashable K⦄ where
  -- d.get(k)
  unfoldable pub get : Dict K V → K → Option V
  get [] k = none
  get ((j, v) ∷ d) k = if j == k then some v else get d k

  -- d[k] = v
  unfoldable pub put : Dict K V → K → V → Dict K V
  put [] k v = (k, v) ∷ []
  put ((j, w) ∷ d) k v = if j == k then (j, v) ∷ d else (j, w) ∷ put d k v

  -- d.pop(k, None)
  unfoldable pub del : Dict K V → K → Dict K V
  del [] k = []
  del ((j, w) ∷ d) k = let rest = del d k in if j == k then rest else (j, w) ∷ rest

  pub get-put :
      (d : Dict K V) (k j : K) (v : V) → get (put d k v) j ≡ (if k == j then some v else get d j)
  unfolding get put
  get-put [] k j v = refl
  get-put ((i, w) ∷ d) k j v =
      ground (arith, get-put d k j v, e.same_iff i k, e.same_iff i j, e.same_iff k j)

  pub get-del : (d : Dict K V) (k j : K) → get (del d k) j ≡ (if k == j then none else get d j)
  unfolding get del
  get-del [] k j = ground arith
  get-del ((i, w) ∷ d) k j =
      ground (arith, get-del d k j, e.same_iff i k, e.same_iff i j, e.same_iff k j)

module _ {ℓ} {A : Type ℓ} ⦃e : Hashable A⦄ where
  -- x in s
  unfoldable pub elem : A → List A → Bool
  elem a [] = false
  elem a (x ∷ xs) = x == a || elem a xs

  -- s.add(x)
  unfoldable pub add : A → List A → List A
  unfolding elem
  add a xs = if elem a xs then xs else xs ++ a ∷ []

  -- s.discard(x)
  unfoldable pub discard : A → List A → List A
  discard a [] = []
  discard a (x ∷ xs) = let rest = discard a xs in if x == a then rest else x ∷ rest

  pub elem-append : (a : A) (xs ys : List A) → elem a (xs ++ ys) ≡ (elem a xs || elem a ys)
  unfolding elem
  elem-append a [] ys = refl
  elem-append a (x ∷ xs) ys = ground (arith, elem-append a xs ys)

  pub elem-discard : (a b : A) (xs : List A) → elem b (discard a xs) ≡ (not (a == b) && elem b xs)
  unfolding elem discard
  elem-discard a b [] = ground arith
  elem-discard a b (x ∷ xs) =
      ground (arith, elem-discard a b xs, e.same_iff x a, e.same_iff x b, e.same_iff a b)

  pub elem-add : (a b : A) (xs : List A) → elem b (add a xs) ≡ (a == b || elem b xs)
  unfolding elem add
  elem-add a b xs = elim (Bool-cases (elem a xs)) [
    | inl h ↦ ground (arith, e.same_iff a b)
    | inr h ↦ ground (arith, elem-append b xs (a ∷ []))
  ]
