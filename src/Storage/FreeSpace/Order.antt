-- ===== src/Storage/FreeSpace/Order.antt =====
-- The order in which FreeSpaceMap offers pages, and that its sort keeps it and every entry.
use mini_postgres.Base.{
  ℕ, ◌≤◌, ◌<◌, ◌≡◌, refl, subst, ◌↔◌, ◌⊎◌, inl, inr, true, false, List, [], ◌∷◌, arith, Bool-cases,
}
use mini_postgres.Storage.FreeSpace.{before, insert, sorted}

-- A page and its category are among those listed.
pub data Listed (x : ℕ × ℕ) : List (ℕ × ℕ) → Type 0 where
  here : (xs : List (ℕ × ℕ)) → Listed x (x ∷ xs)
  there : (y : ℕ × ℕ) (xs : List (ℕ × ℕ)) → Listed x xs → Listed x (y ∷ xs)

-- Each entry goes before all that follow it.
abbrev pub IsSorted : List (ℕ × ℕ) → Type 0
IsSorted [] = Unit
IsSorted (x ∷ xs) = ((y : ℕ × ℕ) → Listed y xs → before x y ≡ true) × IsSorted xs

-- Each entry has a higher category than any that follows it, or the same category and no higher page.
abbrev pub Ordered : List (ℕ × ℕ) → Type 0
Ordered [] = Unit
Ordered (x ∷ xs) =
    ((y : ℕ × ℕ) → Listed y xs → (y.0 < x.0) ⊎ ((y.0 ≡ x.0) × (x.1 ≤ y.1))) × Ordered xs

before-cases : (x y : ℕ × ℕ) → before x y ≡ true → (y.0 < x.0) ⊎ ((y.0 ≡ x.0) × (x.1 ≤ y.1))
unfolding before
before-cases (c, p) (d, q) h = ground arith

pub IsSorted-Ordered : (xs : List (ℕ × ℕ)) → IsSorted xs → Ordered xs
IsSorted-Ordered [] o = tt
IsSorted-Ordered (x ∷ xs) (f, o) = (λ y l. before-cases x y (f y l), IsSorted-Ordered xs o)

pub Listed-cons : (x y : ℕ × ℕ) (xs : List (ℕ × ℕ)) → Listed x (y ∷ xs) → (x ≡ y) ⊎ Listed x xs
Listed-cons x _ xs (here _) = inl refl
Listed-cons x y xs (there _ _ l) = inr l

insert-here : (x : ℕ × ℕ) (ys : List (ℕ × ℕ)) → Listed x (insert x ys)
unfolding insert
insert-here x [] = here []
insert-here x (y ∷ ys) = elim (Bool-cases (before x y)) [
  | inl e ↦ rw e (here (y ∷ ys))
  | inr e ↦ rw e (there y (insert x ys) (insert-here x ys))
]

insert-there : (x z : ℕ × ℕ) (ys : List (ℕ × ℕ)) → Listed z ys → Listed z (insert x ys)
unfolding insert
insert-there x z [] l = elim l [ ]
insert-there x z (y ∷ ys) l = elim (Bool-cases (before x y)) [
  | inl e ↦ rw e (there x (y ∷ ys) l)
  | inr e ↦ rw e (elim (Listed-cons z y ys l) [
    | inl e' ↦ subst (λ w. Listed z (w ∷ insert x ys)) e' (here (insert x ys))
    | inr l' ↦ there y (insert x ys) (insert-there x z ys l')
  ])
]

insert-from : (x z : ℕ × ℕ) (ys : List (ℕ × ℕ)) → Listed z (insert x ys) → Listed z (x ∷ ys)
unfolding insert
insert-from x z [] l = l
insert-from x z (y ∷ ys) l = elim (Bool-cases (before x y)) [
  | inl e ↦ rw e at l
  | inr e ↦ elim (Listed-cons z y (insert x ys) (rw e at l)) [
    | inl e' ↦ there x (y ∷ ys) (subst (λ w. Listed z (w ∷ ys)) e' (here ys))
    | inr l' ↦ elim (Listed-cons z x ys (insert-from x z ys l')) [
      | inl e' ↦ subst (λ w. Listed z (w ∷ y ∷ ys)) e' (here (y ∷ ys))
      | inr l'' ↦ there x (y ∷ ys) (there y ys l'')
    ]
  ]
]

before_total : (x y : ℕ × ℕ) → before x y ≡ false → before y x ≡ true
unfolding before
before_total (c, p) (d, q) h = ground arith

before_trans : (x y z : ℕ × ℕ) → before x y ≡ true → before y z ≡ true → before x z ≡ true
unfolding before
before_trans (c, p) (d, q) (e, r) h k = ground arith

insert-IsSorted : (x : ℕ × ℕ) (ys : List (ℕ × ℕ)) → IsSorted ys → IsSorted (insert x ys)
unfolding insert
insert-IsSorted x [] o = (λ y l. elim l [ ], tt)
insert-IsSorted x (y ∷ ys) (f, o) = elim (Bool-cases (before x y)) [
  | inl e ↦ rw e (
    λ z l. elim (Listed-cons z y ys l) [
      | inl e' ↦ rw e' e
      | inr l' ↦ before_trans x y z e (f z l')
    ],
    (f, o),
  )
  | inr e ↦ rw e (
    λ z l. elim (Listed-cons z x ys (insert-from x z ys l)) [
      | inl e' ↦ rw e' (before_total x y e)
      | inr l' ↦ f z l'
    ],
    insert-IsSorted x ys o,
  )
]

pub sorted-IsSorted : (xs : List (ℕ × ℕ)) → IsSorted (sorted xs)
unfolding sorted
sorted-IsSorted [] = tt
sorted-IsSorted (x ∷ xs) = insert-IsSorted x (sorted xs) (sorted-IsSorted xs)

pub sorted-Listed : (z : ℕ × ℕ) (xs : List (ℕ × ℕ)) → Listed z (sorted xs) ↔ Listed z xs
unfolding sorted
sorted-Listed z [] = (λ l. l, λ l. l)
sorted-Listed z (x ∷ xs) = (
  λ l. elim (Listed-cons z x (sorted xs) (insert-from x z (sorted xs) l)) [
    | inl e ↦ subst (λ w. Listed z (w ∷ xs)) e (here xs)
    | inr l' ↦ there x xs ((sorted-Listed z xs).0 l')
  ],
  λ l. elim (Listed-cons z x xs l) [
    | inl e ↦ subst (λ w. Listed z (insert w (sorted xs))) e (insert-here z (sorted xs))
    | inr l' ↦ insert-there x z (sorted xs) ((sorted-Listed z xs).1 l')
  ],
)
