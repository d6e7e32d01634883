-- ===== src/Transaction/Deadlock/Termination.antt =====
-- The search for a deadlock ends.
use mini_postgres.Base.{
  ◌≡◌, ◌≢◌, ◌∙◌, ℕ, zero, suc, ◌≤◌, ◌<◌, true, false, Option, none, some, List, [], ◌∷◌, ◌++◌, leb,
  if◌then◌else◌, nat_hashable, length, All, arith, Bool-cases, inl, inr, nat_beq, nat_beq_iff,
}
use mini_postgres.Dict
use mini_postgres.Dict.{Dict}
use mini_postgres.Transaction.Deadlock.{
  Edges, insert_sorted, sorted, list_or, targets, Search, Visit, cycle, finished, enter, leave,
  visit_all, visit, keys, nodes, victim_of, start, deadlock_victim,
}

-- How often nodes of a list were not visited.
unfoldable free : List ℕ → List ℕ → ℕ
free [] visited = 0
free (x ∷ xs) visited = let rest = free xs visited in if Dict.elem x visited then rest else suc rest

free-enter : (xs visited : List ℕ) (n : ℕ) → free xs (n ∷ visited) ≤ free xs visited
unfolding free Dict.elem
free-enter [] visited n = omega arith
free-enter (x ∷ xs) visited n = ground (arith, free-enter xs visited n)

free-enter_lt :
    (xs visited : List ℕ) (n : ℕ)
    → Dict.elem n xs ≡ true
    → Dict.elem n visited ≡ false
    → free xs (n ∷ visited) < free xs visited
unfolding free Dict.elem
free-enter_lt [] visited n h g = cc
free-enter_lt (x ∷ xs) visited n h g = elim (Bool-cases (nat_beq x n)) [
  | inl e ↦ let e' = (nat_beq_iff x n).0 e in ground (arith, free-enter xs visited n, g, e')
  | inr e ↦ ground (arith, free-enter_lt xs visited n, g)
]

free-length : (xs visited : List ℕ) → free xs visited ≤ length xs
unfolding free
free-length [] visited = omega arith
free-length (x ∷ xs) visited = ground (arith, free-length xs visited)

abbrev Among : List ℕ → List ℕ → Type 0
Among all = All (λ n. Dict.elem n all ≡ true)

insert_sorted-Among :
    (all : List ℕ) (x : ℕ) (xs : List ℕ)
    → Dict.elem x all ≡ true
    → Among all xs
    → Among all (insert_sorted x xs)
unfolding insert_sorted
insert_sorted-Among all x [] h hs = (h, tt)
insert_sorted-Among all x (y ∷ ys) h (g, hs) = elim (Bool-cases (leb x y)) [
  | inl e ↦ rw e (h, (g, hs))
  | inr e ↦ rw e (g, insert_sorted-Among all x ys h hs)
]

sorted-Among : (all xs : List ℕ) → Among all xs → Among all (sorted xs)
unfolding sorted
sorted-Among all [] hs = tt
sorted-Among all (x ∷ xs) (h, hs) = insert_sorted-Among all x (sorted xs) h (sorted-Among all xs hs)

Among-more :
    (all more xs : List ℕ)
    → ((n : ℕ) → Dict.elem n all ≡ true → Dict.elem n more ≡ true)
    → Among all xs
    → Among more xs
Among-more all more [] f hs = tt
Among-more all more (x ∷ xs) f (h, hs) = (f x h, Among-more all more xs f hs)

elem_self : (n : ℕ) (xs : List ℕ) → Dict.elem n (n ∷ xs) ≡ true
unfolding Dict.elem
elem_self n xs = ground arith

elem-cons : (n x : ℕ) (xs : List ℕ) → Dict.elem n xs ≡ true → Dict.elem n (x ∷ xs) ≡ true
unfolding Dict.elem
elem-cons n x xs h = ground arith

Among-self : (xs : List ℕ) → Among xs xs
Among-self [] = tt
Among-self (x ∷ xs) =
    (elem_self x xs, Among-more xs (x ∷ xs) xs (λ n. elem-cons n x xs) (Among-self xs))

elem-left : (n : ℕ) (xs ys : List ℕ) → Dict.elem n xs ≡ true → Dict.elem n (xs ++ ys) ≡ true
elem-left n xs ys h = Dict.elem-append n xs ys ∙ ground arith

elem-right : (n : ℕ) (xs ys : List ℕ) → Dict.elem n ys ≡ true → Dict.elem n (xs ++ ys) ≡ true
elem-right n xs ys h = Dict.elem-append n xs ys ∙ ground arith

targets-Among : (edges : Edges) (node : ℕ) → Among (nodes edges) (targets edges node)
unfolding targets nodes Dict.get
targets-Among [] node = tt
targets-Among ((k, ts) ∷ edges) node = elim (Bool-cases (nat_beq k node)) [
  | inl e ↦ rw e (
      Among-more ts _ ts (λ n h. elem-cons n k (ts ++ nodes edges) (elem-left n ts (nodes edges) h))
        (Among-self ts))
  | inr e ↦ rw e (
      Among-more (nodes edges) _ (list_or (Dict.get edges node))
        (λ n h. elem-cons n k (ts ++ nodes edges) (elem-right n ts (nodes edges) h))
        (targets-Among edges node))
]

keys-Among : (edges : Edges) → Among (nodes edges) (keys edges)
unfolding keys nodes
keys-Among [] = tt
keys-Among ((k, ts) ∷ edges) = (
  elem_self k _,
  Among-more (nodes edges) _ (keys edges)
      (λ n h. elem-cons n k (ts ++ nodes edges) (elem-right n ts (nodes edges) h))
      (keys-Among edges),
)

-- The search came to an end, and forgot no node that it had visited.
abbrev Completes : List ℕ → ℕ → Option Visit → Type 0
Completes all bound none = ⊥
Completes all bound (some (cycle c)) = Unit
Completes all bound (some (finished s)) = free all s.visited ≤ bound

Completes-le :
    (all : List ℕ) (a b : ℕ) (o : Option Visit) → a ≤ b → Completes all a o → Completes all b o
Completes-le all a b none h c = c
Completes-le all a b (some (cycle x)) h c = tt
Completes-le all a b (some (finished s)) h c = omega (arith, h, c)

leave-Completes :
    (all : List ℕ) (bound node : ℕ) (o : Option Visit)
    → Completes all bound o
    → Completes all bound (leave node o)
leave-Completes all bound node none c = c
leave-Completes all bound node (some (cycle x)) c = tt
leave-Completes all bound node (some (finished s)) c = c

module _ (all : List ℕ) (step : ℕ → Search → Option Visit) (fuel : ℕ)
    (completes : (n : ℕ) (s : Search)
      → Dict.elem n all ≡ true
      → free all s.visited < fuel
      → Completes all (free all s.visited) (step n s)) where
  visit_rest-Completes :
      (ns : List ℕ) (bound : ℕ) (o : Option Visit)
      → Completes all bound o
      → ((s : Search)
          → free all s.visited ≤ bound
          → Completes all (free all s.visited) (visit_all step ns s))
      → Completes all bound (elim o [
        | none ↦ none
        | some v ↦ elim v [ cycle c ↦ some (cycle c) | finished s' ↦ visit_all step ns s' ]
      ])
  visit_rest-Completes ns bound none c f = c
  visit_rest-Completes ns bound (some (cycle x)) c f = tt
  visit_rest-Completes ns bound (some (finished s)) c f =
      Completes-le all (free all s.visited) bound _ c (f s c)

  visit_all-Completes :
      (ns : List ℕ) (s : Search)
      → Among all ns
      → free all s.visited < fuel
      → Completes all (free all s.visited) (visit_all step ns s)
  unfolding visit_all
  visit_all-Completes [] s hs h = omega arith
  visit_all-Completes (n ∷ ns) s (g, hs) h =
      visit_rest-Completes ns (free all s.visited) (step n s) (completes n s g h)
        (λ s' k. visit_all-Completes ns s' hs (omega (arith, h, k)))

visit-Completes :
    (edges : Edges) (fuel node : ℕ) (s : Search)
    → Dict.elem node (nodes edges) ≡ true
    → free (nodes edges) s.visited < fuel
    → Completes (nodes edges) (free (nodes edges) s.visited) (visit edges fuel node s)
unfolding visit
visit-Completes edges zero node s g h = absurd (omega (arith, h))
visit-Completes edges (suc fuel) node s g h = elim (Bool-cases (Dict.elem node s.active)) [
  | inl e ↦ rw e tt
  | inr e ↦ elim (Bool-cases (Dict.elem node s.visited)) [
    | inl k ↦ rw (e, k) (omega arith)
    | inr k ↦
        let all = nodes edges in
        let less = free-enter_lt all s.visited node g k in
        rw (e, k)
          (leave-Completes all (free all s.visited) node _ (
            Completes-le all (free all (node ∷ s.visited)) (free all s.visited) _
              (free-enter all s.visited node)
              (visit_all-Completes all (visit edges fuel) fuel (visit-Completes edges fuel)
                (sorted (targets edges node)) (enter node s)
                (sorted-Among all (targets edges node) (targets-Among edges node))
                (omega (arith, h, less)))))
  ]
]

found : (all : List ℕ) (bound : ℕ) (o : Option Visit) → Completes all bound o → victim_of o ≢ none
found all bound none h e = elim h [ ]
found all bound (some (cycle c)) h e = cc
found all bound (some (finished s)) h e = cc

-- The search for a deadlock ends, on every graph: its fuel never runs out.
pub deadlock_victim_ends : (edges : Edges) → deadlock_victim edges ≢ none
unfolding deadlock_victim
deadlock_victim_ends edges =
    let all = nodes edges in
    let fuel = suc (length all) in
    let enough : free all [] ≤ length all = free-length all [] in
    found all (free all []) _ (
      visit_all-Completes all (visit edges fuel) fuel (visit-Completes edges fuel)
        (sorted (keys edges)) start (sorted-Among all (keys edges) (keys-Among edges))
        (omega (arith, enough)))
