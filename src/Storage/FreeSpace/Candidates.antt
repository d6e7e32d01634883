-- ===== src/Storage/FreeSpace/Candidates.antt =====
-- What FreeSpaceMap offers for a number of bytes.
use native.Mathlib.Nat.{le-div_iff_mul-le, div-mul-le_self}
use mini_postgres.Base.{
  ℕ, zero, suc, ◌+◌, ◌-◌, ◌*◌, ◌/◌, ◌≤◌, ◌<◌, ◌≡◌, refl, sym, ap, subst, ◌↔◌, inl, inr, true, false,
  some, List, [], ◌∷◌, ◌++◌, ◌≢◌, ◌∙◌, map, arith, ltb, leb, ok, Bool-cases, length, get_elem?, set,
  replicate, get_elem?-set_self, get_elem?-set_ne, length-append, length-replicate,
}
use mini_postgres.Storage.FreeSpace.{
  FreeSpaceMap, category, padded, record_free, fits, sorted, candidate_pages,
}
use mini_postgres.Storage.FreeSpace.Order.{
  here, there, Listed, Ordered, Listed-cons, IsSorted-Ordered, sorted-IsSorted, sorted-Listed,
}

category_mono : (maximum a b : ℕ) → 0 < maximum → a ≤ b → category maximum a ≤ category maximum b
unfolding category
category_mono m a b pos h =
    let q : ℕ = (a * 255 + m - 1) / m in
    let f : q * m ≤ a * 255 + m - 1 = div-mul-le_self (a * 255 + m - 1) m in
    let g : q ≤ (b * 255 + m - 1) / m = (le-div_iff_mul-le pos).1 (omega (arith, f)) in
    ground (arith, g)

fits-offers :
    (r i c k : ℕ) (cs : List ℕ) → get_elem? cs k ≡ some c → r ≤ c → Listed (c, i + k) (fits r i cs)
unfolding fits
fits-offers r i c k [] h le = cc
fits-offers r i c zero (d ∷ cs) h le =
    let e : d ≡ c = cc in
    let e' : leb r d ≡ true = ground arith in
    let e'' : i ≡ i + 0 = omega arith in
    rw e' (
      subst (λ x. Listed (c, x) ((d, i) ∷ fits r (i + 1) cs)) e''
        (subst (λ x. Listed (x, i) ((d, i) ∷ fits r (i + 1) cs)) e (here (fits r (i + 1) cs))))
fits-offers r i c (suc k) (d ∷ cs) h le =
    let e : i + 1 + k ≡ i + suc k = omega arith in
    let l = subst (λ x. Listed (c, x) (fits r (i + 1) cs)) e (fits-offers r (i + 1) c k cs h le) in
    elim (Bool-cases (leb r d)) [
      | inl e' ↦ rw e' (there (d, i) (fits r (i + 1) cs) l)
      | inr e' ↦ rw e' l
    ]

fits-only :
    (r i c p : ℕ) (cs : List ℕ)
    → Listed (c, p) (fits r i cs)
    → (k : ℕ) × (p ≡ i + k) × (get_elem? cs k ≡ some c) × (r ≤ c)
unfolding fits
fits-only r i c p [] l = elim l [ ]
fits-only r i c p (d ∷ cs) l = elim (Bool-cases (leb r d)) [
  | inl e ↦ elim (Listed-cons (c, p) (d, i) (fits r (i + 1) cs) (rw e at l)) [
    | inl e' ↦ (
      0,
      omega (arith, ap (λ x. x.1) e'),
      ap some (sym (ap (λ x. x.0) e')),
      ground (arith, ap (λ x. x.0) e'),
    )
    | inr l' ↦ let (k, x, y, z) = fits-only r (i + 1) c p cs l' in (suc k, omega (arith, x), y, z)
  ]
  | inr e ↦
      let (k, x, y, z) = fits-only r (i + 1) c p cs (rw e at l) in (suc k, omega (arith, x), y, z)
]

-- For bytes within a page's capacity, candidate_pages returns exactly the pages whose category is at
-- least the category of the bytes, by descending category and then ascending page ID.
pub candidate_pages-Ordered :
    (m : FreeSpaceMap) (required : ℕ)
    → required ≤ m.maximum_free_bytes
    → (xs : List (ℕ × ℕ)) × (candidate_pages m required ≡ map (λ x. x.1) xs)
      × Ordered xs
      × ((c p : ℕ)
          → Listed (c, p) xs
            ↔ ((get_elem? m.categories p ≡ some c) × (category m.maximum_free_bytes required ≤ c)))
unfolding candidate_pages
candidate_pages-Ordered m required le =
    let r : ℕ = category m.maximum_free_bytes required in
    let fitting : List (ℕ × ℕ) = fits r 0 m.categories in
    let e : ltb m.maximum_free_bytes required ≡ false = ground arith in
    (
      sorted fitting,
      rw e refl,
      IsSorted-Ordered (sorted fitting) (sorted-IsSorted fitting),
      λ c p. (
        λ l.
            let (k, x, y, z) =
              fits-only r 0 c p m.categories ((sorted-Listed (c, p) fitting).0 l) in
            (subst (λ q. get_elem? m.categories q ≡ some c) (omega (arith, x)) y, z),
        λ h. (sorted-Listed (c, p) fitting).1 (
            subst (λ q. Listed (c, q) fitting) (omega arith)
              (fits-offers r 0 c p m.categories h.0 h.1)),
      ),
    )

record_free-eq-ok :
    (m m' : FreeSpaceMap) (page_id free_bytes : ℕ)
    → record_free m page_id free_bytes ≡ ok m'
    → (free_bytes ≤ m.maximum_free_bytes)
      × (m'.maximum_free_bytes ≡ m.maximum_free_bytes)
      × (m'.categories
          ≡ set (padded m.categories page_id) page_id (category m.maximum_free_bytes free_bytes))
unfolding record_free
record_free-eq-ok m m' page_id free_bytes h = (ground arith, ground arith, ground arith)

length-padded : (cs : List ℕ) (page_id : ℕ) → page_id < length (padded cs page_id)
unfolding padded
length-padded cs page_id = omega (
  arith,
  length-append cs (replicate (page_id + 1 - length cs) 0),
  length-replicate {A = ℕ} (page_id + 1 - length cs) 0,
)

get_elem?-append :
    (xs ys : List ℕ) (p c : ℕ) → get_elem? xs p ≡ some c → get_elem? (xs ++ ys) p ≡ some c
get_elem?-append [] ys p c h = absurd (cc)
get_elem?-append (x ∷ xs) ys zero c h = h
get_elem?-append (x ∷ xs) ys (suc p) c h = get_elem?-append xs ys p c h

padded-keeps :
    (cs : List ℕ) (page_id p c : ℕ)
    → get_elem? cs p ≡ some c
    → get_elem? (padded cs page_id) p ≡ some c
unfolding padded
padded-keeps cs page_id p c h = get_elem?-append cs (replicate (page_id + 1 - length cs) 0) p c h

-- After a page was recorded with some free bytes, candidate_pages lists it for every number of bytes
-- up to that, among exactly the pages whose stored category is enough, by descending category and
-- then ascending page ID; it stands there by the category of what was recorded, which is its stored
-- one, and every other page of the map keeps its category. The map's page capacity is not 0.
pub record_free-Listed :
    (m m' : FreeSpaceMap) (page_id free_bytes required : ℕ)
    → 0 < m.maximum_free_bytes
    → record_free m page_id free_bytes ≡ ok m'
    → required ≤ free_bytes
    → (xs : List (ℕ × ℕ)) × (candidate_pages m' required ≡ map (λ x. x.1) xs)
      × Ordered xs
      × ((c p : ℕ)
          → Listed (c, p) xs ↔ (
              (get_elem? m'.categories p ≡ some c) × (category m'.maximum_free_bytes required ≤ c)))
      × Listed (category m.maximum_free_bytes free_bytes, page_id) xs
      × ((p c : ℕ)
          → p ≢ page_id
          → get_elem? m.categories p ≡ some c
          → get_elem? m'.categories p ≡ some c)
record_free-Listed m m' page_id free_bytes required pos h le =
    let (bound, same, e) = record_free-eq-ok m m' page_id free_bytes h in
    let c : ℕ = category m.maximum_free_bytes free_bytes in
    let stored : get_elem? m'.categories page_id ≡ some c = rw e (
      get_elem?-set_self (padded m.categories page_id) page_id c
        (length-padded m.categories page_id)) in
    let (xs, x, o, l) = candidate_pages-Ordered m' required (omega (arith, same)) in
    let enough : category m'.maximum_free_bytes required ≤ c =
      rw same (category_mono m.maximum_free_bytes required free_bytes pos le) in
    (
      xs,
      x,
      o,
      l,
      (l c page_id).1 (stored, enough),
      λ p d ne g. rw e (
          get_elem?-set_ne (padded m.categories page_id) c (λ k. ne (sym k))
          ∙ padded-keeps m.categories page_id p d g),
    )
