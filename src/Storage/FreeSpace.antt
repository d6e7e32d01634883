-- ===== src/Storage/FreeSpace.antt =====
-- storage/free_space.py: FreeSpaceMap, one category byte per heap page. The sidecar file that record
-- writes holds the categories, byte by byte, so the map's state is the file's too.
pub mod Candidates
pub mod Order
use mini_postgres.Base.{
  ℕ, zero, suc, ◌+◌, ◌-◌, ◌*◌, ◌/◌, min, Bool, ◌&&◌, ◌||◌, List, [], ◌∷◌, ◌++◌, map, ltb, leb,
  nat_beq, if◌then◌else◌, Result, ok, err, value_error, length, set, replicate,
}

pub record FreeSpaceMap : Type 0 where
  pub maximum_free_bytes : ℕ
  pub categories : List ℕ

-- FreeSpaceMap(path, maximum_free_bytes, categories)
unfoldable pub new_map : ℕ → List ℕ → Result FreeSpaceMap
new_map zero categories = err value_error
new_map (suc n) categories = ok (record { maximum_free_bytes = suc n; categories = categories })

unfoldable pub page_count : FreeSpaceMap → ℕ
page_count m = length m.categories

-- _category
unfoldable pub category : ℕ → ℕ → ℕ
category maximum free_bytes =
    if nat_beq free_bytes 0 then 0 else min 255 ((free_bytes * 255 + maximum - 1) / maximum)

-- the `while` of record: zeros up to the page
unfoldable pub padded : List ℕ → ℕ → List ℕ
padded categories page_id = categories ++ replicate (page_id + 1 - length categories) 0

unfoldable pub record_free : FreeSpaceMap → ℕ → ℕ → Result FreeSpaceMap
unfolding category padded
record_free m page_id free_bytes =
    if ltb m.maximum_free_bytes free_bytes
    then err value_error
    else ok (record m {
      categories =
          set (padded m.categories page_id) page_id (category m.maximum_free_bytes free_bytes);
    })

-- the generator of candidate_pages, from a page on
unfoldable pub fits : ℕ → ℕ → List ℕ → List (ℕ × ℕ)
fits required page_id [] = []
fits required page_id (c ∷ cs) =
    let rest = fits required (page_id + 1) cs in
    if leb required c then (c, page_id) ∷ rest else rest

-- key=(-category, page_id), compared with <=
unfoldable pub before : ℕ × ℕ → ℕ × ℕ → Bool
before (c, p) (d, q) = ltb d c || nat_beq c d && leb p q

unfoldable pub insert : ℕ × ℕ → List (ℕ × ℕ) → List (ℕ × ℕ)
unfolding before
insert x [] = x ∷ []
insert x (y ∷ ys) = let rest = insert x ys in if before x y then x ∷ y ∷ ys else y ∷ rest

-- sorted(candidates, key=...)
unfoldable pub sorted : List (ℕ × ℕ) → List (ℕ × ℕ)
unfolding insert
sorted [] = []
sorted (x ∷ xs) = insert x (sorted xs)

unfoldable pub candidate_pages : FreeSpaceMap → ℕ → List ℕ
unfolding category fits sorted
candidate_pages m required_bytes =
    if ltb m.maximum_free_bytes required_bytes
    then []
    else map (λ x. x.1)
        (sorted (fits (category m.maximum_free_bytes required_bytes) 0 m.categories))
