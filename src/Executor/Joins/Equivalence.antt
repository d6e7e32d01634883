-- ===== src/Executor/Joins/Equivalence.antt =====
-- A hash join returns what the nested loop join returns.
use mini_postgres.Base.{
  append_nil, append_assoc, ◌≡◌, refl, sym, ◌∙◌, ap, subst, inl, inr, ℕ, ℤ, Bool, true, false, not,
  ◌&&◌, Option, none, some, List, [], ◌∷◌, ◌++◌, if◌then◌else◌, Result, ok, err, ◌>>=◌, Hashable,
  All, arith, Bool-cases,
}
use mini_postgres.Dict.{get}
use mini_postgres.Values.{Floats, DataType, Scalar, eq}
use mini_postgres.Values.Expressions.{
  ColumnBinding, BoundExpr, bound_column, bound_binary, comparison, is_null,
}
use mini_postgres.Planner.Rules.{is_true}
use mini_postgres.Executor.Rows.{
  ComputedKey, Row, Rows, no_more, raises, row, Executor, drain, merge, evaluate_on,
  binding_hashable,
}
use mini_postgres.Executor.Keys.{key_equal, append_to, listed, listed-append_to}
use mini_postgres.Executor.Keys.Equality.{IsExact, key_equal-IsPartial}
use mini_postgres.Executor.Joins.{
  emit, match_rows, nested_rows, nested_loop_join, build_hash, passes, matches_of, matches_at,
  probe_rows, hash_join,
}
use mini_postgres.Values.Expressions.Shapes.{shape}
use mini_postgres.Executor.Joins.Merging.{
  AllRows, HasColumn, merge-IsMerged, evaluate_on-column, evaluate_on-comparison, get-append,
  get-append_none, get-overlaps,
}
use mini_postgres.Executor.Joins.Matching.{
  Opens, All-drain, AllRows-map, keys_match, compare-keys_match,
}

and_true : (a b : Bool) → (not a && b) ≡ true → (a ≡ false) × (b ≡ true)
and_true a b h = ground arith

skipped :
    {A : Type 0} (a b : Bool) (x y : List A)
    → (not a && b) ≡ false
    → (if a then [] else if b then x else y) ≡ (if a then [] else y)
skipped a b x y h = ground arith

module _ {F : Type 0} (floats : Floats F) (equals_int : F → ℤ → Bool)
    (exact : IsExact floats equals_int) where
  module _ ⦃keys : Hashable (ComputedKey F)⦄ (c d : ColumnBinding) (x y : List ℕ) (t u : DataType)
      (n n' i : Bool) where
    abbrev condition : BoundExpr F
    condition = bound_binary (bound_column c x t n) (comparison eq) (bound_column d y t n') u i

    abbrev pub Mergeable : Row F → Row F → Type 0
    Mergeable l r = (m : Row F) × (merge l r ≡ ok m)

    abbrev matching : Scalar F → Scalar F → Bool
    matching = keys_match (key_equal floats equals_int)

    condition-merged :
        (l r m : Row F) (p : HasColumn c t l) (q : HasColumn d t r)
        → merge l r ≡ ok m
        → (v : Scalar F) × (evaluate_on floats condition m ≡ ok v)
          × (is_true v ≡ matching p.cell q.cell)
    unfolding get
    condition-merged l r m p q h =
        let g = merge-IsMerged l r m h in
        let plain : m.computed ≡ [] = g.computed ∙ rw (p.plain, q.plain) refl in
        let left : get m.cells c ≡ some p.cell =
          ap (λ cs. get cs c) g.cells ∙ get-append l.cells r.cells c p.cell p.here in
        let right : get m.cells d ≡ some q.cell =
          ap (λ cs. get cs d) g.cells
          ∙ get-append_none l.cells r.cells d (get-overlaps l.cells r.cells d q.cell g.apart q.here)
          ∙ q.here in
        let (v, e, e') =
          compare-keys_match floats equals_int exact t p.cell q.cell (shape t p.cell p.typed)
            (shape t q.cell q.typed) in
        (
          v,
          evaluate_on-comparison floats c d x y t t u n n' i m p.cell q.cell plain left right ∙ e,
          e',
        )

    match_rows-row :
        (l r m : Row F) (p : HasColumn c t l) (q : HasColumn d t r) (rs : List (Row F))
        (rest : Rows (Row F))
        → merge l r ≡ ok m
        → match_rows floats condition l (r ∷ rs) rest ≡ (
            if matching p.cell q.cell
            then row m (match_rows floats condition l rs rest)
            else match_rows floats condition l rs rest)
    unfolding match_rows
    match_rows-row l r m p q rs rest h =
        let (v, e, e') = condition-merged l r m p q h in rw (match_rows, h, e, e') refl

    matches_of-row :
        (l r m : Row F) (p : HasColumn c t l) (q : HasColumn d t r) (rs ms : List (Row F))
        → merge l r ≡ ok m
        → matches_of floats equals_int (some condition) l rs ≡ ok ms
        → matches_of floats equals_int (some condition) l (r ∷ rs)
          ≡ ok (if matching p.cell q.cell then m ∷ ms else ms)
    unfolding matches_of passes
    matches_of-row l r m p q rs ms h g =
        let (v, e, e') = condition-merged l r m p q h in rw (matches_of, h, e, g, e') refl

    abbrev equal : Scalar F → Scalar F → Bool
    equal = key_equal floats equals_int

    -- The rows that the table keeps under a key.
    abbrev has_key : Scalar F → Option (Scalar F) → Bool
    has_key q none = false
    has_key q (some w) = not (is_null w) && equal w q

    candidates_in : Scalar F → List (Row F) → List (Row F)
    unfolding get
    candidates_in q [] = []
    candidates_in q (r ∷ rs) =
        let rest = candidates_in q rs in if has_key q (get r.cells d) then r ∷ rest else rest

    -- What the inner loop of the nested loop join finds for a left row, the candidates give too.
    abbrev Matched : Row F → Scalar F → List (Row F) → Type 0
    Matched l q rs =
        (ms : List (Row F)) × (matches_of floats equals_int (some condition) l
            (if is_null q then [] else candidates_in q rs)
          ≡ ok ms)
        × ((rest : Rows (Row F)) → match_rows floats condition l rs rest ≡ emit ms rest)

    matches_of-candidates_in :
        (l : Row F) (p : HasColumn c t l) (rs : List (Row F))
        → All (HasColumn d t) rs
        → All (Mergeable l) rs
        → Matched l p.cell rs
    unfolding matches_of match_rows candidates_in
    matches_of-candidates_in l p [] hs gs = ([], ground arith, λ rest. refl)
    matches_of-candidates_in l p (r ∷ rs) (q, hs) ((m, g), gs) =
        let (ms, e, e') = matches_of-candidates_in l p rs hs gs in
        elim (Bool-cases (matching p.cell q.cell)) [
          | inl b ↦
              let (f, k) = and_true _ _ b in
              let e'' =
                subst
                  (λ z.
                    matches_of floats equals_int (some condition) l
                      (if z then [] else candidates_in p.cell rs)
                    ≡ ok ms)
                  f e in
              (
                m ∷ ms,
                rw (f, q.here, k)
                    (matches_of-row l r m p q (candidates_in p.cell rs) ms g e'' ∙ rw b refl),
                λ rest. match_rows-row l r m p q rs rest g ∙ rw b (ap (row m) (e' rest)),
              )
          | inr b ↦ (
            ms,
            rw (q.here) (
                ap (matches_of floats equals_int (some condition) l)
                  (skipped (is_null p.cell) _ _ _ b)
                ∙ e),
            λ rest. match_rows-row l r m p q rs rest g ∙ rw b (e' rest),
          )
        ]

    -- The table that the hash join builds, if the right rows come without an error.
    abbrev Built : Rows (Row F) → List (Scalar F × List (Row F)) → Result (List (Row F)) → Type 0
    Built rs table (err e) = build_hash floats equals_int (bound_column d y t n') rs table ≡ err e
    Built rs table (ok rights) =
        (built : List (Scalar F × List (Row F))) × (build_hash floats equals_int
            (bound_column d y t n') rs table
          ≡ ok built)
        × ((q : Scalar F) → listed equal built q ≡ listed equal table q ++ candidates_in q rights)

    kept : Scalar F → Row F → List (Scalar F × List (Row F)) → List (Scalar F × List (Row F))
    kept v r table = if is_null v then table else append_to equal table v r

    listed-kept :
        (v k : Scalar F) (r : Row F) (table : List (Scalar F × List (Row F))) (rest : List (Row F))
        → listed equal (kept v r table) k ++ rest
          ≡ listed equal table k ++ (if has_key k (some v) then r ∷ rest else rest)
    unfolding kept
    listed-kept v k r table rest = elim (Bool-cases (is_null v)) [
      | inl h ↦ rw h refl
      | inr h ↦ elim (Bool-cases (equal v k)) [
        | inl g ↦
            rw
              (
                h,
                listed-append_to equal (key_equal-IsPartial floats equals_int exact) table v k r,
                g,
              )
              (append_assoc (listed equal table k) (r ∷ []) rest)
        | inr g ↦
            rw
              (
                h,
                listed-append_to equal (key_equal-IsPartial floats equals_int exact) table v k r,
                g,
              )
              refl
      ]
    ]

    Built-row :
        (r : Row F) (rs : Rows (Row F)) (table : List (Scalar F × List (Row F)))
        (q : HasColumn d t r)
        → (o : Result (List (Row F))) → Built rs (kept q.cell r table) o
        → Built (row r rs) table (o >>= λ rights. ok (r ∷ rights))
    unfolding build_hash kept candidates_in
    Built-row r rs table q (err e) h =
        rw (build_hash, evaluate_on-column floats d y t n' r q.cell q.plain q.here) h
    Built-row r rs table q (ok rights) (built, h, law) = (
      built,
      rw (build_hash, evaluate_on-column floats d y t n' r q.cell q.plain q.here) h,
      λ k. law k ∙ rw (q.here) (listed-kept q.cell k r table (candidates_in k rights)),
    )

    build_hash-Built :
        (rs : Rows (Row F)) (table : List (Scalar F × List (Row F)))
        → AllRows (HasColumn d t) rs
        → Built rs table (drain rs)
    unfolding build_hash drain candidates_in
    build_hash-Built no_more table hs = (table, refl, λ q. sym (append_nil (listed equal table q)))
    build_hash-Built (raises e) table hs = refl
    build_hash-Built (row r rs) table (q, hs) =
        Built-row r rs table q (drain rs) (build_hash-Built rs (kept q.cell r table) hs)

    probe_rows-nested_rows :
        (rights : List (Row F)) (table : List (Scalar F × List (Row F)))
        → ((q : Scalar F) → listed equal table q ≡ candidates_in q rights)
        → All (HasColumn d t) rights
        → (ls : Rows (Row F)) → AllRows (HasColumn c t) ls
        → AllRows (λ l. All (Mergeable l) rights) ls
        → probe_rows floats equals_int (bound_column c x t n) (some condition) table ls
          ≡ nested_rows floats condition rights ls
    unfolding probe_rows nested_rows matches_at
    probe_rows-nested_rows rights table law hs no_more gs ks = refl
    probe_rows-nested_rows rights table law hs (raises e) gs ks = refl
    probe_rows-nested_rows rights table law hs (row l ls) (p, gs) (k, ks) =
        let (ms, e, e') = matches_of-candidates_in l p rights hs k in
        rw (probe_rows, evaluate_on-column floats c x t n l p.cell p.plain p.here, law p.cell, e)
          (ap (emit ms) (probe_rows-nested_rows rights table law hs ls gs ks)
            ∙ sym (e' (nested_rows floats condition rights ls)))

    joined :
        (ls rs : Rows (Row F)) (o : Result (List (Row F)))
        → Built rs [] o
        → AllRows (HasColumn c t) ls
        → ((rights : List (Row F)) → o ≡ ok rights → All (HasColumn d t) rights)
        → ((rights : List (Row F)) → o ≡ ok rights → AllRows (λ l. All (Mergeable l) rights) ls)
        → (build_hash floats equals_int (bound_column d y t n') rs [] >>= λ table.
            ok (probe_rows floats equals_int (bound_column c x t n) (some condition) table ls))
          ≡ (o >>= λ rights. ok (nested_rows floats condition rights ls))
    unfolding listed
    joined ls rs (err e) h gs hs ks = rw h refl
    joined ls rs (ok rights) (table, h, law) gs hs ks =
        rw h
          (ap ok (probe_rows-nested_rows rights table law (hs rights refl) ls gs (ks rights refl)))

    -- On rows of tables alone, a hash join on two columns of one data type, with the condition that
    -- they are equal, opens and returns the same rows in the same order, or raises the same error at
    -- the same place, as the nested loop join with that condition. Its left rows have the one column
    -- and its right rows the other, with a value of the data type or null, and the rows of the two
    -- inputs can be merged. Equality of floats is symmetric and transitive, and that of floats and
    -- integers agrees with it.
    pub hash_join-nested_loop_join :
        (left right : Executor (Row F))
        → Opens (HasColumn c t) left
        → Opens (HasColumn d t) right
        → Opens (λ l. Opens (Mergeable l) right) left
        → hash_join floats equals_int left right
            (bound_column c x t n)
            (bound_column d y t n')
            (some condition)
          ≡ nested_loop_join floats left right condition
    unfolding hash_join nested_loop_join
    hash_join-nested_loop_join (err e) right gs hs ks = refl
    hash_join-nested_loop_join (ok ls) (err e) gs hs ks = refl
    hash_join-nested_loop_join (ok ls) (ok rs) gs hs ks =
        joined ls rs (drain rs) (build_hash-Built rs [] hs) gs
          (λ rights e. All-drain _ rs rights hs e)
          (λ rights e. AllRows-map ls (λ l k. All-drain _ rs rights k e) ks)
