-- ===== src/Executor/Aggregates/Groups.antt =====
-- Grouping puts every row into one group, that of its key.
use mini_postgres.Base.{
  ◌⊎◌, append_nil, append_assoc, inl, inr, ◌≡◌, ◌≢◌, refl, sym, ◌∙◌, subst, ℕ, ◌+◌, Bool, false,
  List, [], ◌∷◌, ◌++◌, if◌then◌else◌, Result, ok, err, >>=-eq-ok, ok_injective, Hashable, All,
  length, length-append, arith, Bool-cases,
}
use mini_postgres.Values.{Floats, Scalar}
use mini_postgres.Values.Expressions.{BoundExpr}
use mini_postgres.Executor.Rows.{
  ComputedKey, Row, Rows, no_more, raises, row, Executor, from_list, drain,
}
use mini_postgres.Executor.Keys.{tuple_equal, append_to, listed, IsPartial, listed-append_to}
use mini_postgres.Executor.Keys.Equality.{IsExact, IsIdentity, tuple_equal-IsPartial}
use mini_postgres.Executor.Aggregates.Results.{IsKeyed, AreResults, group_results-AreResults}
use mini_postgres.Executor.Aggregates.{
  Mixed, Groups, group_key, group_rows, with_default, group_results, aggregate_rows,
}

module _ {K A : Type 0} where
  -- How many rows there are in all groups.
  unfoldable pub total : List (K × List A) → ℕ
  total [] = 0
  total ((k, as') ∷ t) = length as' + total t

  total-append_to :
      (same : K → K → Bool) (t : List (K × List A)) (k : K) (a : A)
      → total (append_to same t k a) ≡ total t + 1
  unfolding total append_to
  total-append_to same [] k a = refl
  total-append_to same ((j, as') ∷ t) k a =
      ground (arith, total-append_to same t k a, length-append as' (a ∷ []))

  -- A group is not empty, and its first element has its key.
  abbrev pub StartsWith : (A → Result K) → K × List A → Type 0
  StartsWith key_of (k, []) = ⊥
  StartsWith key_of (k, a ∷ as') = key_of a ≡ ok k

  StartsWith-append :
      (key_of : A → Result K) (k : K) (as' : List A) (a : A)
      → StartsWith key_of (k, as')
      → StartsWith key_of (k, as' ++ a ∷ [])
  StartsWith-append key_of k [] a h = absurd h
  StartsWith-append key_of k (b ∷ as') a h = h

  append_to-StartsWith :
      (key_of : A → Result K) (same : K → K → Bool) (t : List (K × List A)) (k : K) (a : A)
      → key_of a ≡ ok k
      → All (StartsWith key_of) t
      → All (StartsWith key_of) (append_to same t k a)
  unfolding append_to
  append_to-StartsWith key_of same [] k a g hs = (g, tt)
  append_to-StartsWith key_of same ((j, as') ∷ t) k a g (h, hs) = elim (Bool-cases (same j k)) [
    | inl e ↦ rw e (StartsWith-append key_of j as' a h, hs)
    | inr e ↦ rw e (h, append_to-StartsWith key_of same t k a g hs)
  ]

zero_add : {n m : ℕ} → n ≡ 0 + m → n ≡ m
zero_add h = omega (arith, h)

module _ {F : Type 0} (floats : Floats F) (mixed : Mixed F)
    (exact : IsExact floats mixed.equals_int) (identity : IsIdentity mixed.is_same)
    ⦃keys : Hashable (ComputedKey F)⦄ (group_by calls : List (BoundExpr F)) where
  abbrev same : List (Scalar F) → List (Scalar F) → Bool
  same = tuple_equal floats mixed.equals_int mixed.is_same

  partial : IsPartial same
  partial = tuple_equal-IsPartial floats mixed.equals_int exact mixed.is_same identity

  abbrev is_at : List (Scalar F) → Result (List (Scalar F)) → Bool
  is_at q (err e) = false
  is_at q (ok key) = same key q

  -- The rows whose key equals the given one, in order.
  unfoldable pub rows_at : List (Scalar F) → List (Row F) → List (Row F)
  rows_at q [] = []
  rows_at q (r ∷ rs) =
      let rest = rows_at q rs in
      if is_at q (group_key floats mixed group_by r) then r ∷ rest else rest

  -- The groups hold the rows, and those of the groups from before.
  pub record IsGrouped (rows : List (Row F)) (groups before : Groups F) : Type 0 where
    pub counted : total groups ≡ total before + length rows
    pub keyed :
        All (StartsWith (group_key floats mixed group_by)) before
        → All (StartsWith (group_key floats mixed group_by)) groups
    pub at_key :
        (q : List (Scalar F)) → listed same groups q ≡ listed same before q ++ rows_at q rows

  IsGrouped-self : (before : Groups F) → IsGrouped [] before before
  unfolding rows_at
  IsGrouped-self before = record {
    counted = omega arith;
    keyed = λ hs. hs;
    at_key = λ q. sym (append_nil (listed same before q));
  }

  listed-row :
      (before : Groups F) (key q : List (Scalar F)) (r : Row F) (rest : List (Row F))
      → listed same (append_to same before key r) q ++ rest
        ≡ listed same before q ++ (if same key q then r ∷ rest else rest)
  listed-row before key q r rest = elim (Bool-cases (same key q)) [
    | inl g ↦
        rw (listed-append_to same partial before key q r, g)
          (append_assoc (listed same before q) (r ∷ []) rest)
    | inr g ↦ rw (listed-append_to same partial before key q r, g) refl
  ]

  IsGrouped-row :
      (r : Row F) (rows : List (Row F)) (groups before : Groups F) (key : List (Scalar F))
      → group_key floats mixed group_by r ≡ ok key
      → IsGrouped rows groups (append_to same before key r)
      → IsGrouped (r ∷ rows) groups before
  unfolding rows_at
  IsGrouped-row r rows groups before key h g = record {
    counted = g.counted ∙ omega (arith, total-append_to same before key r);
    keyed = λ hs.
        g.keyed (append_to-StartsWith (group_key floats mixed group_by) same before key r h hs);
    at_key = λ q. g.at_key q ∙ rw (h) (listed-row before key q r (rows_at q rows));
  }

  pub group_rows-IsGrouped :
      (rs : Rows (Row F)) (before groups : Groups F)
      → group_rows floats mixed group_by rs before ≡ ok groups
      → (rows : List (Row F)) × (drain rs ≡ ok rows) × IsGrouped rows groups before
  unfolding group_rows drain
  group_rows-IsGrouped no_more before groups h =
      let e : before ≡ groups = ok_injective h in
      ([], refl, subst (λ g. IsGrouped [] g before) e (IsGrouped-self before))
  group_rows-IsGrouped (raises e) before groups h = absurd (cc)
  group_rows-IsGrouped (row r rs) before groups h =
      let (key, e, e') = >>=-eq-ok (group_key floats mixed group_by r) _ h in
      let (rows, d, g) = group_rows-IsGrouped rs (append_to same before key r) groups e' in
      (r ∷ rows, rw d refl, IsGrouped-row r rows groups before key e g)

  -- Without GROUP BY and without rows there is one group, which is empty.
  abbrev pub AreFinal : Groups F → Groups F → Type 0
  AreFinal groups final =
      ((final ≡ groups) × ((group_by ≢ []) ⊎ (groups ≢ [])))
      ⊎ ((final ≡ ([], []) ∷ []) × (group_by ≡ []) × (groups ≡ []))

  with_default-AreFinal :
      (es : List (BoundExpr F)) (groups : Groups F)
      → group_by ≡ es
      → AreFinal groups (with_default floats mixed es groups)
  unfolding with_default
  with_default-AreFinal [] [] h = inr (refl, h, refl)
  with_default-AreFinal [] (g ∷ groups) h = inl (refl, inr (λ k. cc))
  with_default-AreFinal (e ∷ es) groups h = inl (refl, inl (λ k. cc))

  StartsWith-IsKeyed :
      (groups : Groups F)
      → All (StartsWith (group_key floats mixed group_by)) groups
      → All (IsKeyed floats mixed group_by calls) groups
  StartsWith-IsKeyed [] hs = tt
  StartsWith-IsKeyed ((key, []) ∷ groups) (h, hs) = absurd h
  StartsWith-IsKeyed ((key, r ∷ rs) ∷ groups) (h, hs) = (h, StartsWith-IsKeyed groups hs)

  final-IsKeyed :
      (groups final : Groups F)
      → All (StartsWith (group_key floats mixed group_by)) groups
      → AreFinal groups final
      → All (IsKeyed floats mixed group_by calls) final
  final-IsKeyed groups final hs (inl (e, n)) =
      subst (All (IsKeyed floats mixed group_by calls)) (sym e) (StartsWith-IsKeyed groups hs)
  final-IsKeyed groups final hs (inr (e, n, g)) =
      subst (All (IsKeyed floats mixed group_by calls)) (sym e) (n, tt)

  -- What an aggregation that opened returns, one row for each group.
  pub record IsAggregated (child : Rows (Row F)) (out : Rows (Row F)) : Type 0 where
    pub rows : List (Row F)
    pub groups : Groups F
    pub final : Groups F
    pub results : List (Row F)
    pub drained : drain child ≡ ok rows
    pub counted : total groups ≡ length rows
    pub keyed : All (StartsWith (group_key floats mixed group_by)) groups
    pub at_key : (q : List (Scalar F)) → listed same groups q ≡ rows_at q rows
    pub are_final : AreFinal groups final
    pub computed : AreResults floats mixed group_by calls final results
    pub returned : out ≡ from_list results

  -- If an aggregation opens, its child's rows came without an error, and were put into groups: no group
  -- is empty, its key is that of its first row, the groups hold as many rows as there are, and the
  -- group of a key holds the rows whose key equals it, in their order. It returns one row for each
  -- group, in the groups' order, without cells and TIDs: for each call it has the aggregate over the
  -- group's rows, and for each expression of GROUP BY that is no call its value on the group's
  -- first row. Only without GROUP BY and without rows is there one group more, which is empty.
  -- Equality of floats is symmetric and transitive, that of floats and integers agrees with it, and
  -- one object has one value; keys with one NaN object are equal at it.
  pub aggregate_rows-IsAggregated :
      (child : Executor (Row F)) (out : Rows (Row F))
      → aggregate_rows floats mixed child group_by calls ≡ ok out
      → (rs : Rows (Row F)) × (child ≡ ok rs) × IsAggregated rs out
  unfolding aggregate_rows total listed
  aggregate_rows-IsAggregated child out h =
      let (rs, e, h') = >>=-eq-ok child _ h in
      let (groups, e', h'') = >>=-eq-ok (group_rows floats mixed group_by rs []) _ h' in
      let (results, e'', h''') =
        >>=-eq-ok
          (group_results floats mixed group_by calls (with_default floats mixed group_by groups)) _
          h'' in
      let (rows, d, g) = group_rows-IsGrouped rs [] groups e' in
      let final = with_default-AreFinal group_by groups refl in
      (
        rs,
        e,
        record {
          rows = rows;
          groups = groups;
          final = with_default floats mixed group_by groups;
          results = results;
          drained = d;
          counted = zero_add g.counted;
          keyed = g.keyed tt;
          at_key = g.at_key;
          are_final = final;
          computed =
              group_results-AreResults floats mixed group_by calls
                (with_default floats mixed group_by groups) results e''
                (final-IsKeyed groups (with_default floats mixed group_by groups) (g.keyed tt)
                  final);
          returned = sym (ok_injective h''');
        },
      )
