-- ===== src/Executor/Aggregates/Results.antt =====
-- The rows that an aggregation makes of its groups.
use mini_postgres.Base.{
  ◌≡◌, refl, ◌∙◌, subst, false, some, List, [], ◌∷◌, map, Result, ok, err, >>=-eq-ok, ok_injective,
  Hashable, All, Bool-cases, inl, inr, type_error, arith,
}
use mini_postgres.Dict.{Dict, get, put, get-put, elem}
use mini_postgres.Values.{Floats, Scalar}
use mini_postgres.Values.Expressions.{BoundExpr, bound_function}
use mini_postgres.Executor.Rows.{ComputedKey, of_expression, Row, evaluate_on}
use mini_postgres.Executor.Aggregates.{
  Mixed, Groups, group_key, key_values, call_values, aggregate_value, group_results,
}

module _ {F : Type 0} ⦃keys : Hashable (ComputedKey F)⦄
    (value : BoundExpr F → Result (Scalar F)) where
  -- A row's computed values have that of an expression.
  abbrev pub Holds : Dict (ComputedKey F) (Scalar F) → BoundExpr F → Type 0
  Holds computed e = (v : Scalar F) × (value e ≡ ok v) × (get computed (of_expression e) ≡ some v)

  pub Holds-put_self :
      (computed : Dict (ComputedKey F) (Scalar F)) (e : BoundExpr F) (v : Scalar F)
      → value e ≡ ok v
      → Holds (put computed (of_expression e) v) e
  Holds-put_self computed e v h =
      let k = (keys.same_iff (of_expression e) (of_expression e)).1 refl in
      (v, h, get-put computed (of_expression e) (of_expression e) v ∙ rw k refl)

  pub Holds-put :
      (computed : Dict (ComputedKey F) (Scalar F)) (e e' : BoundExpr F) (v' : Scalar F)
      → value e' ≡ ok v'
      → Holds computed e
      → Holds (put computed (of_expression e') v') e
  Holds-put computed e e' v' h (v, k, g) =
      elim (Bool-cases (keys.same (of_expression e') (of_expression e))) [
        | inl i ↦
            let i' : e' ≡ e =
              let j = (keys.same_iff (of_expression e') (of_expression e)).0 i in cc in
            subst (Holds (put computed (of_expression e') v')) i' (Holds-put_self computed e' v' h)
        | inr i ↦ (v, k, get-put computed (of_expression e') (of_expression e) v' ∙ rw i g)
      ]

module _ {F : Type 0} (floats : Floats F) (mixed : Mixed F) ⦃keys : Hashable (ComputedKey F)⦄ where
  -- the value of a call over some rows
  abbrev pub value_of_call : List (Row F) → BoundExpr F → Result (Scalar F)
  value_of_call rows (bound_function name args is_star t n) =
      aggregate_value floats mixed name args is_star t rows
  value_of_call rows e = err type_error

  key_values-keeps :
      (r : Row F) (e : BoundExpr F) (es : List (BoundExpr F)) (vs : List (Scalar F))
      (computed : Dict (ComputedKey F) (Scalar F))
      → group_key floats mixed es r ≡ ok vs
      → Holds (λ d. evaluate_on floats d r) computed e
      → Holds (λ d. evaluate_on floats d r) (key_values floats mixed es vs computed) e
  unfolding key_values group_key
  key_values-keeps r e [] vs computed h g = g
  key_values-keeps r e (d ∷ es) [] computed h g = g
  key_values-keeps r e (d ∷ es) (v ∷ vs) computed h g =
      let (w, h1, h2) = >>=-eq-ok (evaluate_on floats d r) _ h in
      let (ws, h3, h4) = >>=-eq-ok (group_key floats mixed es r) _ h2 in
      let e1 : w ≡ v = cc in
      let e2 : ws ≡ vs = cc in
      key_values-keeps r e es vs (put computed (of_expression d) v) (h3 ∙ rw e2 refl)
        (Holds-put (λ d. evaluate_on floats d r) computed e d v (h1 ∙ rw e1 refl) g)

  key_values-Holds :
      (r : Row F) (es : List (BoundExpr F)) (vs : List (Scalar F))
      (computed : Dict (ComputedKey F) (Scalar F))
      → group_key floats mixed es r ≡ ok vs
      → All (Holds (λ d. evaluate_on floats d r) (key_values floats mixed es vs computed)) es
  unfolding key_values group_key
  key_values-Holds r [] vs computed h = tt
  key_values-Holds r (d ∷ es) vs computed h =
      let (w, h1, h2) = >>=-eq-ok (evaluate_on floats d r) _ h in
      let (ws, h3, h4) = >>=-eq-ok (group_key floats mixed es r) _ h2 in
      subst
        (λ us.
          All (Holds (λ d. evaluate_on floats d r) (key_values floats mixed (d ∷ es) us computed))
            (d ∷ es))
        (ok_injective h4)
        (
          key_values-keeps r d es ws (put computed (of_expression d) w) h3
              (Holds-put_self (λ d. evaluate_on floats d r) computed d w h1),
          key_values-Holds r es ws (put computed (of_expression d) w) h3,
        )

  -- What the loop over the calls does to the computed values.
  record AreCalled (rows : List (Row F)) (calls : List (BoundExpr F))
      (computed out : Dict (ComputedKey F) (Scalar F)) : Type 0 where
    called : All (Holds (value_of_call rows) out) calls
    keeps :
        (e : BoundExpr F) → Holds (value_of_call rows) computed e → Holds (value_of_call rows) out e
    others :
        (e : BoundExpr F)
        → elem (of_expression e) (map of_expression calls) ≡ false
        → get out (of_expression e) ≡ get computed (of_expression e)

  AreCalled-cons :
      (rows : List (Row F)) (call : BoundExpr F) (calls : List (BoundExpr F))
      (computed out : Dict (ComputedKey F) (Scalar F)) (v : Scalar F)
      → value_of_call rows call ≡ ok v
      → AreCalled rows calls (put computed (of_expression call) v) out
      → AreCalled rows (call ∷ calls) computed out
  unfolding elem
  AreCalled-cons rows call calls computed out v h g = record {
    called = (g.keeps call (Holds-put_self (value_of_call rows) computed call v h), g.called);
    keeps = λ e k. g.keeps e (Holds-put (value_of_call rows) computed e call v h k);
    others = λ e k.
        let n : keys.same (of_expression call) (of_expression e) ≡ false = ground arith in
        g.others e (ground arith)
        ∙ get-put computed (of_expression call) (of_expression e) v
        ∙ rw n refl;
  }

  call_values-AreCalled :
      (rows : List (Row F)) (calls : List (BoundExpr F))
      (computed out : Dict (ComputedKey F) (Scalar F))
      → call_values floats mixed calls rows computed ≡ ok out
      → AreCalled rows calls computed out
  unfolding call_values
  call_values-AreCalled rows [] computed out h =
      subst (AreCalled rows [] computed) (ok_injective h)
        (record { called = tt; keeps = λ e k. k; others = λ e k. refl })
  call_values-AreCalled rows (bound_function name args is_star t n ∷ calls) computed out h =
      let call = bound_function name args is_star t n in
      let (v, e, h') = >>=-eq-ok (aggregate_value floats mixed name args is_star t rows) _ h in
      AreCalled-cons rows call calls computed out v e
        (call_values-AreCalled rows calls (put computed (of_expression call) v) out h')
  call_values-AreCalled rows (_ ∷ calls) computed out h = absurd (cc)

  module _ (group_by calls : List (BoundExpr F)) where
    -- The values that a row has for the expressions of GROUP BY, but those that are calls too.
    abbrev pub IsGroupValue : Row F → Dict (ComputedKey F) (Scalar F) → BoundExpr F → Type 0
    IsGroupValue r computed e =
        elem (of_expression e) (map of_expression calls) ≡ false
        → Holds (λ d. evaluate_on floats d r) computed e

    -- What a group's first row gives.
    abbrev pub AreGroupValues : List (Row F) → Dict (ComputedKey F) (Scalar F) → Type 0
    AreGroupValues [] computed = group_by ≡ []
    AreGroupValues (r ∷ rs) computed = All (IsGroupValue r computed) group_by

    -- The row that an aggregation returns for a group of rows: it has no cells and no TIDs, for each
    -- call its aggregate over the rows, and for each expression of GROUP BY its value on the first row.
    pub record IsResult (rows : List (Row F)) (out : Row F) : Type 0 where
      pub no_cells : out.cells ≡ []
      pub no_tids : out.tids ≡ []
      pub aggregates : All (Holds (value_of_call rows) out.computed) calls
      pub group_values : AreGroupValues rows out.computed

    -- One row for each group, in order.
    abbrev pub AreResults : Groups F → List (Row F) → Type 0
    AreResults [] [] = Unit
    AreResults ((key, rows) ∷ groups) (out ∷ outs) = IsResult rows out × AreResults groups outs
    AreResults _ _ = ⊥

    -- A group has the key of its first row.
    abbrev pub IsKeyed : List (Scalar F) × List (Row F) → Type 0
    IsKeyed (key, []) = group_by ≡ []
    IsKeyed (key, r ∷ rs) = group_key floats mixed group_by r ≡ ok key

    All-group_values :
        (r : Row F) (computed out : Dict (ComputedKey F) (Scalar F)) (es : List (BoundExpr F))
        → ((e : BoundExpr F)
            → elem (of_expression e) (map of_expression calls) ≡ false
            → get out (of_expression e) ≡ get computed (of_expression e))
        → All (Holds (λ d. evaluate_on floats d r) computed) es
        → All (IsGroupValue r out) es
    All-group_values r computed out [] f hs = tt
    All-group_values r computed out (e ∷ es) f ((v, h, k), hs) =
        (λ n. (v, h, f e n ∙ k), All-group_values r computed out es f hs)

    keyed_values :
        (key : List (Scalar F)) (rows : List (Row F)) (out : Dict (ComputedKey F) (Scalar F))
        → IsKeyed (key, rows)
        → ((e : BoundExpr F)
            → elem (of_expression e) (map of_expression calls) ≡ false
            → get out (of_expression e)
              ≡ get (key_values floats mixed group_by key []) (of_expression e))
        → AreGroupValues rows out
    keyed_values key [] out k f = k
    keyed_values key (r ∷ rs) out k f =
        All-group_values r (key_values floats mixed group_by key []) out group_by f
          (key_values-Holds r group_by key [] k)

    pub group_results-AreResults :
        (groups : Groups F) (outs : List (Row F))
        → group_results floats mixed group_by calls groups ≡ ok outs
        → All IsKeyed groups
        → AreResults groups outs
    unfolding group_results
    group_results-AreResults [] outs h ks = subst (AreResults []) (ok_injective h) tt
    group_results-AreResults ((key, rows) ∷ groups) outs h (k, ks) =
        let (computed, e, h1) =
          >>=-eq-ok (call_values floats mixed calls rows (key_values floats mixed group_by key []))
            _ h in
        let (rest, e', h2) = >>=-eq-ok (group_results floats mixed group_by calls groups) _ h1 in
        let g =
          call_values-AreCalled rows calls (key_values floats mixed group_by key []) computed e in
        subst (AreResults ((key, rows) ∷ groups)) (ok_injective h2) (
          record {
            no_cells = refl;
            no_tids = refl;
            aggregates = g.called;
            group_values = keyed_values key rows computed k g.others;
          },
          group_results-AreResults groups rest e' ks,
        )
