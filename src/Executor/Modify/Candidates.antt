-- ===== src/Executor/Modify/Candidates.antt =====
-- The tuples that an INSERT makes of its child's rows.
use mini_postgres.Base.{
  ◌≡◌, ◌≢◌, refl, sym, ◌∙◌, ap, subst, ℕ, zero, suc, ◌+◌, ◌<◌, false, some, List, [], ◌∷◌, map,
  length, drop, get_elem?, set, length-set, get_elem?-set_self, get_elem?-set_ne, replicate,
  length-replicate, Result, ok, err, >>=-eq-ok, ok_injective, Hashable, arith, Option-cases, inl,
  inr, nat_hashable,
}
use mini_postgres.Dict.{get, elem}
use mini_postgres.Values.{Scalar, null}
use mini_postgres.Sql.Syntax.{Column}
use mini_postgres.Planner.Logical.{TableMetadata}
use mini_postgres.Executor.Rows.{ComputedKey, output_slot, Row, Rows, no_more, raises, row, drain}
use mini_postgres.Executor.Tables.{Tuple, validate_row}
use mini_postgres.Executor.Tables.Validation.{validate_row-eq}
use mini_postgres.Executor.Modify.{as_violation, assign, target_values, insert_candidates}

-- the positions of some columns
abbrev pub ids : List Column → List ℕ
ids = map (λ c. c.column_id)

module _ {A : Type 0} where
  assign-eq-ok :
      (xs ys : List A) (i : ℕ) (a : A) → assign xs i a ≡ ok ys → (i < length xs) × (set xs i a ≡ ys)
  assign-eq-ok xs ys i a h = (ground arith, ground arith)

  get_elem?-replicate : (n i : ℕ) (a : A) → i < n → get_elem? (replicate n a) i ≡ some a
  get_elem?-replicate zero i a h = absurd (omega arith)
  get_elem?-replicate (suc n) zero a h = refl
  get_elem?-replicate (suc n) (suc i) a h = get_elem?-replicate n i a (omega arith)

as_violation-eq-ok : {A : Type 0} (r : Result A) (a : A) → as_violation r ≡ ok a → r ≡ ok a
as_violation-eq-ok (ok b) a h = h
as_violation-eq-ok (err e) a h = absurd (ground arith)

elem-cons_false :
    (j : ℕ) (c : Column) (cs : List Column)
    → elem j (ids (c ∷ cs)) ≡ false
    → (c.column_id ≢ j) × (elem j (ids cs) ≡ false)
unfolding elem
elem-cons_false j c cs h = (ground arith, ground arith)

module _ {F : Type 0} ⦃keys : Hashable (ComputedKey F)⦄ where
  -- What the loop over the target columns does to a list of values.
  record AreTargets (index : ℕ) (cs : List Column) (r : Row F) (vs ws : Tuple F) : Type 0 where
    same_length : length ws ≡ length vs
    others : (j : ℕ) → elem j (ids cs) ≡ false → get_elem? ws j ≡ get_elem? vs j
    targets :
        (i : ℕ) (c : Column)
        → get_elem? cs i ≡ some c
        → elem c.column_id (ids (drop (suc i) cs)) ≡ false
        → (v : Scalar F) × (get r.computed (output_slot (index + i)) ≡ some v)
          × (get_elem? ws c.column_id ≡ some v)

  AreTargets-none : (index : ℕ) (r : Row F) (vs : Tuple F) → AreTargets index [] r vs vs
  AreTargets-none index r vs = record {
    same_length = refl;
    others = λ j h. refl;
    targets = λ i c h. absurd (cc);
  }

  AreTargets-cons :
      (index : ℕ) (d : Column) (cs : List Column) (r : Row F) (vs ws : Tuple F) (v : Scalar F)
      → get r.computed (output_slot index) ≡ some v
      → d.column_id < length vs
      → AreTargets (suc index) cs r (set vs d.column_id v) ws
      → AreTargets index (d ∷ cs) r vs ws
  AreTargets-cons index d cs r vs ws v e lt g = record {
    same_length = g.same_length ∙ length-set vs d.column_id v;
    others =
        λ j h. let (ne, h') = elem-cons_false j d cs h in g.others j h' ∙ get_elem?-set_ne vs v ne;
    targets = λ i c.
        elim i
          as (λ i.
            get_elem? (d ∷ cs) i ≡ some c
            → elem c.column_id (ids (drop (suc i) (d ∷ cs))) ≡ false
            → (v : Scalar F) × (get r.computed (output_slot (index + i)) ≡ some v)
              × (get_elem? ws c.column_id ≡ some v)) [
                | zero ↦ λ h k.
                    let e' : d ≡ c = cc in
                    (
                      v,
                      subst (λ n. get r.computed (output_slot n) ≡ some v) (omega arith) e,
                      g.others c.column_id k
                          ∙ ap (λ x. get_elem? (set vs d.column_id v) x.column_id) (sym e')
                          ∙ get_elem?-set_self vs d.column_id v lt,
                    )
                | suc i' ↦ λ h k.
                    let (w, e1, e2) = g.targets i' c h k in
                    (w, subst (λ n. get r.computed (output_slot n) ≡ some w) (omega arith) e1, e2)
              ];
  }

  target_values-AreTargets :
      (index : ℕ) (cs : List Column) (r : Row F) (vs ws : Tuple F)
      → target_values index cs r vs ≡ ok ws
      → AreTargets index cs r vs ws
  unfolding target_values
  target_values-AreTargets index [] r vs ws h =
      subst (AreTargets index [] r vs) (ok_injective h) (AreTargets-none index r vs)
  target_values-AreTargets index (d ∷ cs) r vs ws h =
      elim (Option-cases (get r.computed (output_slot index))) [
        | inr (v, e) ↦
            let (us, e', h') = >>=-eq-ok (assign vs d.column_id v) _ (rw (target_values, e) at h) in
            let (lt, same) = assign-eq-ok vs us d.column_id v e' in
            AreTargets-cons index d cs r vs ws v e lt (
              subst (λ u. AreTargets (suc index) cs r u ws) (sym same)
                (target_values-AreTargets (suc index) cs r us ws h'))
        | inl e ↦ let h' = rw (target_values, e) at h in absurd (cc)
      ]

  -- A tuple of a table made of a row: it is valid, and has at each target column what the row's output
  -- at the column's place in the list of targets is, if no later target is the same column, and null
  -- at the columns that are no targets.
  pub record IsTupleOf (columns targets : List Column) (r : Row F) (ws : Tuple F) : Type 0 where
    pub valid : validate_row columns ws ≡ ok ws
    pub same_length : length ws ≡ length columns
    pub others :
        (j : ℕ) → j < length columns → elem j (ids targets) ≡ false → get_elem? ws j ≡ some null
    pub assigned :
        (i : ℕ) (c : Column)
        → get_elem? targets i ≡ some c
        → elem c.column_id (ids (drop (suc i) targets)) ≡ false
        → (v : Scalar F) × (get r.computed (output_slot i) ≡ some v)
          × (get_elem? ws c.column_id ≡ some v)

  -- The tuples are made of the rows, one of each and in their order.
  abbrev pub AreTuplesOf : List Column → List Column → List (Row F) → List (Tuple F) → Type 0
  AreTuplesOf columns targets [] [] = Unit
  AreTuplesOf columns targets (r ∷ rs) (ws ∷ wss) =
      IsTupleOf columns targets r ws × AreTuplesOf columns targets rs wss
  AreTuplesOf columns targets _ _ = ⊥

  IsTupleOf-targets :
      (columns targets : List Column) (r : Row F) (vs ws : Tuple F)
      → target_values 0 targets r (replicate (length columns) null) ≡ ok vs
      → validate_row columns vs ≡ ok ws
      → IsTupleOf columns targets r ws
  IsTupleOf-targets columns targets r vs ws h k =
      let e = validate_row-eq columns vs ws k in
      let g = target_values-AreTargets 0 targets r (replicate (length columns) null) vs h in
      subst (IsTupleOf columns targets r) e (record {
        valid = k ∙ ap ok (sym e);
        same_length = g.same_length ∙ length-replicate (length columns) null;
        others = λ j lt n. g.others j n ∙ get_elem?-replicate (length columns) j null lt;
        assigned = λ i c m n.
            let (v, e1, e2) = g.targets i c m n in
            (v, subst (λ n. get r.computed (output_slot n) ≡ some v) (omega arith) e1, e2);
      })

  pub insert_candidates-AreTuplesOf :
      (table : TableMetadata) (targets : List Column) (rs : Rows (Row F)) (cs : List (Tuple F))
      → insert_candidates table targets rs ≡ ok cs
      → (rows : List (Row F)) × (drain rs ≡ ok rows) × AreTuplesOf table.columns targets rows cs
  unfolding insert_candidates drain
  insert_candidates-AreTuplesOf table targets no_more [] h = ([], refl, tt)
  insert_candidates-AreTuplesOf table targets no_more (c ∷ cs) h = absurd (cc)
  insert_candidates-AreTuplesOf table targets (raises e) cs h = absurd (cc)
  insert_candidates-AreTuplesOf table targets (row r rs) cs h =
      let (vs, e1, h1) =
        >>=-eq-ok (target_values 0 targets r (replicate (length table.columns) null)) _ h in
      let (ws, e2, h2) = >>=-eq-ok (as_violation (validate_row table.columns vs)) _ h1 in
      let (rest, e3, h3) = >>=-eq-ok (insert_candidates table targets rs) _ h2 in
      let (rows, d, l) = insert_candidates-AreTuplesOf table targets rs rest e3 in
      let k = as_violation-eq-ok (validate_row table.columns vs) ws e2 in
      (
        r ∷ rows,
        rw d refl,
        subst (AreTuplesOf table.columns targets (r ∷ rows)) (ok_injective h3)
            (IsTupleOf-targets table.columns targets r vs ws e1 k, l),
      )
