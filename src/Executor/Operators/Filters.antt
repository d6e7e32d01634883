-- ===== src/Executor/Operators/Filters.antt =====
-- Two filters, one over the other, and the one filter that the optimizer makes of them.
use mini_postgres.Base.{
  ◌≡◌, refl, sym, ◌∙◌, ap, subst, Bool, true, false, ◌&&◌, ◌||◌, Option, none, some, List, [],
  if◌then◌else◌, ok, err, >>=-eq-ok, ok_injective, Error, Hashable, Bool-cases, Result-cases, inl,
  inr,
}
use mini_postgres.Values.{
  Floats, Scalar, null, integer, float, boolean, text, sql_bool, of_sql_bool, and_sql, sql_and,
  boolean_type,
}
use mini_postgres.Values.Expressions.{BoundExpr, op_and, evaluate, binary_values}
use mini_postgres.Values.Expressions.Typing.{nullable_of}
use mini_postgres.Dict.{get}
use mini_postgres.Planner.Fold.Meaning.{evaluate_binary}
use mini_postgres.Planner.Rules.{is_true, conjunction}
use mini_postgres.Executor.Rows.{
  ComputedKey, Row, Rows, no_more, raises, row, drain, evaluate_on, view,
}
use mini_postgres.Executor.Joins.Merging.{AllRows}
use mini_postgres.Executor.Operators.{filter_rows}

abbrev holds : Option Bool → Bool
holds none = false
holds (some b) = b

and_sql-holds :
    (F : Type 0) (a b : Option Bool)
    → is_true {F = F} (of_sql_bool (and_sql a b)) ≡ (holds a && holds b)
unfolding and_sql
and_sql-holds F none none = refl
and_sql-holds F none (some true) = refl
and_sql-holds F none (some false) = refl
and_sql-holds F (some true) none = refl
and_sql-holds F (some true) (some true) = refl
and_sql-holds F (some true) (some false) = refl
and_sql-holds F (some false) b = refl

module _ {F : Type 0} where
  sql_bool-holds : (v : Scalar F) (a : Option Bool) → sql_bool v ≡ ok a → is_true v ≡ holds a
  unfolding sql_bool
  sql_bool-holds null a h = ap holds (ok_injective h)
  sql_bool-holds (boolean b) a h = ap holds (ok_injective h)
  sql_bool-holds (integer n) a h = absurd (cc)
  sql_bool-holds (float x) a h = absurd (cc)
  sql_bool-holds (text s) a h = absurd (cc)

  sql_and-is_true : (v w u : Scalar F) → sql_and v w ≡ ok u → is_true u ≡ (is_true v && is_true w)
  unfolding sql_and
  sql_and-is_true v w u h =
      let (a, e, h1) = >>=-eq-ok (sql_bool v) _ h in
      let (b, e', h2) = >>=-eq-ok (sql_bool w) _ h1 in
      ap is_true (sym (ok_injective h2))
      ∙ and_sql-holds F a b
      ∙ rw (sql_bool-holds v a e, sql_bool-holds w b e') refl

module _ {F : Type 0} ⦃keys : Hashable (ComputedKey F)⦄ (floats : Floats F) where
  abbrev pub IsPlain : Row F → Type 0
  IsPlain r = r.computed ≡ []

  -- What the conjunction's value says of its parts.
  both_evaluate :
      (q p : BoundExpr F) (r : Row F) (u : Scalar F)
      → IsPlain r
      → evaluate_on floats (conjunction q p) r ≡ ok u
      → (v : Scalar F) × (w : Scalar F) × (evaluate_on floats q r ≡ ok v)
        × (evaluate_on floats p r ≡ ok w)
        × (is_true u ≡ (is_true v && is_true w))
  unfolding evaluate_on conjunction binary_values get
  both_evaluate q p r u plain h =
      let law =
        evaluate_binary floats (view r) (λ e. rw plain refl) q op_and p boolean_type
          (nullable_of q || nullable_of p) in
      let (v, e, h1) = >>=-eq-ok (evaluate floats q (view r)) _ (sym law ∙ h) in
      let (w, e', h2) = >>=-eq-ok (evaluate floats p (view r)) _ h1 in
      (v, w, e, e', sql_and-is_true v w u h2)

  filter_rows-row :
      (e : BoundExpr F) (r : Row F) (rs : Rows (Row F)) (v : Scalar F)
      → evaluate_on floats e r ≡ ok v
      → filter_rows floats e (row r rs)
        ≡ (if is_true v then row r (filter_rows floats e rs) else filter_rows floats e rs)
  unfolding filter_rows
  filter_rows-row e r rs v h = rw (filter_rows, h) refl

  filter_rows-raises :
      (e : BoundExpr F) (r : Row F) (rs : Rows (Row F)) (x : Error)
      → evaluate_on floats e r ≡ err x
      → filter_rows floats e (row r rs) ≡ raises x
  unfolding filter_rows
  filter_rows-raises e r rs x h = rw (filter_rows, h) refl

  -- One row of the two filters, by what the parts' values say.
  kept_alike :
      (p : BoundExpr F) (r : Row F) (q_rows both : Rows (Row F)) (w : Scalar F) (a : Bool)
      (rows : List (Row F))
      → evaluate_on floats p r ≡ ok w
      → ((rows' : List (Row F))
          → drain both ≡ ok rows'
          → drain (filter_rows floats p q_rows) ≡ ok rows')
      → drain (if a && is_true w then row r both else both) ≡ ok rows
      → drain (filter_rows floats p (if a then row r q_rows else q_rows)) ≡ ok rows
  unfolding drain
  kept_alike p r q_rows both w false rows e f h = f rows h
  kept_alike p r q_rows both w true rows e f h = elim (Bool-cases (is_true w)) [
    | inl b ↦
        let h' : drain (row r both) ≡ ok rows =
          subst (λ z. drain (if z then row r both else both) ≡ ok rows) b h in
        let (rest, d, g) = >>=-eq-ok (drain both) _ h' in
        rw (filter_rows-row p r q_rows w e, b, f rest d) g
    | inr b ↦
        rw (filter_rows-row p r q_rows w e, b)
          (f rows (subst (λ z. drain (if z then row r both else both) ≡ ok rows) b h))
  ]

  -- Where a filter by a conjunction returns rows without an error, the filter by its second part over
  -- that by its first returns the same rows. The rows come from tables alone.
  pub filter_rows-conjunction :
      (q p : BoundExpr F) (rs : Rows (Row F)) (rows : List (Row F))
      → AllRows IsPlain rs
      → drain (filter_rows floats (conjunction q p) rs) ≡ ok rows
      → drain (filter_rows floats p (filter_rows floats q rs)) ≡ ok rows
  unfolding filter_rows drain
  filter_rows-conjunction q p no_more rows hs h = h
  filter_rows-conjunction q p (raises e) rows hs h = h
  filter_rows-conjunction q p (row r rs) rows (plain, hs) h =
      elim (Result-cases (evaluate_on floats (conjunction q p) r)) [
        | inr (x, k) ↦
            let h' : drain (raises x) ≡ ok rows =
              subst (λ z. drain z ≡ ok rows) (filter_rows-raises (conjunction q p) r rs x k) h in
            absurd (cc)
        | inl (u, k) ↦
            let (v, w, e, e', b) = both_evaluate q p r u plain k in
            let law = filter_rows-row (conjunction q p) r rs u k in
            let both = filter_rows floats (conjunction q p) rs in
            subst (λ z. drain (filter_rows floats p z) ≡ ok rows) (sym (filter_rows-row q r rs v e))
              (kept_alike p r (filter_rows floats q rs) both w (is_true v) rows e'
                (λ rows'. filter_rows-conjunction q p rs rows' hs)
                (subst (λ z. drain (if z then row r both else both) ≡ ok rows) b
                  (subst (λ z. drain z ≡ ok rows) law h)))
      ]
