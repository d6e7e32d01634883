-- ===== src/Executor/Rows.antt =====
-- row.py: the rows that the operators exchange; and executor/base.py: what a caller sees of an
-- executor, which is the outcome of open, and then what the calls of next return.
use mini_postgres.Base.{
  ◌≡◌, ℕ, Bool, true, false, ◌&&◌, ◌||◌, ◌↔◌, none, some, List, [], ◌∷◌, ◌++◌, nat_beq,
  if◌then◌else◌, Result, ok, err, ◌>>=◌, Error, value_error, Hashable, nat_hashable, arith,
}
use mini_postgres.Dict.{Dict, get}
use mini_postgres.Transaction.Model.{Tid}
use mini_postgres.Values.{Floats, Scalar}
use mini_postgres.Values.Expressions.{ColumnBinding, BoundExpr, ExecutionRow, evaluate}

-- OutputSlot, or an expression
pub data ComputedKey (F : Type 0) : Type 0 where
  output_slot : ℕ → ComputedKey F
  of_expression : BoundExpr F → ComputedKey F

-- ExecutionRow
pub record Row (F : Type 0) : Type 0 where
  pub cells : Dict ColumnBinding (Scalar F)
  pub tids : Dict ℕ Tid
  pub computed : Dict (ComputedKey F) (Scalar F)

abbrev pub binding_beq : ColumnBinding → ColumnBinding → Bool
binding_beq b c = nat_beq b.table_id c.table_id && nat_beq b.column_id c.column_id

pub binding_beq_iff : (b c : ColumnBinding) → (binding_beq b c ≡ true) ↔ (b ≡ c)
binding_beq_iff b c = ground arith

instance abbrev pub binding_hashable : Hashable ColumnBinding
binding_hashable = record { same = binding_beq; same_iff = binding_beq_iff }

-- a.keys() & b.keys()
unfoldable pub overlaps {ℓ κ} :
    {K : Type ℓ} {V : Type κ} ⦃e : Hashable K⦄ → Dict K V → Dict K V → Bool
unfolding get
overlaps [] d = false
overlaps ((k, v) ∷ c) d = elim (get d k) [ none ↦ overlaps c d | some w ↦ true ]

-- The rows of an open executor: each call of next takes the first, until it returns None or raises.
pub data Rows (A : Type 0) : Type 0 where
  no_more : Rows A
  raises : Error → Rows A
  row : A → Rows A → Rows A

-- An executor that is opened: open raises, or the rows follow.
abbrev pub Executor : Type 0 → Type 0
Executor A = Result (Rows A)

module _ {A : Type 0} where
  abbrev pub from_list : List A → Rows A
  from_list [] = no_more
  from_list (a ∷ as') = row a (from_list as')

  -- _drain_opened's loop, and that of collect
  unfoldable pub drain : Rows A → Result (List A)
  drain no_more = ok []
  drain (raises e) = err e
  drain (row a rs) = do as' ← drain rs; ok (a ∷ as')

module _ {F : Type 0} ⦃keys : Hashable (ComputedKey F)⦄ where
  -- ExecutionRow.merge: on disjoint dicts, `|` appends.
  unfoldable pub merge : Row F → Row F → Result (Row F)
  unfolding overlaps
  merge r s =
      if overlaps r.cells s.cells || (overlaps r.tids s.tids || overlaps r.computed s.computed)
      then err value_error
      else ok (record {
        cells = r.cells ++ s.cells;
        tids = r.tids ++ s.tids;
        computed = r.computed ++ s.computed;
      })

  -- what evaluate looks up in a row
  abbrev pub view : Row F → ExecutionRow F
  view r = record { cells = get r.cells; computed = λ e. get r.computed (of_expression e) }

  unfoldable pub evaluate_on : Floats F → BoundExpr F → Row F → Result (Scalar F)
  unfolding evaluate get
  evaluate_on floats e r = evaluate floats e (view r)
