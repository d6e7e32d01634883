-- ===== src/Executor/Modify.antt =====
-- operators.py's InsertExecutor, with and without MVCC, and its UpdateExecutor and DeleteExecutor in a
-- context without MVCC. Of each, what open does to the table, with the number of affected rows.
pub mod Added
pub mod Atomicity
pub mod Candidates
use mini_postgres.Base.{
  ◌≡◌, ℕ, zero, suc, ◌+◌, Bool, true, false, Option, none, some, List, [], ◌∷◌, length, set,
  replicate, ltb, if◌then◌else◌, Result, ok, err, ◌>>=◌, Error, Hashable, catalog_error,
  constraint_violation, key_error, index_error, runtime_error, nat_hashable,
}
use mini_postgres.Dict.{get}
use mini_postgres.Action.{Action}
use mini_postgres.Transaction.Model.{Tid}
use mini_postgres.Values.{Floats, Scalar, null}
use mini_postgres.Values.Expressions.{ColumnBinding}
use mini_postgres.Sql.Syntax.{Column}
use mini_postgres.Planner.Logical.{TableMetadata, BoundAssignment}
use mini_postgres.Executor.Rows.{
  ComputedKey, output_slot, Row, Rows, no_more, raises, row, Executor, evaluate_on,
  binding_hashable,
}
use mini_postgres.Executor.Tables.{Tuple, TableAccess, validate_row}

-- try, with what follows a value and what follows an exception
abbrev pub try_call :
    {S A B : Type 0} → Result A × S → (A → Action S B) → (Error → Action S B) → Result B × S
try_call (ok a, s) next handle = next a s
try_call (err e, s) next handle = handle e s

-- except CatalogError as error: raise ConstraintViolation
abbrev pub as_violation : {A : Type 0} → Result A → Result A
as_violation (err catalog_error) = err constraint_violation
as_violation (err e) = err e
as_violation (ok a) = ok a

-- values[index] = value
abbrev pub assign : {A : Type 0} → List A → ℕ → A → Result (List A)
assign xs i a = if ltb i (length xs) then ok (set xs i a) else err index_error

module _ {F : Type 0} ⦃keys : Hashable (ComputedKey F)⦄ where
  -- the loop over _target_columns, from an index
  unfoldable pub target_values : ℕ → List Column → Row F → Tuple F → Result (Tuple F)
  unfolding get
  target_values index [] r vs = ok vs
  target_values index (c ∷ cs) r vs = elim (get r.computed (output_slot index)) [
    | none ↦ err key_error
    | some v ↦ do ws ← assign vs c.column_id v; target_values (suc index) cs r ws
  ]

  -- the loop of InsertExecutor._open over its child's rows
  unfoldable pub insert_candidates :
      TableMetadata → List Column → Rows (Row F) → Result (List (Tuple F))
  unfolding target_values validate_row
  insert_candidates table targets no_more = ok []
  insert_candidates table targets (raises e) = err e
  insert_candidates table targets (row r rs) = do
    vs ← target_values 0 targets r (replicate (length table.columns) null)
    ws ← as_violation (validate_row table.columns vs)
    rest ← insert_candidates table targets rs
    ok (ws ∷ rest)

  -- the row's TID of the table, or a ConstraintViolation
  abbrev pub source_tid : TableMetadata → Row F → Result Tid
  source_tid table r = elim (get r.tids table.table_id) [
    | none ↦ err constraint_violation
    | some t ↦ ok t
  ]

  -- the row's cells for the columns of the table
  unfoldable pub row_values : ℕ → List Column → Row F → Result (Tuple F)
  unfolding get
  row_values table_id [] r = ok []
  row_values table_id (c ∷ cs) r =
      elim (get r.cells (record { table_id = table_id; column_id = c.column_id })) [
        | none ↦ err key_error
        | some v ↦ do vs ← row_values table_id cs r; ok (v ∷ vs)
      ]

  -- the loop over _assignments
  unfoldable pub assigned_values :
      Floats F → List (BoundAssignment F) → Row F → Tuple F → Result (Tuple F)
  unfolding evaluate_on
  assigned_values floats [] r vs = ok vs
  assigned_values floats (a ∷ as') r vs = do
    v ← evaluate_on floats a.expression r
    ws ← assign vs a.column.column_id v
    assigned_values floats as' r ws

  -- the loop of UpdateExecutor._open over its child's rows
  unfoldable pub update_candidates :
      Floats F
      → TableMetadata
      → List (BoundAssignment F)
      → Rows (Row F)
      → Result (List (Tid × Tuple F))
  unfolding row_values assigned_values validate_row
  update_candidates floats table assignments no_more = ok []
  update_candidates floats table assignments (raises e) = err e
  update_candidates floats table assignments (row r rs) = do
    t ← source_tid table r
    vs ← row_values table.table_id table.columns r
    ws ← assigned_values floats assignments r vs
    us ← as_violation (validate_row table.columns ws)
    rest ← update_candidates floats table assignments rs
    ok ((t, us) ∷ rest)

  -- the loop of DeleteExecutor._open over its child's rows
  unfoldable pub delete_tids : TableMetadata → Rows (Row F) → Result (List Tid)
  delete_tids table no_more = ok []
  delete_tids table (raises e) = err e
  delete_tids table (row r rs) = do t ← source_tid table r; ts ← delete_tids table rs; ok (t ∷ ts)

-- _has_mvcc of the context, and access.insert_mvcc with the context's transaction, statuses and locks
-- where access is an IndexedTableAccess
pub record MvccContext (S F : Type 0) : Type 0 where
  pub has_mvcc : Bool
  pub insert_mvcc : Option (Tuple F → Action S Tid)

module _ {S F : Type 0} (access : TableAccess S F) where
  -- for tid in reversed(inserted): access.delete(tid); then raise
  unfoldable pub undo_inserts : List Tid → Error → Action S ℕ
  undo_inserts [] e s = (err e, s)
  undo_inserts (t ∷ ts) e s =
      try_call (access.delete_tuple t s) (λ b. undo_inserts ts e) (λ e' s'. (err e', s'))

  -- the insertion of one candidate, whichever method the context and the table call for
  unfoldable pub insert_one : MvccContext S F → Tuple F → Action S Tid
  insert_one context vs =
      if context.has_mvcc
      then elim context.insert_mvcc [
        | none ↦ access.insert_tuple vs
        | some insertion ↦ insertion vs
      ]
      else access.insert_tuple vs

  -- except BaseException: only without MVCC are the insertions undone
  unfoldable pub after_failure : Bool → List Tid → Error → Action S ℕ
  unfolding undo_inserts
  after_failure true inserted e s = (err e, s)
  after_failure false inserted e s = undo_inserts inserted e s

  -- the insertion of candidates, after those whose TIDs are given, the last one first
  unfoldable pub insert_all : MvccContext S F → List (Tuple F) → List Tid → Action S ℕ
  unfolding insert_one after_failure
  insert_all context [] inserted s = (ok (length inserted), s)
  insert_all context (vs ∷ rest) inserted s =
      try_call (insert_one context vs s) (λ t. insert_all context rest (t ∷ inserted))
        (after_failure context.has_mvcc inserted)

  module _ ⦃keys : Hashable (ComputedKey F)⦄ where
    -- InsertExecutor._open
    unfoldable pub insert_open :
        MvccContext S F → TableMetadata → List Column → Executor (Row F) → Action S ℕ
    unfolding insert_candidates insert_all
    insert_open context table targets child s = elim (child >>= insert_candidates table targets) [
      | err e ↦ (err e, s)
      | ok candidates ↦ insert_all context candidates [] s
    ]

module _ {S F : Type 0} (access : TableAccess S F) where
  -- for replacement, old_values in reversed(applied): put them back; then raise
  unfoldable pub undo_updates : List (Tid × Tuple F) → Error → Action S ℕ
  undo_updates [] e s = (err e, s)
  undo_updates ((t, old) ∷ applied) e s =
      try_call (access.replace_tuple t old s)
        (λ o. elim o [ none ↦ (λ s'. (err runtime_error, s')) | some u ↦ undo_updates applied e ])
        (λ e' s'. (err e', s'))

  -- the replacement of candidates, after those that were applied, the last one first
  unfoldable pub update_all : List (Tid × Tuple F) → List (Tid × Tuple F) → Action S ℕ
  unfolding undo_updates
  update_all [] applied s = (ok (length applied), s)
  update_all ((t, vs) ∷ rest) applied s =
      try_call (access.fetch_tuple t s)
        (λ o. elim o [
          | none ↦ undo_updates applied constraint_violation
          | some old ↦ (λ s'.
              try_call (access.replace_tuple t vs s')
                (λ u. elim u [
                  | none ↦ undo_updates applied constraint_violation
                  | some t' ↦ update_all rest ((t', old) ∷ applied)
                ])
                (undo_updates applied))
        ])
        (undo_updates applied)

  -- sum(access.delete(tid) for tid in tids)
  unfoldable pub delete_all : List Tid → Action S ℕ
  delete_all [] s = (ok 0, s)
  delete_all (t ∷ ts) s =
      try_call (access.delete_tuple t s)
        (λ b s'.
          try_call (delete_all ts s') (λ n s''. (ok (if b then suc n else n), s''))
            (λ e s''. (err e, s'')))
        (λ e s'. (err e, s'))

  module _ ⦃keys : Hashable (ComputedKey F)⦄ where
    -- UpdateExecutor._open
    unfoldable pub update_open :
        Floats F → TableMetadata → List (BoundAssignment F) → Executor (Row F) → Action S ℕ
    unfolding update_candidates update_all
    update_open floats table assignments child s =
        elim (child >>= update_candidates floats table assignments) [
          | err e ↦ (err e, s)
          | ok candidates ↦ update_all candidates [] s
        ]

    -- DeleteExecutor._open
    unfoldable pub delete_open : TableMetadata → Executor (Row F) → Action S ℕ
    unfolding delete_tids delete_all
    delete_open table child s = elim (child >>= delete_tids table) [
      | err e ↦ (err e, s)
      | ok tids ↦ delete_all tids s
    ]
