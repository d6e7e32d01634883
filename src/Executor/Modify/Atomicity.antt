-- ===== src/Executor/Modify/Atomicity.antt =====
-- What an INSERT leaves in its table, where it returns and where it raises.
use mathlib.Core.List.{reverse}
use mini_postgres.Base.{
  Option, Bool, ◌≡◌, ◌≢◌, ℕ, true, false, none, List, length, Result, ok, err, Hashable,
}
use mini_postgres.Transaction.Model.{Tid}
use mini_postgres.Sql.Syntax.{Column}
use mini_postgres.Planner.Logical.{TableMetadata}
use mini_postgres.Executor.Rows.{ComputedKey, Row, Rows, Executor, drain}
use mini_postgres.Executor.Tables.{Tuple, TableAccess, IsLawful, tid_hashable}
use mini_postgres.Executor.Modify.{MvccContext}
use mini_postgres.Executor.Modify.Candidates.{AreTuplesOf}
use mini_postgres.Executor.Modify.Added.{IsAdded, IsMvccLawful}

module _ {S F : Type 0} (access : TableAccess S F) (lawful : IsLawful access)
    (context : MvccContext S F) (mvcc_lawful : IsMvccLawful lawful.held context) where
  abbrev held : S → Tid → Option (Tuple F)
  held = lawful.held

  module _ ⦃keys : Hashable (ComputedKey F)⦄ where
    -- What an INSERT may do to its table: whether it returns, raises with MVCC, or raises without.
    abbrev pub InsertsRows :
        Bool → TableMetadata → List Column → Executor (Row F) → S → Result ℕ × S → Type 0
    InsertsRows false table targets child before (err e, s) = (t : Tid) → held s t ≡ held before t
    InsertsRows true table targets child before (err e, s) =
        (t : Tid) → held before t ≢ none → held s t ≡ held before t
    InsertsRows b table targets child before (ok m, s) =
        (rs : Rows (Row F)) × (rows : List (Row F)) × (ts : List Tid) × (wss : List (Tuple F))
        × (child ≡ ok rs)
        × (drain rs ≡ ok rows)
        × AreTuplesOf table.columns targets rows wss
        × (m ≡ length wss)
        × (length ts ≡ m)
        × IsAdded held before s ts (reverse wss)
