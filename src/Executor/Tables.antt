-- ===== src/Executor/Tables.antt =====
-- executor/memory.py: the protocol TableAccess, and MemoryTable. The table's ID and schema do not
-- change, so they are arguments.
pub mod Memory
pub mod Validation
use mini_postgres.Base.{
  ◌≡◌, ◌≢◌, ℕ, Bool, true, false, Option, none, some, List, [], ◌∷◌, ◌++◌, nat_beq, length,
  get_elem?, set, if◌then◌else◌, ◌&&◌, ◌↔◌, Hashable, arith, Result, ok, err, ◌>>=◌, catalog_error,
  type_mismatch, Error,
}
use mini_postgres.Action.{Action}
use mini_postgres.Transaction.Model.{Tid}
use mini_postgres.Values.{Scalar, validate_scalar}
use mini_postgres.Sql.Syntax.{Column}

abbrev pub Tuple : Type 0 → Type 0
Tuple F = List (Scalar F)

-- TableAccess's methods but scan, on tables of type S
pub record TableAccess (S F : Type 0) : Type 0 where
  pub insert_tuple : Tuple F → Action S Tid
  pub fetch_tuple : Tid → Action S (Option (Tuple F))
  pub replace_tuple : Tid → Tuple F → Action S (Option Tid)
  pub delete_tuple : Tid → Action S Bool

abbrev pub tid_beq : Tid → Tid → Bool
tid_beq t u = nat_beq t.page_id u.page_id && nat_beq t.slot_id u.slot_id

pub tid_beq_iff : (t u : Tid) → (tid_beq t u ≡ true) ↔ (t ≡ u)
tid_beq_iff t u = ground arith

instance abbrev pub tid_hashable : Hashable Tid
tid_hashable = record { same = tid_beq; same_iff = tid_beq_iff }

-- a TypeMismatch in a column is a CatalogError
abbrev pub as_catalog_error : Error → Error
as_catalog_error type_mismatch = catalog_error
as_catalog_error e = e

module _ {F : Type 0} where
  -- the loop of Schema.validate_row, on as many values as columns
  unfoldable pub validate_columns : List Column → Tuple F → Result (Tuple F)
  unfolding validate_scalar
  validate_columns [] vs = ok []
  validate_columns (c ∷ cs) [] = ok []
  validate_columns (c ∷ cs) (v ∷ vs) = elim (validate_scalar v c.data_type c.nullable) [
    | err e ↦ err (as_catalog_error e)
    | ok w ↦ do ws ← validate_columns cs vs; ok (w ∷ ws)
  ]

  -- Schema.validate_row
  unfoldable pub validate_row : List Column → Tuple F → Result (Tuple F)
  unfolding validate_columns
  validate_row columns vs =
      if nat_beq (length vs) (length columns)
      then validate_columns columns vs
      else err catalog_error

module _ {S F : Type 0} (held : S → Tid → Option (Tuple F)) where
  -- What an insertion of a tuple may do to what a table holds at each TID.
  pub record Inserts (insertion : Tuple F → Action S Tid) : Type 0 where
    pub returns :
        (vs : Tuple F) (s s' : S) (t : Tid)
        → insertion vs s ≡ (ok t, s')
        → (held s t ≡ none)
          × (held s' t ≡ some vs)
          × ((u : Tid) → tid_beq t u ≡ false → held s' u ≡ held s u)
    pub raises :
        (vs : Tuple F) (s s' : S) (e : Error)
        → insertion vs s ≡ (err e, s')
        → (u : Tid) → held s' u ≡ held s u

-- A table holds at each TID what a fetch returns. Its methods change that at one TID at most.
pub record IsLawful {S F : Type 0} (access : TableAccess S F) : Type 0 where
  pub held : S → Tid → Option (Tuple F)
  pub fetches : (t : Tid) (s : S) → access.fetch_tuple t s ≡ (ok (held s t), s)
  pub inserts : Inserts held access.insert_tuple
  pub deletes :
      (t : Tid) (s : S) (w : Tuple F)
      → held s t ≡ some w
      → (s' : S) × (access.delete_tuple t s ≡ (ok true, s'))
        × (held s' t ≡ none)
        × ((u : Tid) → tid_beq t u ≡ false → held s' u ≡ held s u)
  pub deletes_none : (t : Tid) (s : S) → held s t ≡ none → access.delete_tuple t s ≡ (ok false, s)

-- A lawful table that refuses exactly the tuples that its columns refuse, and replaces in place.
pub record IsInPlace {S F : Type 0} (columns : List Column) (access : TableAccess S F)
    : Type 0 where
  pub lawful : IsLawful access
  pub accepts :
      (vs ws : Tuple F) (s : S)
      → validate_row columns vs ≡ ok ws
      → (t : Tid) × (s' : S) × (access.insert_tuple vs s ≡ (ok t, s'))
  pub refuses :
      (vs : Tuple F) (t : Tid) (s : S) (e : Error)
      → validate_row columns vs ≡ err e
      → (access.insert_tuple vs s ≡ (err e, s)) × (access.replace_tuple t vs s ≡ (err e, s))
  pub replaces :
      (vs ws w : Tuple F) (t : Tid) (s : S)
      → validate_row columns vs ≡ ok ws
      → lawful.held s t ≡ some w
      → (s' : S) × (access.replace_tuple t vs s ≡ (ok (some t), s'))
        × (lawful.held s' t ≡ some vs)
        × ((u : Tid) → tid_beq t u ≡ false → lawful.held s' u ≡ lawful.held s u)
  pub replaces_none :
      (vs ws : Tuple F) (t : Tid) (s : S)
      → validate_row columns vs ≡ ok ws
      → lawful.held s t ≡ none
      → access.replace_tuple t vs s ≡ (ok none, s)
