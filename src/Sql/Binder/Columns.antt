-- ===== src/Sql/Binder/Columns.antt =====
-- The columns that a scope's names resolve to.
use mini_postgres.Base.{
  ℕ, ◌≡◌, refl, subst, inl, inr, Option, none, some, List, [], ◌∷◌, ok, ok_injective, arith,
  Bool-cases, All,
}
use mini_postgres.Values.{text_equal}
use mini_postgres.Values.Expressions.Typing.{Schema}
use mini_postgres.Sql.Syntax.{
  Name, Column, ScopeEntry, has_name, visible, find_column, matches, entries_of,
}

-- The schema knows the scope's columns.
abbrev pub InScope : Schema → List ScopeEntry → Type 0
InScope columns scope =
    All
      (λ s.
        All
          (λ c.
            columns (record { table_id = s.table_id; column_id = c.column_id })
            ≡ (c.data_type, c.nullable))
          s.columns)
      scope

module _ (columns : Schema) where
  -- What the schema knows of a column that a name matches.
  abbrev pub Known : ℕ × Column → Type 0
  Known m =
      columns (record { table_id = m.0; column_id = m.1.column_id }) ≡ (m.1.data_type, m.1.nullable)

  find_column-Known :
      (casefold : Name → Name) (name : Name) (table_id : ℕ) (cs : List Column) (c : Column)
      → All (λ c. Known (table_id, c)) cs
      → find_column casefold name cs ≡ some c
      → Known (table_id, c)
  unfolding find_column
  find_column-Known casefold name i [] c k h = cc
  find_column-Known casefold name i (d ∷ cs) c (k, ks) h =
      elim (Bool-cases (text_equal (casefold d.name) (casefold name))) [
        | inl e ↦ let same : d ≡ c = ground arith in subst (λ c. Known (i, c)) same k
        | inr e ↦ find_column-Known casefold name i cs c ks (rw e at h)
      ]

  added-Known :
      (i : ℕ) (o : Option Column) (rest : List (ℕ × Column))
      → ((c : Column) → o ≡ some c → Known (i, c))
      → All Known rest
      → All Known (elim o [ none ↦ rest | some c ↦ (i, c) ∷ rest ])
  added-Known i none rest k ks = ks
  added-Known i (some c) rest k ks = (k c refl, ks)

  pub matches-Known :
      (casefold : Name → Name) (name : Name) (ss : List ScopeEntry)
      → InScope columns ss
      → All Known (matches casefold name ss)
  unfolding matches
  matches-Known casefold name [] k = tt
  matches-Known casefold name (s ∷ ss) (k, ks) =
      added-Known s.table_id (find_column casefold name s.columns) (matches casefold name ss)
        (λ c. find_column-Known casefold name s.table_id s.columns c k)
        (matches-Known casefold name ss ks)

  visible-InScope :
      (n : Name) (ss : List ScopeEntry) → InScope columns ss → InScope columns (visible n ss)
  unfolding visible
  visible-InScope n [] k = tt
  visible-InScope n (s ∷ ss) (k, ks) = elim (Bool-cases (has_name n s.visible_names)) [
    | inl e ↦ rw e (k, visible-InScope n ss ks)
    | inr e ↦ rw e (visible-InScope n ss ks)
  ]

  pub entries_of-InScope :
      (casefold : Name → Name) (table : Option Name) (ss es : List ScopeEntry)
      → InScope columns ss
      → entries_of casefold table ss ≡ ok es
      → InScope columns es
  unfolding entries_of
  entries_of-InScope casefold none ss es k h = subst (InScope columns) (ok_injective h) k
  entries_of-InScope casefold (some t) ss es k h =
      subst (InScope columns) (ground arith) (visible-InScope (casefold t) ss k)
