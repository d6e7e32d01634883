-- ===== src/Planner/RuleOptimizer/Columns.antt =====
-- Lists of columns, and what the pruning of columns takes from them.
use mini_postgres.Base.{
  ◌≡◌, ◌⊎◌, inl, inr, sym, ap, subst, ℕ, true, List, [], ◌∷◌, ◌++◌, map, arith, Bool-cases, nat_beq,
}
use mini_postgres.Values.Expressions.{ColumnBinding}
use mini_postgres.Sql.Syntax.{Column}
use mini_postgres.Planner.Logical.{TableMetadata}
use mini_postgres.Planner.Rules.{has_id}
use mini_postgres.Planner.RuleOptimizer.{column_ids, columns_in, table_bindings}

abbrev pub IsIn : {A : Type 0} → A → List A → Type 0
IsIn a [] = ⊥
IsIn a (x ∷ xs) = (x ≡ a) ⊎ IsIn a xs

module _ {A : Type 0} where
  pub IsIn-left : (a : A) (xs ys : List A) → IsIn a xs → IsIn a (xs ++ ys)
  IsIn-left a [] ys h = absurd h
  IsIn-left a (x ∷ xs) ys (inl e) = inl e
  IsIn-left a (x ∷ xs) ys (inr h) = inr (IsIn-left a xs ys h)

  pub IsIn-right : (a : A) (xs ys : List A) → IsIn a ys → IsIn a (xs ++ ys)
  IsIn-right a [] ys h = h
  IsIn-right a (x ∷ xs) ys h = inr (IsIn-right a xs ys h)

  IsIn-map : {B : Type 0} (f : A → B) (a : A) (xs : List A) → IsIn a xs → IsIn (f a) (map f xs)
  IsIn-map f a [] h = absurd h
  IsIn-map f a (x ∷ xs) (inl e) = inl (ap f e)
  IsIn-map f a (x ∷ xs) (inr h) = inr (IsIn-map f a xs h)

pub has_id-left : (n : ℕ) (ms ks : List ℕ) → has_id n ms ≡ true → has_id n (ms ++ ks) ≡ true
has_id-left n [] ks h = absurd (cc)
has_id-left n (m ∷ ms) ks h = ground (arith, has_id-left n ms ks)

pub has_id-right : (n : ℕ) (ms ks : List ℕ) → has_id n ks ≡ true → has_id n (ms ++ ks) ≡ true
has_id-right n [] ks h = h
has_id-right n (m ∷ ms) ks h = ground (arith, has_id-right n ms ks h)

pub columns_in-IsIn :
    (b : ColumnBinding) (ids : List ℕ) (bs : List ColumnBinding)
    → has_id b.table_id ids ≡ true
    → IsIn b bs
    → IsIn b (columns_in ids bs)
unfolding columns_in
columns_in-IsIn b ids [] h i = absurd i
columns_in-IsIn b ids (c ∷ bs) h (inl e) =
    let k : has_id c.table_id ids ≡ true = subst (λ x. has_id x.table_id ids ≡ true) (sym e) h in
    rw k (inl e)
columns_in-IsIn b ids (c ∷ bs) h (inr i) = elim (Bool-cases (has_id c.table_id ids)) [
  | inl k ↦ rw k (inr (columns_in-IsIn b ids bs h i))
  | inr k ↦ rw k (columns_in-IsIn b ids bs h i)
]

pub column_ids-IsIn :
    (b : ColumnBinding) (table : ℕ) (bs : List ColumnBinding)
    → b.table_id ≡ table
    → IsIn b bs
    → IsIn b.column_id (column_ids table bs)
unfolding column_ids
column_ids-IsIn b table [] h i = absurd i
column_ids-IsIn b table (c ∷ bs) h (inl e) =
    let k : nat_beq c.table_id table ≡ true =
      subst (λ x. nat_beq x.table_id table ≡ true) (sym e) (ground arith) in
    rw k (inl (ap (λ x. x.column_id) e))
column_ids-IsIn b table (c ∷ bs) h (inr i) = elim (Bool-cases (nat_beq c.table_id table)) [
  | inl k ↦ rw k (inr (column_ids-IsIn b table bs h i))
  | inr k ↦ rw k (column_ids-IsIn b table bs h i)
]

-- A column of a table.
abbrev pub IsColumnOf : TableMetadata → ColumnBinding → Type 0
IsColumnOf table b =
    (c : Column) × IsIn c table.columns
    × (record { table_id = table.table_id; column_id = c.column_id } ≡ b)

pub table_bindings-IsIn :
    (table : TableMetadata) (b : ColumnBinding) → IsColumnOf table b → IsIn b (table_bindings table)
unfolding table_bindings
table_bindings-IsIn table b (c, i, e) =
    subst (λ x. IsIn x (table_bindings table)) e
      (IsIn-map (λ c. record { table_id = table.table_id; column_id = c.column_id }) c table.columns
        i)

-- What is needed of a plan's tables is among the required columns.
abbrev pub Requires : (ColumnBinding → Type 0) → List ℕ → List ColumnBinding → Type 0
Requires R ids required = (b : ColumnBinding) → has_id b.table_id ids ≡ true → R b → IsIn b required

pub Requires-more :
    (R Q : ColumnBinding → Type 0) (ids : List ℕ) (required more : List ColumnBinding)
    → Requires R ids required
    → ((b : ColumnBinding) → Q b → IsIn b more)
    → Requires (λ b. R b ⊎ Q b) ids (required ++ more)
Requires-more R Q ids required more f g b h (inl r) = IsIn-left b required more (f b h r)
Requires-more R Q ids required more f g b h (inr q) = IsIn-right b required more (g b q)

pub Requires-side :
    (R Q : ColumnBinding → Type 0) (ids side : List ℕ) (required more : List ColumnBinding)
    → ((n : ℕ) → has_id n side ≡ true → has_id n ids ≡ true)
    → Requires R ids required
    → ((b : ColumnBinding) → Q b → IsIn b more)
    → Requires (λ b. R b ⊎ Q b) side (columns_in side (required ++ more))
Requires-side R Q ids side required more s f g b h q =
    columns_in-IsIn b side (required ++ more) h
      (Requires-more R Q ids required more f g b (s b.table_id h) q)
