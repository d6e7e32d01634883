-- ===== src/Sql/Syntax.antt =====
-- sql/ast.py's expressions, and the names of sql/binder.py: scopes, columns and aggregates. A name is
-- the list of its code points; str.casefold is a parameter.
use mini_postgres.Base.{
  ℕ, Bool, false, not, ◌||◌, ◌&&◌, Option, none, some, List, [], ◌∷◌, if◌then◌else◌, Result, ok,
  err, ◌>>=◌, bind_error,
}
use mini_postgres.Values.{DataType, Scalar, text_equal}
use mini_postgres.Values.Expressions.{UnaryOperator, BinaryOperator, BoundExpr, bound_column}

abbrev pub Name : Type 0
Name = List ℕ

mutual
  pub data Expr (F : Type 0) : Type 0 where
    literal : Scalar F → Expr F
    column_ref : Name → Option Name → Expr F
    star : Option Name → Expr F
    unary_expr : UnaryOperator → Expr F → Expr F
    binary_expr : Expr F → BinaryOperator → Expr F → Expr F
    is_null_expr : Expr F → Bool → Expr F
    function_call : Name → Exprs F → Expr F

  pub data Exprs (F : Type 0) : Type 0 where
    no_exprs : Exprs F
    more_exprs : Expr F → Exprs F → Exprs F

pub record Column : Type 0 where
  pub name : Name
  pub data_type : DataType
  pub nullable : Bool
  pub column_id : ℕ

-- _ScopeEntry, with the parts of its table's metadata that are read here
pub record ScopeEntry : Type 0 where
  pub table_id : ℕ
  pub columns : List Column
  pub visible_names : List Name

abbrev pub has_name : Name → List Name → Bool
has_name n [] = false
has_name n (m ∷ ms) = text_equal n m || has_name n ms

-- the entries that show the name
unfoldable pub visible : Name → List ScopeEntry → List ScopeEntry
visible n [] = []
visible n (s ∷ ss) =
    let rest = visible n ss in if has_name n s.visible_names then s ∷ rest else rest

abbrev pub count_name : Name
count_name = 67 ∷ 79 ∷ 85 ∷ 78 ∷ 84 ∷ []

abbrev pub sum_name : Name
sum_name = 83 ∷ 85 ∷ 77 ∷ []

abbrev pub avg_name : Name
avg_name = 65 ∷ 86 ∷ 71 ∷ []

abbrev pub aggregates : List Name
aggregates = count_name ∷ sum_name ∷ avg_name ∷ (77 ∷ 73 ∷ 78 ∷ []) ∷ (77 ∷ 65 ∷ 88 ∷ []) ∷ []

-- the schema's column of a name, by its casefolded name
unfoldable pub find_column : (Name → Name) → Name → List Column → Option Column
find_column casefold name [] = none
find_column casefold name (c ∷ cs) =
    if text_equal (casefold c.name) (casefold name) then some c else find_column casefold name cs

unfoldable pub matches : (Name → Name) → Name → List ScopeEntry → List (ℕ × Column)
unfolding find_column
matches casefold name [] = []
matches casefold name (s ∷ ss) =
    let rest = matches casefold name ss in
    elim (find_column casefold name s.columns) [ none ↦ rest | some c ↦ (s.table_id, c) ∷ rest ]

-- the entries among which _resolve_column looks
unfoldable pub entries_of : (Name → Name) → Option Name → List ScopeEntry → Result (List ScopeEntry)
unfolding visible
entries_of casefold none scope = ok scope
entries_of casefold (some table) scope = elim (visible (casefold table) scope) [
  | [] ↦ err bind_error
  | ◌∷◌ s ss ↦ ok (s ∷ ss)
]

module _ {F : Type 0} where
  -- the end of _resolve_column: one match, and no more
  unfoldable pub only_match : List (ℕ × Column) → Result (BoundExpr F)
  only_match [] = err bind_error
  only_match (m ∷ []) = ok (
      bound_column (record { table_id = m.0; column_id = m.1.column_id }) m.1.name m.1.data_type
        m.1.nullable)
  only_match (m ∷ _ ∷ _) = err bind_error

  unfoldable pub resolve_column :
      (Name → Name) → List ScopeEntry → Name → Option Name → Result (BoundExpr F)
  unfolding entries_of matches only_match
  resolve_column casefold scope name table = do
    entries ← entries_of casefold table scope
    only_match (matches casefold name entries)

-- the checks of _bind_function before it reads its arguments
abbrev pub function_allowed : Name → Bool → Bool → Bool
function_allowed name allow_aggregate nested =
    has_name name aggregates && allow_aggregate && not nested
