-- ===== src/Sql/Binder/Soundness.antt =====
-- Expressions from the binder to their values.
use mini_postgres.Base.{◌≡◌, Bool, true, List, ok}
use mini_postgres.Values.{Floats}
use mini_postgres.Values.Expressions.{BoundExpr, ExecutionRow, evaluate}
use mini_postgres.Values.Expressions.Typing.{Schema, Conforms, delivers, nullable_of}
use mini_postgres.Values.Expressions.Soundness.{evaluate-delivers}
use mini_postgres.Sql.Syntax.{Name, Expr, ScopeEntry}
use mini_postgres.Sql.Binder.{bind_expression, data_type_of}
use mini_postgres.Sql.Binder.Columns.{InScope}
use mini_postgres.Sql.Binder.Typing.{bind_expression-WellTyped}

-- If the binder accepts an expression, then on every row of the scope's schema its evaluation returns
-- a value of the data type and nullability that the binder gave it, or raises TypeMismatch or
-- NumericOverflow, and nothing else.
pub bind_expression-delivers :
    {F : Type 0} (floats : Floats F) (casefold upper : Name → Name) (scope : List ScopeEntry)
    → (columns : Schema) (row : ExecutionRow F) (allow nested : Bool) (e : Expr F) (b : BoundExpr F)
    → InScope columns scope
    → Conforms columns row
    → bind_expression casefold upper scope allow nested e ≡ ok b
    → delivers (evaluate floats b row) (data_type_of b) (nullable_of b) ≡ true
bind_expression-delivers floats casefold upper scope columns row allow nested e b k c h =
    evaluate-delivers floats columns row c b (data_type_of b)
      (bind_expression-WellTyped casefold upper scope columns k allow nested e b h)
