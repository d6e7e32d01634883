-- ===== src/Executor/Joins/Reversed.antt =====
-- The join that planner.py chooses where the condition names the right input's column first.
use mini_postgres.Base.{
  ◌≡◌, refl, ℕ, ℤ, Bool, false, none, some, List, [], ◌∷◌, ok, err, Hashable, type_mismatch,
  nat_beq, arith,
}
use mini_postgres.Dict.{get}
use mini_postgres.Values.{Floats, DataType, eq}
use mini_postgres.Values.Expressions.{
  ColumnBinding, bound_column, bound_binary, comparison, evaluate,
}
use mini_postgres.Planner.Planner.{hash_join_keys}
use mini_postgres.Executor.Rows.{ComputedKey, Row, Rows, row, drain, evaluate_on, binding_hashable}
use mini_postgres.Executor.Joins.{
  nested_rows, nested_loop_join, build_hash, hash_join, join_executor,
}

module _ {F : Type 0} (floats : Floats F) ⦃keys : Hashable (ComputedKey F)⦄ where
  evaluate_on-missing :
      (c : ColumnBinding) (name : List ℕ) (t : DataType) (n : Bool) (r : Row F)
      → r.computed ≡ []
      → get r.cells c ≡ none
      → evaluate_on floats (bound_column c name t n) r ≡ err type_mismatch
  unfolding evaluate_on evaluate get
  evaluate_on-missing c name t n r h g = rw (h, evaluate, get, g) refl

  hash_join_keys-columns :
      (c d : ColumnBinding) (x y : List ℕ) (t t' u : DataType) (n n' i : Bool)
      → nat_beq d.table_id c.table_id ≡ false
      → hash_join_keys {F = F}
          (bound_binary (bound_column d y t' n') (comparison eq) (bound_column c x t n) u i)
        ≡ some (bound_column d y t' n', bound_column c x t n)
  unfolding hash_join_keys
  hash_join_keys-columns c d x y t t' u n n' i h = ground arith

  -- For an equality of two columns of different tables, where the first right row is of tables alone
  -- and lacks the second column, the join that the planner chooses raises TypeMismatch when it is
  -- opened, whichever the left rows are. A nested loop join would open, if the right rows come
  -- without an error.
  pub join_executor-reversed :
      (equals_int : F → ℤ → Bool) (c d : ColumnBinding) (x y : List ℕ) (t t' u : DataType)
      (n n' i : Bool) (ls rs : Rows (Row F)) (r : Row F) (rights : List (Row F))
      → nat_beq d.table_id c.table_id ≡ false
      → r.computed ≡ []
      → get r.cells c ≡ none
      → drain rs ≡ ok rights
      → let condition =
          bound_binary (bound_column d y t' n') (comparison eq) (bound_column c x t n) u i in
        (join_executor floats equals_int (ok ls) (ok (row r rs)) condition ≡ err type_mismatch)
        × (nested_loop_join floats (ok ls) (ok (row r rs)) condition
            ≡ ok (nested_rows floats condition (r ∷ rights) ls))
  unfolding join_executor hash_join build_hash nested_loop_join drain
  join_executor-reversed equals_int c d x y t t' u n n' i ls rs r rights h plain missing k = (
    rw
        (
          join_executor,
          hash_join_keys-columns c d x y t t' u n n' i h,
          hash_join,
          build_hash,
          evaluate_on-missing c x t n r plain missing,
        )
        refl,
    rw (nested_loop_join, drain, k) refl,
  )
