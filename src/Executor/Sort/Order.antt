-- ===== src/Executor/Sort/Order.antt =====
-- A sort orders its child's rows.
use mini_postgres.Base.{
  ◌≡◌, sym, subst, List, [], ◌∷◌, ok, ◌>>=◌, >>=-eq-ok, ok_injective, Hashable,
}
use mathlib.Core.List.{Perm}
use mathlib.Core.List.Perm
use mini_postgres.Values.{Floats}
use mini_postgres.Planner.Logical.{BoundOrderItem}
use mini_postgres.Executor.Rows.{ComputedKey, Row, Rows, Executor, from_list, drain}
use mini_postgres.Executor.Aggregates.{Mixed}
use mini_postgres.Executor.Sort.{
  Comparison, before, tied, after, compare_rows, insert_in_order, sort_list, sort_rows,
}
use mini_postgres.Executor.Sort.Flip.{IsStrict, compare_rows-flip}
use mini_postgres.Executor.Sort.Placement.{InOrder, compare_rows-InOrder}

module _ {F : Type 0} (floats : Floats F) (mixed : Mixed F) (strict : IsStrict floats mixed) where
  module _ ⦃keys : Hashable (ComputedKey F)⦄ where
    -- The given row may stand before the first of the rows, if there are any.
    abbrev pub IsBelow : List (BoundOrderItem F) → Row F → List (Row F) → Type 0
    IsBelow items r [] = Unit
    IsBelow items r (y ∷ ys) = InOrder floats mixed items r y

    -- Each row may stand before the one that follows it.
    abbrev pub IsOrdered : List (BoundOrderItem F) → List (Row F) → Type 0
    IsOrdered items [] = Unit
    IsOrdered items (r ∷ rs) = IsBelow items r rs × IsOrdered items rs

    -- What an insertion returns.
    record IsInserted (items : List (BoundOrderItem F)) (r : Row F) (rows out : List (Row F))
        : Type 0 where
      same_rows : Perm (r ∷ rows) out
      ordered : IsOrdered items rows → IsOrdered items out
      below :
          (y : Row F) → InOrder floats mixed items y r → IsBelow items y rows → IsBelow items y out

    IsInserted-first :
        (items : List (BoundOrderItem F)) (r : Row F) (rows : List (Row F))
        → IsBelow items r rows
        → IsInserted items r rows (r ∷ rows)
    IsInserted-first items r rows h = record {
      same_rows = Perm.refl _;
      ordered = λ o. (h, o);
      below = λ y n b. n;
    }

    insert_at :
        (items : List (BoundOrderItem F)) (r y : Row F) (ys out : List (Row F)) (c : Comparison)
        → compare_rows floats mixed items y r ≡ ok c
        → ((rest : List (Row F))
            → insert_in_order floats mixed items r ys ≡ ok rest
            → IsInserted items r ys rest)
        → (elim c [
          | before ↦ (insert_in_order floats mixed items r ys >>= λ rest. ok (y ∷ rest))
          | tied ↦ ok (r ∷ y ∷ ys)
          | after ↦ ok (r ∷ y ∷ ys)
        ])
          ≡ ok out
        → IsInserted items r (y ∷ ys) out
    insert_at items r y ys out before e f h =
        let (rest, e', h') = >>=-eq-ok (insert_in_order floats mixed items r ys) _ h in
        let g = f rest e' in
        let earlier = compare_rows-InOrder floats mixed items y r before e (λ k. cc) in
        subst (IsInserted items r (y ∷ ys)) (ok_injective h') (record {
          same_rows = Perm.trans (Perm.swap y r ys) (Perm.cons y g.same_rows);
          ordered = λ o. (g.below y earlier o.0, g.ordered o.1);
          below = λ x n b. b;
        })
    insert_at items r y ys out tied e f h =
        let flipped = compare_rows-flip floats mixed strict items y r tied e in
        subst (IsInserted items r (y ∷ ys)) (ok_injective h) (
          IsInserted-first items r (y ∷ ys)
            (compare_rows-InOrder floats mixed items r y tied flipped (λ k. cc)))
    insert_at items r y ys out after e f h =
        let flipped = compare_rows-flip floats mixed strict items y r after e in
        subst (IsInserted items r (y ∷ ys)) (ok_injective h) (
          IsInserted-first items r (y ∷ ys)
            (compare_rows-InOrder floats mixed items r y before flipped (λ k. cc)))

    insert_in_order-IsInserted :
        (items : List (BoundOrderItem F)) (r : Row F) (rows out : List (Row F))
        → insert_in_order floats mixed items r rows ≡ ok out
        → IsInserted items r rows out
    unfolding insert_in_order
    insert_in_order-IsInserted items r [] out h =
        subst (IsInserted items r []) (ok_injective h) (IsInserted-first items r [] tt)
    insert_in_order-IsInserted items r (y ∷ ys) out h =
        let (c, e, h') = >>=-eq-ok (compare_rows floats mixed items y r) _ h in
        insert_at items r y ys out c e (insert_in_order-IsInserted items r ys) h'

    sort_list-IsOrdered :
        (items : List (BoundOrderItem F)) (rows out : List (Row F))
        → sort_list floats mixed items rows ≡ ok out
        → Perm rows out × IsOrdered items out
    unfolding sort_list
    sort_list-IsOrdered items [] out h =
        subst (λ o. Perm [] o × IsOrdered items o) (ok_injective h) (Perm.refl [], tt)
    sort_list-IsOrdered items (r ∷ rows) out h =
        let (sorted, e, h') = >>=-eq-ok (sort_list floats mixed items rows) _ h in
        let (p, o) = sort_list-IsOrdered items rows sorted e in
        let g = insert_in_order-IsInserted items r sorted out h' in
        (Perm.trans (Perm.cons r p) g.same_rows, g.ordered o)

    -- If a sort opens, its child's rows came without an error, and it returns all of them, each row in
    -- order with the one that follows it: at the first item where the values of the two do not tie,
    -- that of the earlier row is less under ASC and greater under DESC, or one of them is a null,
    -- which comes first under NULLS FIRST, or under DESC without either, and last otherwise. Values
    -- tie that are both null, or of which neither is less. A number is less than another one way at
    -- most.
    pub sort_rows-IsOrdered :
        (child : Executor (Row F)) (items : List (BoundOrderItem F)) (out : Rows (Row F))
        → sort_rows floats mixed child items ≡ ok out
        → (rs : Rows (Row F)) × (rows : List (Row F)) × (sorted : List (Row F)) × (child ≡ ok rs)
          × (drain rs ≡ ok rows)
          × (out ≡ from_list sorted)
          × Perm rows sorted
          × IsOrdered items sorted
    unfolding sort_rows
    sort_rows-IsOrdered child items out h =
        let (rs, e, h1) = >>=-eq-ok child _ h in
        let (rows, e', h2) = >>=-eq-ok (drain rs) _ h1 in
        let (sorted, e'', h3) = >>=-eq-ok (sort_list floats mixed items rows) _ h2 in
        let (p, o) = sort_list-IsOrdered items rows sorted e'' in
        (rs, rows, sorted, e, e', sym (ok_injective h3), p, o)
