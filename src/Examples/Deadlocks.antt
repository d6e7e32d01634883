-- ===== src/Examples/Deadlocks.antt =====
-- The search for a deadlock at a concrete graph: 4 waits for 9, and 9 for 4 and 2.
use mini_postgres.Base.{◌≡◌, ◌≢◌, refl, none, some, [], ◌∷◌}
use mini_postgres.Dict.{get, elem, discard}
use mini_postgres.Transaction.Deadlock.{
  Edges, deadlock_victim, visit, visit_all, sorted, insert_sorted, targets, keys, nodes, down_to,
}
use mini_postgres.Transaction.Deadlock.Termination.{deadlock_victim_ends}

abbrev circle : Edges
circle = (4, 9 ∷ []) ∷ (9, 4 ∷ 2 ∷ []) ∷ []

deadlock_victim_ends_example : deadlock_victim circle ≢ none
deadlock_victim_ends_example = deadlock_victim_ends circle

-- The younger of the two is the victim.
victim_of_circle : deadlock_victim circle ≡ some (some 9)
unfolding deadlock_victim visit visit_all sorted insert_sorted targets keys nodes down_to get elem
    discard
victim_of_circle = refl
