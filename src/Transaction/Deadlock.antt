-- ===== src/Transaction/Deadlock.antt =====
-- transaction/deadlock.py: the depth-first search for a cycle of the wait-for graph.
pub mod Termination
use mini_postgres.Base.{
  ℕ, zero, suc, Option, none, some, List, [], ◌∷◌, ◌++◌, leb, max, if◌then◌else◌, nat_hashable,
  ◌==◌, length,
}
use mini_postgres.Dict
use mini_postgres.Dict.{Dict}

-- WaitForGraph.edges: the XIDs that each XID waits for
abbrev pub Edges : Type 0
Edges = Dict ℕ (List ℕ)

unfoldable pub insert_sorted : ℕ → List ℕ → List ℕ
insert_sorted x [] = x ∷ []
insert_sorted x (y ∷ ys) = if leb x y then x ∷ y ∷ ys else y ∷ insert_sorted x ys

-- sorted(xs)
unfoldable pub sorted : List ℕ → List ℕ
unfolding insert_sorted
sorted [] = []
sorted (x ∷ xs) = insert_sorted x (sorted xs)

abbrev pub list_or : Option (List ℕ) → List ℕ
list_or none = []
list_or (some xs) = xs

-- edges.get(node, ())
unfoldable pub targets : Edges → ℕ → List ℕ
targets edges node = list_or (Dict.get edges node)

-- The three variables that visit shares; the stack is held top first.
pub record Search : Type 0 where
  pub visited : List ℕ
  pub active : List ℕ
  pub stack : List ℕ

pub data Visit : Type 0 where
  cycle : List ℕ → Visit
  finished : Search → Visit

-- set(stack[stack.index(node):])
unfoldable pub down_to : ℕ → List ℕ → List ℕ
down_to node [] = []
down_to node (x ∷ xs) = let rest = down_to node xs in if x == node then x ∷ [] else x ∷ rest

abbrev pub enter : ℕ → Search → Search
enter node s = record {
  visited = node ∷ s.visited;
  active = node ∷ s.active;
  stack = node ∷ s.stack;
}

abbrev pub pop : List ℕ → List ℕ
pop [] = []
pop (x ∷ xs) = xs

-- stack.pop() and active.remove(node), where no cycle was found below
abbrev pub leave : ℕ → Option Visit → Option Visit
leave node none = none
leave node (some (cycle c)) = some (cycle c)
leave node (some (finished s)) =
    some (finished (record s { active = Dict.discard node s.active; stack = pop s.stack }))

-- the loops over sorted nodes
unfoldable pub visit_all : (ℕ → Search → Option Visit) → List ℕ → Search → Option Visit
visit_all visit [] s = some (finished s)
visit_all visit (n ∷ ns) s = elim (visit n s) [
  | none ↦ none
  | some v ↦ elim v [ cycle c ↦ some (cycle c) | finished s' ↦ visit_all visit ns s' ]
]

-- visit; none means that the fuel ran out
unfoldable pub visit : Edges → ℕ → ℕ → Search → Option Visit
visit edges zero node s = none
visit edges (suc fuel) node s =
    if Dict.elem node s.active
    then some (cycle (down_to node s.stack))
    else if Dict.elem node s.visited
    then some (finished s)
    else leave node (visit_all (visit edges fuel) (sorted (targets edges node)) (enter node s))

unfoldable pub keys : Edges → List ℕ
keys [] = []
keys ((k, ts) ∷ edges) = k ∷ keys edges

-- all nodes of the graph, an XID as often as it is named
unfoldable pub nodes : Edges → List ℕ
nodes [] = []
nodes ((k, ts) ∷ edges) = k ∷ (ts ++ nodes edges)

abbrev pub maximum : List ℕ → Option ℕ
maximum [] = none
maximum (x ∷ xs) = elim (maximum xs) [ none ↦ some x | some m ↦ some (max x m) ]

abbrev pub victim_of : Option Visit → Option (Option ℕ)
victim_of none = none
victim_of (some (cycle c)) = some (maximum c)
victim_of (some (finished s)) = some none

abbrev pub start : Search
start = record { visited = []; active = []; stack = [] }

-- deadlock_victim: each level of the search enters a node that was not visited, so one more than the
-- number of nodes is fuel enough.
unfoldable pub deadlock_victim : Edges → Option (Option ℕ)
deadlock_victim edges =
    victim_of (visit_all (visit edges (suc (length (nodes edges)))) (sorted (keys edges)) start)
