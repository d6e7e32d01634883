-- ===== src/Transaction/Locks.antt =====
-- transaction/locks.py: the state of LockManager and the parts of its methods that concern it alone.
-- acquire, which may abort another transaction, stands with the transaction manager.
use mini_postgres.Base.{
  ℕ, Bool, false, Option, none, some, List, [], ◌∷◌, ◌++◌, if◌then◌else◌, nat_hashable, ◌==◌,
}
use mini_postgres.Dict
use mini_postgres.Dict.{Dict}
use mini_postgres.Transaction.Model.{LockKey, Transaction, lock_key_hashable}
use mini_postgres.Transaction.Deadlock.{Edges, list_or}

-- _transactions refers to transaction objects, by their XIDs.
pub record LockManager : Type 0 where
  pub owners : Dict LockKey ℕ
  pub queues : Dict LockKey (List ℕ)
  pub transactions : List ℕ

abbrev pub no_locks : LockManager
no_locks = record { owners = []; queues = []; transactions = [] }

abbrev pub owned_by : Option ℕ → ℕ → Bool
owned_by none xid = false
owned_by (some owner) xid = owner == xid

-- self._owners.get(resource) == xid
unfoldable pub owns : LockManager → LockKey → ℕ → Bool
owns l resource xid = owned_by (Dict.get l.owners resource) xid

unfoldable pub queue_of : LockManager → LockKey → List ℕ
queue_of l resource = list_or (Dict.get l.queues resource)

-- queues.setdefault(resource, deque()), and the append unless the XID is in the queue
unfoldable pub enqueue : LockManager → LockKey → ℕ → LockManager
unfolding queue_of
enqueue l resource xid =
    let queue = queue_of l resource in
    record l {
      queues =
          Dict.put l.queues resource (if Dict.elem xid queue then queue else queue ++ xid ∷ []);
    }

abbrev pub is_head : ℕ → List ℕ → Bool
is_head xid [] = false
is_head xid (x ∷ xs) = x == xid

-- the test of the loop of acquire: the resource has no owner and the XID is first in the queue
unfoldable pub grantable : LockManager → LockKey → ℕ → Bool
unfolding queue_of
grantable l resource xid = elim (Dict.get l.owners resource) [
  | none ↦ is_head xid (queue_of l resource)
  | some owner ↦ false
]

abbrev pub pop_left : List ℕ → List ℕ
pop_left [] = []
pop_left (x ∷ xs) = xs

-- queue.popleft() and self._owners[resource] = xid
unfoldable pub grant : LockManager → LockKey → ℕ → LockManager
unfolding queue_of
grant l resource xid = record l {
  owners = Dict.put l.owners resource xid;
  queues = Dict.put l.queues resource (pop_left (queue_of l resource));
}

-- the loop over transaction.resources: what the XID owns of them is released
unfoldable pub release_owned : Dict LockKey ℕ → ℕ → List LockKey → Dict LockKey ℕ
release_owned owners xid [] = owners
release_owned owners xid (r ∷ rs) =
    release_owned (if owned_by (Dict.get owners r) xid then Dict.del owners r else owners) xid rs

-- queue.remove(xid), ValueError suppressed
unfoldable pub remove_first : ℕ → List ℕ → List ℕ
remove_first xid [] = []
remove_first xid (x ∷ xs) = if x == xid then xs else x ∷ remove_first xid xs

unfoldable pub leave_queues : Dict LockKey (List ℕ) → ℕ → Dict LockKey (List ℕ)
unfolding remove_first
leave_queues [] xid = []
leave_queues ((r, queue) ∷ queues) xid = (r, remove_first xid queue) ∷ leave_queues queues xid

-- release_all: the lock manager's part; the transaction's resources become empty
unfoldable pub release_all : LockManager → Transaction → LockManager
unfolding release_owned leave_queues
release_all l t = record {
  owners = release_owned l.owners t.xid t.resources;
  queues = leave_queues l.queues t.xid;
  transactions = Dict.discard t.xid l.transactions;
}

union : List ℕ → List ℕ → List ℕ
union xs [] = xs
union xs (y ∷ ys) = union (Dict.add y xs) ys

-- the loop over one queue: each waiter waits for the owner and for the waiters before it
unfoldable pub queue_edges : List ℕ → List ℕ → Edges → Edges
unfolding union
queue_edges blockers [] edges = edges
queue_edges blockers (waiter ∷ queue) edges =
    queue_edges (blockers ++ waiter ∷ []) queue
      (Dict.put edges waiter (union (list_or (Dict.get edges waiter)) blockers))

abbrev pub owner_list : Option ℕ → List ℕ
owner_list none = []
owner_list (some owner) = owner ∷ []

unfoldable pub all_edges : Dict LockKey ℕ → Dict LockKey (List ℕ) → Edges → Edges
unfolding queue_edges
all_edges owners [] edges = edges
all_edges owners ((r, queue) ∷ queues) edges =
    all_edges owners queues (queue_edges (owner_list (Dict.get owners r)) queue edges)

-- _wait_graph
unfoldable pub wait_graph : LockManager → Edges
unfolding all_edges
wait_graph l = all_edges l.owners l.queues []

queued : Dict LockKey (List ℕ) → List ℕ → List ℕ
queued [] xids = xids
queued ((r, queue) ∷ queues) xids = queued queues (union xids queue)

-- waiting_xids
unfoldable pub waiting_xids : LockManager → List ℕ
unfolding queued union
waiting_xids l = queued l.queues []
