-- ===== src/Transaction/Manager/Runs.antt =====
-- Any sequence of calls on the transaction manager, whether they return or raise.
use mini_postgres.Base.{
  ℕ, ◌≤◌, ◌≡◌, ◌⊎◌, inl, inr, Option, some, List, [], ◌∷◌, arith, subst, Result, ok, ap,
  nat_hashable, Option-cases,
}
use mini_postgres.Dict
use mini_postgres.Transaction.Model.{
  LockKey, Snapshot, make_snapshot, IsolationLevel, TransactionState, Transaction, require_usable,
}
use mini_postgres.Transaction.Status.{TransactionStatus, StatusTable, get_status}
use mini_postgres.Transaction.Visibility.{TupleVersion, is_visible}
use mini_postgres.Wal.Manager.{WalManager}
use mini_postgres.Transaction.Manager.{
  TransactionManager, new_manager, begin, statement_snapshot, commit, abort, fail, acquire, resume,
  note_write,
}
use mini_postgres.Transaction.Manager.Invariant.{Inv, first_xid}
use mini_postgres.Transaction.Manager.Changes.{Changes, here, Changes-trans, snapshot_at}
use mini_postgres.Transaction.Manager.Kept.{Changes-Inv}
use mini_postgres.Transaction.Manager.Snapshots.{
  Shielded, Snaps, Changes-Snaps, is_visible-Changes, snapshot_at-Shielded,
}
use mini_postgres.Transaction.Manager.Calls.{begin-Changes, commit-Changes, abort-Changes}
use mini_postgres.Transaction.Manager.Locking.{
  fail-Changes, statement_snapshot-Changes, note_write-Changes, acquire-Changes, resume-Changes,
}

-- A call by some session, with the XID of its transaction.
pub data Request : Type 0 where
  begins : IsolationLevel → Request
  snapshots commits aborts fails writes : ℕ → Request
  acquires resumes : ℕ → LockKey → Request

-- the manager after the call, which may have raised
unfoldable pub perform : (List ℕ → ℕ) → Request → TransactionManager → TransactionManager
perform crc32 (begins isolation) m = (begin isolation m).1
perform crc32 (snapshots x) m = (statement_snapshot x m).1
perform crc32 (commits x) m = (commit crc32 x m).1
perform crc32 (aborts x) m = (abort crc32 x m).1
perform crc32 (fails x) m = (fail x m).1
perform crc32 (writes x) m = (note_write crc32 x m).1
perform crc32 (acquires x r) m = (acquire crc32 x r m).1
perform crc32 (resumes x r) m = (resume crc32 x r m).1

unfoldable pub run : (List ℕ → ℕ) → List Request → TransactionManager → TransactionManager
unfolding perform
run crc32 [] m = m
run crc32 (q ∷ qs) m = run crc32 qs (perform crc32 q m)

pub perform-Changes :
    (crc32 : List ℕ → ℕ) (q : Request) (m : TransactionManager)
    → Inv m
    → Changes m (perform crc32 q m)
unfolding perform
perform-Changes crc32 (begins isolation) m v = begin-Changes m isolation
perform-Changes crc32 (snapshots x) m v = statement_snapshot-Changes x m v
perform-Changes crc32 (commits x) m v = commit-Changes crc32 x m v
perform-Changes crc32 (aborts x) m v = abort-Changes crc32 x m v
perform-Changes crc32 (fails x) m v = fail-Changes x m v
perform-Changes crc32 (writes x) m v = note_write-Changes crc32 x m v
perform-Changes crc32 (acquires x r) m v = acquire-Changes crc32 x r m v
perform-Changes crc32 (resumes x r) m v = resume-Changes crc32 x r m v

pub run-Changes :
    (crc32 : List ℕ → ℕ) (qs : List Request) (m : TransactionManager)
    → Inv m
    → Changes m (run crc32 qs m)
unfolding run
run-Changes crc32 [] m v = here
run-Changes crc32 (q ∷ qs) m v =
    let c = perform-Changes crc32 q m v in
    Changes-trans c (run-Changes crc32 qs (perform crc32 q m) (Changes-Inv c v))

-- A manager that recovery starts satisfies the invariant if no XID from next_xid on has an outcome.
pub new_manager-Inv :
    (next_xid : ℕ) (statuses : StatusTable) (wal : Option WalManager)
    → first_xid ≤ next_xid
    → ((x : ℕ) → next_xid ≤ x → get_status statuses x ≡ TransactionStatus.in_progress)
    → Inv (new_manager next_xid statuses wal) × Snaps (new_manager next_xid statuses wal)
unfolding Dict.get Dict.elem
new_manager-Inv next_xid statuses wal h f = (
  record {
    first = h;
    agrees = λ x t e. absurd (ground arith);
    known = λ x e. absurd (ground arith);
    future = f;
  },
  λ x t s e es. absurd (ground arith),
)

-- What a successful statement_snapshot returns.
pub snapshot_result :
    (x : ℕ) (m m' : TransactionManager) (t : Transaction) (s : Snapshot)
    → Dict.get m.objects x ≡ some t
    → statement_snapshot x m ≡ (ok s, m')
    → (t.state ≡ TransactionState.active)
      × ((t.repeatable_snapshot ≡ some s) ⊎ (snapshot_at m x ≡ s))
unfolding statement_snapshot require_usable make_snapshot
snapshot_result x m m' t s ht h = ground arith

pub snapshot_exists :
    (x : ℕ) (m m' : TransactionManager) (s : Snapshot)
    → statement_snapshot x m ≡ (ok s, m')
    → (t : Transaction) × (Dict.get m.objects x ≡ some t)
unfolding statement_snapshot
snapshot_exists x m m' s h = elim (Option-cases (Dict.get m.objects x)) [
  | inl e ↦ absurd (ground arith)
  | inr r ↦ r
]

pub snapshot-Shielded :
    (x : ℕ) (m m' : TransactionManager) (s : Snapshot)
    → Snaps m
    → statement_snapshot x m ≡ (ok s, m')
    → Shielded m x s
snapshot-Shielded x m m' s p h =
    let (t, ht) = snapshot_exists x m m' s h in
    elim (snapshot_result x m m' t s ht h).1 [
      | inl e ↦ p x t s ht e
      | inr e ↦ subst (λ r. Shielded m x r) e (snapshot_at-Shielded m x)
    ]

-- The calls of any sequence keep the invariant and the shields of the snapshots in use.
pub run-Inv :
    (crc32 : List ℕ → ℕ) (qs : List Request) (m : TransactionManager)
    → Inv m
    → Snaps m
    → Inv (run crc32 qs m) × Snaps (run crc32 qs m)
run-Inv crc32 qs m v p = let c = run-Changes crc32 qs m v in (Changes-Inv c v, Changes-Snaps c p)

-- Whatever calls follow, a snapshot that was in use sees each tuple version as it did when it was
-- returned: a commit or an abort changes nothing in what it sees.
pub snapshot_stability :
    (crc32 : List ℕ → ℕ) (qs : List Request) (x : ℕ) (m m' : TransactionManager) (s : Snapshot)
    (v : TupleVersion)
    → Inv m
    → Snaps m
    → statement_snapshot x m ≡ (ok s, m')
    → is_visible v s x (run crc32 qs m').statuses ≡ is_visible v s x m.statuses
snapshot_stability crc32 qs x m m' s v i p h =
    let c =
      subst (λ u. Changes m u) (ap (λ (r : Result Snapshot × TransactionManager). r.1) h)
        (statement_snapshot-Changes x m i) in
    let d = Changes-trans c (run-Changes crc32 qs m' (Changes-Inv c i)) in
    (is_visible-Changes v x s d i (snapshot-Shielded x m m' s p h)).0
