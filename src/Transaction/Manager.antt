-- ===== src/Transaction/Manager.antt =====
-- transaction/manager.py, and the methods of transaction/locks.py that abort deadlock victims.
-- A transaction object is referred to by its XID; `objects` holds every object that begin created.
-- Failpoints are inert outside crash tests, so hit() does nothing here.
pub mod Invariant
pub mod Changes
pub mod Kept
pub mod Snapshots
pub mod Calls
pub mod Locking
pub mod Runs
pub mod Repeatable
use mini_postgres.Base.{
  ℕ, ◌+◌, Bool, true, false, not, ◌&&◌, Option, none, some, List, [], ◌∷◌, if◌then◌else◌, Result,
  ok, err, key_error, deadlock_detected, nat_hashable, ◌==◌,
}
use mini_postgres.Action.{Action, pure, raise, lift, ◌>>=◌, ◌>>◌}
use mini_postgres.Dict
use mini_postgres.Dict.{Dict}
use mini_postgres.Transaction.Model.{
  LockKey, Snapshot, make_snapshot, IsolationLevel, TransactionState, Transaction, new_transaction,
  require_usable, mark_failed, mark_committed, mark_aborted, lock_key_hashable,
}
use mini_postgres.Transaction.Status.{TransactionStatus, StatusTable, set_status}
use mini_postgres.Transaction.Deadlock.{deadlock_victim}
use mini_postgres.Transaction.Locks
use mini_postgres.Transaction.Locks.{LockManager}
use mini_postgres.Wal.Records.{WalRecord}
use mini_postgres.Wal.Manager.{WalManager}
use mini_postgres.Wal.Manager

pub record TransactionManager : Type 0 where
  pub next_xid : ℕ
  pub active : List ℕ
  pub statuses : StatusTable
  pub locks : LockManager
  pub wal : Option WalManager
  pub objects : Dict ℕ Transaction

abbrev pub Call : Type 0 → Type 0
Call = Action TransactionManager

-- TransactionManager(next_xid, statuses, wal)
abbrev pub new_manager : ℕ → StatusTable → Option WalManager → TransactionManager
new_manager next_xid statuses wal = record {
  next_xid = next_xid;
  active = [];
  statuses = statuses;
  locks = Locks.no_locks;
  wal = wal;
  objects = [];
}

abbrev pub found : Option Transaction → Result Transaction
found none = err key_error
found (some t) = ok t

-- The object that a reference stands for; a caller has only references that begin returned.
unfoldable pub object : ℕ → Call Transaction
object xid m = (found (Dict.get m.objects xid), m)

unfoldable pub store : ℕ → Transaction → Call (Unit {0})
store xid t m = (ok tt, record m { objects = Dict.put m.objects xid t })

unfoldable pub begin : IsolationLevel → Call ℕ
begin isolation m = (
  ok m.next_xid,
  record m {
    next_xid = m.next_xid + 1;
    active = Dict.add m.next_xid m.active;
    objects = Dict.put m.objects m.next_xid (new_transaction m.next_xid isolation);
  },
)

abbrev pub is_repeatable : IsolationLevel → Bool
is_repeatable IsolationLevel.read_committed = false
is_repeatable IsolationLevel.repeatable_read = true

-- the snapshot that statement_snapshot builds
unfoldable pub fresh_snapshot : ℕ → TransactionManager → Result Snapshot
fresh_snapshot xid m = make_snapshot m.next_xid (Dict.discard xid m.active)

unfoldable pub keep_snapshot : ℕ → Transaction → Snapshot → Call Snapshot
unfolding store
keep_snapshot xid t s =
    if is_repeatable t.isolation
    then (do store xid (record t { repeatable_snapshot = some s }); pure s)
    else pure s

unfoldable pub snapshot_of : ℕ → Transaction → Option Snapshot → Call Snapshot
unfolding keep_snapshot fresh_snapshot
snapshot_of xid t none m = (do s ← lift (fresh_snapshot xid m); keep_snapshot xid t s) m
snapshot_of xid t (some s) m =
    if is_repeatable t.isolation
    then (ok s, m)
    else (do fresh ← lift (fresh_snapshot xid m); keep_snapshot xid t fresh) m

unfoldable pub statement_snapshot : ℕ → Call Snapshot
unfolding object snapshot_of
statement_snapshot xid = do
  t ← object xid
  usable ← lift (require_usable t)
  snapshot_of xid usable usable.repeatable_snapshot

abbrev pub is_aborted : TransactionState → Bool
is_aborted TransactionState.aborted = true
is_aborted _ = false

-- self._wal.append and self._wal.flush(self._wal.end_lsn)
unfoldable pub append_and_flush :
    (List ℕ → ℕ) → ℕ → WalRecord → WalManager → Result WalManager × WalManager
append_and_flush crc32 xid r w = elim (Manager.append crc32 w xid r) [
  | err e ↦ (err e, w)
  | ok w1 ↦ elim (Manager.flush w1 (some w1.end_lsn)) [ err e ↦ (err e, w1) | ok w2 ↦ (ok w2, w2) ]
]

abbrev pub with_wal :
    TransactionManager → Result WalManager × WalManager → Result (Unit {0}) × TransactionManager
with_wal m (ok u, w) = (ok tt, record m { wal = some w })
with_wal m (err e, w) = (err e, record m { wal = some w })

-- The outcome of a transaction with writes goes to the log first.
unfoldable pub log_outcome : (List ℕ → ℕ) → ℕ → WalRecord → Bool → Call (Unit {0})
log_outcome crc32 xid r logged m =
    if logged
    then elim m.wal [ none ↦ (ok tt, m) | some w ↦ with_wal m (append_and_flush crc32 xid r w) ]
    else (ok tt, m)

-- self.statuses.set, self._active.pop and self.locks.release_all
unfoldable pub end_transaction : ℕ → TransactionStatus → Call (Unit {0})
end_transaction xid status m = elim (set_status m.statuses xid status) [
  | err e ↦ (err e, m)
  | ok table ↦ elim (Dict.get m.objects xid) [
    | none ↦ (err key_error, m)
    | some t ↦ (
      ok tt,
      record m {
        statuses = table;
        active = Dict.discard xid m.active;
        locks = Locks.release_all m.locks t;
        objects = Dict.put m.objects xid (record t { resources = [] });
      },
    )
  ]
]

unfoldable pub commit : (List ℕ → ℕ) → ℕ → Call (Unit {0})
unfolding object store
commit crc32 xid = do
  t ← object xid
  log_outcome crc32 xid WalRecord.commit t.has_writes
  committed ← lift (mark_committed t)
  store xid committed
  end_transaction xid TransactionStatus.committed

unfoldable pub abort_if_needed : ℕ → Transaction → Call (Unit {0})
unfolding store
abort_if_needed xid t =
    if is_aborted t.state then pure tt else (do aborted ← lift (mark_aborted t); store xid aborted)

unfoldable pub abort : (List ℕ → ℕ) → ℕ → Call (Unit {0})
unfolding object abort_if_needed
abort crc32 xid = do
  t ← object xid
  log_outcome crc32 xid WalRecord.abort (t.has_writes && not (is_aborted t.state))
  abort_if_needed xid t
  end_transaction xid TransactionStatus.aborted

-- transaction.mark_failed(), by the engine or for a deadlock victim
unfoldable pub fail : ℕ → Call (Unit {0})
unfolding object store
fail xid = do t ← object xid; failed ← lift (mark_failed t); store xid failed

-- _abort_deadlock_victim
unfoldable pub abort_deadlock_victim : (List ℕ → ℕ) → ℕ → Call (Unit {0})
abort_deadlock_victim crc32 xid = do fail xid; abort crc32 xid

pub data Acquired : Type 0 where
  granted waiting : Acquired

-- LockManager._abort_victim
unfoldable pub abort_victim : (List ℕ → ℕ) → ℕ → Call (Unit {0})
abort_victim crc32 victim m =
    if Dict.elem victim m.locks.transactions
    then abort_deadlock_victim crc32 victim m
    else (ok tt, m)

-- transaction.resources.add(resource)
unfoldable pub add_resource : ℕ → LockKey → Call (Unit {0})
unfolding object store
add_resource xid resource = do
  t ← object xid
  store xid (record t { resources = Dict.add resource t.resources })

unfoldable pub take_lock : ℕ → LockKey → Call Acquired
unfolding add_resource
take_lock xid resource m =
    (do add_resource xid resource; pure granted)
      (record m { locks = Locks.grant m.locks resource xid })

unfoldable pub after_victim : (List ℕ → ℕ) → ℕ → Option (Option ℕ) → Call Acquired
after_victim crc32 xid (some (some victim)) = do
  abort_victim crc32 victim
  if victim == xid then raise deadlock_detected else pure waiting
after_victim crc32 xid _ = pure waiting

-- one round of the loop of LockManager.acquire, up to the wait or the return
unfoldable pub attempt : (List ℕ → ℕ) → ℕ → LockKey → Call Acquired
unfolding after_victim
attempt crc32 xid resource m =
    if Locks.grantable m.locks resource xid
    then take_lock xid resource m
    else after_victim crc32 xid (deadlock_victim (Locks.wait_graph m.locks)) m

unfoldable pub register : ℕ → Call (Unit {0})
register xid m = (
  ok tt,
  record m { locks = record m.locks { transactions = Dict.add xid m.locks.transactions } },
)

unfoldable pub join_queue : LockKey → ℕ → Call (Unit {0})
join_queue resource xid m = (ok tt, record m { locks = Locks.enqueue m.locks resource xid })

-- LockManager.acquire up to its first wait or its return
unfoldable pub acquire : (List ℕ → ℕ) → ℕ → LockKey → Call Acquired
unfolding object register join_queue add_resource
acquire crc32 xid resource = do
  t ← object xid
  lift (require_usable t)
  register xid
  λ m.
      if Locks.owns m.locks resource xid
      then (do add_resource xid resource; pure granted) m
      else (do join_queue resource xid; attempt crc32 xid resource) m

-- LockManager.acquire from a wake-up to its next wait or its return
unfoldable pub resume : (List ℕ → ℕ) → ℕ → LockKey → Call Acquired
unfolding object
resume crc32 xid resource = do t ← object xid; lift (require_usable t); attempt crc32 xid resource

-- storage/heap.py, before the first page image of a transaction: BeginRecord, has_writes = True
unfoldable pub note_write : (List ℕ → ℕ) → ℕ → Call (Unit {0})
unfolding object store
note_write crc32 xid = do
  t ← object xid
  λ m. elim m.wal [
    | none ↦ (ok tt, m)
    | some w ↦
        if t.has_writes then (ok tt, m) else elim (Manager.append crc32 w xid WalRecord.begin) [
          | err e ↦ (err e, m)
          | ok w' ↦ store xid (record t { has_writes = true }) (record m { wal = some w' })
        ]
  ]

abbrev pub active_objects : Dict ℕ Transaction → List ℕ → List Transaction
active_objects objects [] = []
active_objects objects (x ∷ xs) = elim (Dict.get objects x) [
  | none ↦ active_objects objects xs
  | some t ↦ t ∷ active_objects objects xs
]

-- active_transactions
unfoldable pub active_transactions : TransactionManager → List Transaction
active_transactions m = active_objects m.objects m.active
