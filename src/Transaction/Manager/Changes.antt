-- ===== src/Transaction/Manager/Changes.antt =====
-- What the calls of the transaction manager do to its tables, in terms of five changes.
use mini_postgres.Base.{
  ℕ, ◌+◌, ◌≡◌, ◌⊎◌, true, false, none, some, [], if◌then◌else◌, nat_hashable, ◌==◌,
}
use mini_postgres.Dict
use mini_postgres.Dict.{Dict}
use mini_postgres.Transaction.Model.{
  Snapshot, IsolationLevel, TransactionState, Transaction, new_transaction,
}
use mini_postgres.Transaction.Manager.{TransactionManager}
use mini_postgres.Transaction.Manager.Invariant.{is_running, status_of}

abbrev pub snapshot_at : TransactionManager → ℕ → Snapshot
snapshot_at m x = record { xmax = m.next_xid; active_xids = Dict.discard x m.active }

-- The table of objects has one object replaced.
abbrev pub Replaced : TransactionManager → TransactionManager → ℕ → Transaction → Type 0
Replaced m m' x t =
    (y : ℕ) → Dict.get m'.objects y ≡ (if x == y then some t else Dict.get m.objects y)

-- What no change but a commit, an abort or begin alters.
pub record SameTables (m m' : TransactionManager) : Type 0 where
  pub next_xid : m'.next_xid ≡ m.next_xid
  pub active : m'.active ≡ m.active
  pub statuses : m'.statuses ≡ m.statuses

-- A transaction object after a change of its resources or of has_writes.
pub record SameCore (t t' : Transaction) : Type 0 where
  pub xid : t'.xid ≡ t.xid
  pub isolation : t'.isolation ≡ t.isolation
  pub state : t'.state ≡ t.state
  pub repeatable_snapshot : t'.repeatable_snapshot ≡ t.repeatable_snapshot

pub data Change (m m' : TransactionManager) : Type 0 where
  begun :
      (isolation : IsolationLevel)
      → m'.next_xid ≡ m.next_xid + 1
      → m'.active ≡ Dict.add m.next_xid m.active
      → m'.statuses ≡ m.statuses
      → Replaced m m' m.next_xid (new_transaction m.next_xid isolation)
      → Change m m'
  kept :
      (x : ℕ) (t : Transaction)
      → Dict.get m.objects x ≡ some t
      → t.isolation ≡ IsolationLevel.repeatable_read
      → t.repeatable_snapshot ≡ none
      → SameTables m m'
      → Replaced m m' x (record t { repeatable_snapshot = some (snapshot_at m x) })
      → Change m m'
  touched :
      (x : ℕ) (t t' : Transaction)
      → Dict.get m.objects x ≡ some t
      → SameCore t t'
      → SameTables m m'
      → Replaced m m' x t'
      → Change m m'
  failed :
      (x : ℕ) (t : Transaction)
      → Dict.get m.objects x ≡ some t
      → t.state ≡ TransactionState.active
      → SameTables m m'
      → Replaced m m' x (record t { state = TransactionState.failed })
      → Change m m'
  ended :
      (x : ℕ) (t : Transaction) (state : TransactionState)
      → Dict.get m.objects x ≡ some t
      → is_running state ≡ false
      → (is_running t.state ≡ true) ⊎ (t.state ≡ state)
      → m'.next_xid ≡ m.next_xid
      → m'.active ≡ Dict.discard x m.active
      → m'.statuses ≡ Dict.put m.statuses x (status_of state)
      → Replaced m m' x (record t { state = state; resources = [] })
      → Change m m'
  shifted : SameTables m m' → m'.objects ≡ m.objects → Change m m'

pub data Changes (m : TransactionManager) : TransactionManager → Type 0 where
  here : Changes m m
  next : {m1 m2 : TransactionManager} → Changes m m1 → Change m1 m2 → Changes m m2

pub Changes-trans : {m m1 m2 : TransactionManager} → Changes m m1 → Changes m1 m2 → Changes m m2
Changes-trans c here = c
Changes-trans c (next d s) = next (Changes-trans c d) s
