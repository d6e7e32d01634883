-- ===== src/Transaction/Manager/Invariant.antt =====
-- The invariant of the transaction manager: what its three tables say of one transaction agrees.
use mini_postgres.Base.{ℕ, ◌≤◌, ◌<◌, ◌≡◌, Bool, true, false, Option, none, some, nat_hashable}
use mini_postgres.Dict
use mini_postgres.Transaction.Model.{TransactionState, Transaction}
use mini_postgres.Transaction.Status.{TransactionStatus, get_status}
use mini_postgres.Transaction.Manager.{TransactionManager}

-- Whether a transaction in a state is among the active ones, and its status in the table.
abbrev pub is_running : TransactionState → Bool
is_running TransactionState.active = true
is_running TransactionState.failed = true
is_running TransactionState.committed = false
is_running TransactionState.aborted = false

abbrev pub status_of : TransactionState → TransactionStatus
status_of TransactionState.active = TransactionStatus.in_progress
status_of TransactionState.failed = TransactionStatus.in_progress
status_of TransactionState.committed = TransactionStatus.committed
status_of TransactionState.aborted = TransactionStatus.aborted

-- The first XID that begin may give: 0 marks a version that is not deleted, 1 is the system.
abbrev pub first_xid : ℕ
first_xid = 2

abbrev pub IsSome {ℓ} : {A : Type ℓ} → Option A → Type 0
IsSome none = ⊥
IsSome (some a) = Unit

pub record Agrees (m : TransactionManager) (x : ℕ) (t : Transaction) : Type 0 where
  pub named : t.xid ≡ x
  pub above : first_xid ≤ x
  pub below : x < m.next_xid
  pub running : Dict.elem x m.active ≡ is_running t.state
  pub status : get_status m.statuses x ≡ status_of t.state

pub record Inv (m : TransactionManager) : Type 0 where
  pub first : first_xid ≤ m.next_xid
  pub agrees : (x : ℕ) (t : Transaction) → Dict.get m.objects x ≡ some t → Agrees m x t
  pub known : (x : ℕ) → Dict.elem x m.active ≡ true → IsSome (Dict.get m.objects x)
  -- no outcome is recorded for an XID that has not been given
  pub future : (x : ℕ) → m.next_xid ≤ x → get_status m.statuses x ≡ TransactionStatus.in_progress
