-- ===== src/Transaction/Status.antt =====
-- transaction/status.py
use mini_postgres.Base.{
  ℕ, ◌≡◌, Bool, true, false, Option, none, some, arith, if◌then◌else◌, Result, ok, err, value_error,
  nat_hashable, ◌==◌,
}
use mini_postgres.Dict
use mini_postgres.Dict.{Dict}

pub data TransactionStatus : Type 0 where
  in_progress committed aborted : TransactionStatus

abbrev pub StatusTable : Type 0
StatusTable = Dict ℕ TransactionStatus

abbrev pub status_or : Option TransactionStatus → TransactionStatus
status_or none = in_progress
status_or (some s) = s

-- TransactionStatusTable.get
unfoldable pub get_status : StatusTable → ℕ → TransactionStatus
get_status table xid = status_or (Dict.get table xid)

abbrev pub same_status : TransactionStatus → TransactionStatus → Bool
same_status in_progress in_progress = true
same_status committed committed = true
same_status aborted aborted = true
same_status _ _ = false

-- current is not IN_PROGRESS and current is not status
abbrev pub terminal_conflict : TransactionStatus → TransactionStatus → Bool
terminal_conflict in_progress status = false
terminal_conflict committed status = if same_status committed status then false else true
terminal_conflict aborted status = if same_status aborted status then false else true

-- TransactionStatusTable.set
unfoldable pub set_status : StatusTable → ℕ → TransactionStatus → Result StatusTable
set_status table xid status =
    if terminal_conflict (get_status table xid) status
    then err value_error
    else ok (Dict.put table xid status)

pub get_status-put :
    (table : StatusTable) (x y : ℕ) (s : TransactionStatus)
    → get_status (Dict.put table x s) y ≡ (if x == y then s else get_status table y)
unfolding get_status
get_status-put table x y s = ground (arith, Dict.get-put table x y s)

-- A terminal status never changes again, whatever set_status is asked to record.
pub set_status-terminal :
    (table table' : StatusTable) (x y : ℕ) (s : TransactionStatus)
    → set_status table x s ≡ ok table'
    → (get_status table y ≡ committed → get_status table' y ≡ committed)
      × (get_status table y ≡ aborted → get_status table' y ≡ aborted)
unfolding set_status
set_status-terminal table table' x y s h = ground (arith, get_status-put table x y s)
