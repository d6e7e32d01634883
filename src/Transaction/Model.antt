-- ===== src/Transaction/Model.antt =====
-- transaction/model.py, transaction/snapshot.py, the TID of row.py and the lock keys of
-- transaction/locks.py.
use mini_postgres.Base.{
  ℕ, ◌≡◌, ◌↔◌, Bool, true, false, ◌&&◌, ◌||◌, Option, none, List, [], ◌∷◌, arith, leb, nat_beq,
  if◌then◌else◌, Hashable, Result, ok, err, transaction_aborted, value_error,
}

pub record Tid : Type 0 where
  pub page_id : ℕ
  pub slot_id : ℕ

-- TupleLockKey | UniqueKeyLockKey
pub data LockKey : Type 0 where
  tuple_key : ℕ → Tid → LockKey
  unique_key : ℕ → List ℕ → LockKey

abbrev pub bytes_beq : List ℕ → List ℕ → Bool
bytes_beq [] [] = true
bytes_beq (x ∷ xs) (y ∷ ys) = nat_beq x y && bytes_beq xs ys
bytes_beq _ _ = false

pub bytes_beq_iff : (xs ys : List ℕ) → (bytes_beq xs ys ≡ true) ↔ (xs ≡ ys)
bytes_beq_iff [] [] = ground arith
bytes_beq_iff [] (y ∷ ys) = ground arith
bytes_beq_iff (x ∷ xs) [] = ground arith
bytes_beq_iff (x ∷ xs) (y ∷ ys) = ground (arith, bytes_beq_iff xs ys)

abbrev pub lock_key_beq : LockKey → LockKey → Bool
lock_key_beq (tuple_key a s) (tuple_key b t) =
    nat_beq a b && (nat_beq s.page_id t.page_id && nat_beq s.slot_id t.slot_id)
lock_key_beq (unique_key a s) (unique_key b t) = nat_beq a b && bytes_beq s t
lock_key_beq _ _ = false

pub lock_key_beq_iff : (a b : LockKey) → (lock_key_beq a b ≡ true) ↔ (a ≡ b)
lock_key_beq_iff (tuple_key a s) (tuple_key b t) = ground arith
lock_key_beq_iff (tuple_key a s) (unique_key b t) = ground arith
lock_key_beq_iff (unique_key a s) (tuple_key b t) = ground arith
lock_key_beq_iff (unique_key a s) (unique_key b t) = ground (arith, bytes_beq_iff s t)

instance abbrev pub lock_key_hashable : Hashable LockKey
lock_key_hashable = record { same = lock_key_beq; same_iff = lock_key_beq_iff }

pub record Snapshot : Type 0 where
  pub xmax : ℕ
  pub active_xids : List ℕ

-- any(xid <= 0 or xid >= xmax for xid in xids)
unfoldable pub any_invalid : ℕ → List ℕ → Bool
any_invalid xmax [] = false
any_invalid xmax (x ∷ xs) = (leb x 0 || leb xmax x) || any_invalid xmax xs

-- Snapshot(xmax, active_xids), with the check of __post_init__
unfoldable pub make_snapshot : ℕ → List ℕ → Result Snapshot
unfolding any_invalid
make_snapshot xmax xids =
    if any_invalid xmax xids
    then err value_error
    else ok (record { xmax = xmax; active_xids = xids })

pub data IsolationLevel : Type 0 where
  read_committed repeatable_read : IsolationLevel

pub data TransactionState : Type 0 where
  active failed committed aborted : TransactionState

pub record Transaction : Type 0 where
  pub xid : ℕ
  pub isolation : IsolationLevel
  pub state : TransactionState
  pub repeatable_snapshot : Option Snapshot
  pub has_writes : Bool
  pub resources : List LockKey

-- Transaction(xid, isolation)
abbrev pub new_transaction : ℕ → IsolationLevel → Transaction
new_transaction xid isolation = record {
  xid = xid;
  isolation = isolation;
  state = TransactionState.active;
  repeatable_snapshot = none;
  has_writes = false;
  resources = [];
}

-- Each method raises before it changes the object, so it returns the new object or the exception.
when_active : TransactionState → Transaction → Result Transaction
when_active TransactionState.active t = ok t
when_active _ t = err transaction_aborted

unfoldable pub require_usable : Transaction → Result Transaction
unfolding when_active
require_usable t = when_active t.state t

failed_if_usable : Result Transaction → Result Transaction
failed_if_usable (ok t) = ok (record t { state = TransactionState.failed })
failed_if_usable (err e) = err e

unfoldable pub mark_failed : Transaction → Result Transaction
unfolding failed_if_usable require_usable
mark_failed t = failed_if_usable (require_usable t)

committed_from : TransactionState → Transaction → Result Transaction
committed_from TransactionState.active t = ok (record t { state = TransactionState.committed })
committed_from _ t = err transaction_aborted

unfoldable pub mark_committed : Transaction → Result Transaction
unfolding committed_from
mark_committed t = committed_from t.state t

aborted_from : TransactionState → Transaction → Result Transaction
aborted_from TransactionState.committed t = err transaction_aborted
aborted_from _ t = ok (record t { state = TransactionState.aborted })

unfoldable pub mark_aborted : Transaction → Result Transaction
unfolding aborted_from
mark_aborted t = aborted_from t.state t
