-- ===== src/Transaction/Manager/Calls.antt =====
-- Each call of the transaction manager is a sequence of the changes, errors included.
use mini_postgres.Base.{
  ℕ, ◌≡◌, refl, sym, ◌⊎◌, inl, inr, Bool, true, false, not, ◌&&◌, Option, none, some, List, [],
  arith, subst, Result, nat_hashable, Option-cases,
}
use mini_postgres.Dict
use mini_postgres.Transaction.Model.{
  IsolationLevel, TransactionState, Transaction, new_transaction, mark_committed, mark_aborted,
}
use mini_postgres.Transaction.Status.{TransactionStatus, set_status}
use mini_postgres.Transaction.Locks
use mini_postgres.Wal.Records.{WalRecord}
use mini_postgres.Wal.Manager.{WalManager}
use mini_postgres.Transaction.Manager.{
  TransactionManager, begin, is_aborted, log_outcome, end_transaction, commit, abort,
  append_and_flush,
}
use mini_postgres.Transaction.Manager.Invariant.{is_running, status_of, Inv}
use mini_postgres.Transaction.Manager.Changes.{Change, begun, ended, shifted, Changes, here, next}

pub one : {m m' : TransactionManager} → Change m m' → Changes m m'
one c = next here c

abbrev moved : TransactionManager → Option WalManager → TransactionManager
moved m w = record m { wal = w }

pub begin-Changes :
    (m : TransactionManager) (isolation : IsolationLevel) → Changes m (begin isolation m).1
unfolding begin
begin-Changes m isolation = one (
    begun isolation refl refl refl
      (λ y. Dict.get-put m.objects m.next_xid y (new_transaction m.next_xid isolation)))

-- Logging an outcome moves the log and nothing else.
pub log_outcome-moved :
    (crc32 : List ℕ → ℕ) (x : ℕ) (r : WalRecord) (logged : Bool) (m : TransactionManager)
    → (log_outcome crc32 x r logged m).1 ≡ moved m (log_outcome crc32 x r logged m).1.wal
unfolding log_outcome append_and_flush
log_outcome-moved crc32 x r logged m = ground arith

-- The tables after a transaction has ended.
abbrev ended_at :
    TransactionManager → ℕ → Transaction → TransactionState → Option WalManager → TransactionManager
ended_at m x t state w = record m {
  statuses = Dict.put m.statuses x (status_of state);
  active = Dict.discard x m.active;
  locks = Locks.release_all m.locks (record t { state = state });
  wal = w;
  objects =
      Dict.put (Dict.put m.objects x (record t { state = state })) x
        (record t { state = state; resources = [] });
}

module _ (crc32 : List ℕ → ℕ) (x : ℕ) (m : TransactionManager) (v : Inv m) where
  ended_at-Change :
      (t : Transaction) (state : TransactionState) (w : Option WalManager)
      → Dict.get m.objects x ≡ some t
      → is_running state ≡ false
      → (is_running t.state ≡ true) ⊎ (t.state ≡ state)
      → Change m (ended_at m x t state w)
  ended_at-Change t state w ht hf may = ended x t state ht hf may refl refl refl λ y. ground (
    arith,
    Dict.get-put m.objects x y (record t { state = state }),
    Dict.get-put (Dict.put m.objects x (record t { state = state })) x y
        (record t { state = state; resources = [] }),
  )

  commit_cases :
      (t : Transaction)
      → Dict.get m.objects x ≡ some t
      → (w : Option WalManager) × (((commit crc32 x m).1 ≡ moved m w)
          ⊎ ((t.state ≡ TransactionState.active)
              × ((commit crc32 x m).1 ≡ ended_at m x t TransactionState.committed w)))
  unfolding commit end_transaction set_status mark_committed
  commit_cases t ht =
      let logged = log_outcome crc32 x WalRecord.commit t.has_writes m in
      (
        logged.1.wal,
        ground (
          arith,
          log_outcome-moved crc32 x WalRecord.commit t.has_writes m,
          (v.agrees x t ht).status,
          Dict.get-put m.objects x x (record t { state = TransactionState.committed }),
        ),
      )

  -- The tables after an aborted transaction is aborted once more.
  abbrev ended_again : Transaction → Option WalManager → TransactionManager
  ended_again t w = record m {
    statuses = Dict.put m.statuses x TransactionStatus.aborted;
    active = Dict.discard x m.active;
    locks = Locks.release_all m.locks t;
    wal = w;
    objects = Dict.put m.objects x (record t { resources = [] });
  }

  abort_cases :
      (t : Transaction)
      → Dict.get m.objects x ≡ some t
      → (w : Option WalManager) × (((abort crc32 x m).1 ≡ moved m w)
          ⊎ (((is_running t.state ≡ true)
                × ((abort crc32 x m).1 ≡ ended_at m x t TransactionState.aborted w))
              ⊎ ((t.state ≡ TransactionState.aborted) × ((abort crc32 x m).1 ≡ ended_again t w))))
  unfolding abort end_transaction set_status mark_aborted
  abort_cases t ht =
      let b = t.has_writes && not (is_aborted t.state) in
      let logged = log_outcome crc32 x WalRecord.abort b m in
      (
        logged.1.wal,
        ground (
          arith,
          log_outcome-moved crc32 x WalRecord.abort b m,
          (v.agrees x t ht).status,
          Dict.get-put m.objects x x (record t { state = TransactionState.aborted }),
        ),
      )

  ended_again-Change :
      (t : Transaction) (w : Option WalManager)
      → Dict.get m.objects x ≡ some t
      → t.state ≡ TransactionState.aborted
      → Change m (ended_again t w)
  ended_again-Change t w ht hs =
      ended x t TransactionState.aborted ht refl (inr hs) refl refl refl
        λ y. ground (arith, Dict.get-put m.objects x y (record t { resources = [] }))

  moved-Change : (w : Option WalManager) → Change m (moved m w)
  moved-Change w = shifted (record { next_xid = refl; active = refl; statuses = refl }) refl

  -- A reference to no object raises and changes nothing.
  commit_missing : Dict.get m.objects x ≡ none → (commit crc32 x m).1 ≡ m
  unfolding commit
  commit_missing h = ground arith

  abort_missing : Dict.get m.objects x ≡ none → (abort crc32 x m).1 ≡ m
  unfolding abort
  abort_missing h = ground arith

-- Calls that make only changes.
abbrev pub Tame : {A : Type 0} → (TransactionManager → Result A × TransactionManager) → Type 0
Tame c = (m : TransactionManager) → Inv m → Changes m (c m).1

pub reached : {m m' : TransactionManager} → m' ≡ m → Changes m m'
reached {m} e = subst (λ u. Changes m u) (sym e) here

pub Change-to : {m m' u : TransactionManager} → u ≡ m' → Change m m' → Changes m u
Change-to {m} e c = subst (λ u. Changes m u) (sym e) (one c)

pub commit-Changes : (crc32 : List ℕ → ℕ) (x : ℕ) → Tame (commit crc32 x)
commit-Changes crc32 x m v = elim (Option-cases (Dict.get m.objects x)) [
  | inl e ↦ reached (commit_missing crc32 x m v e)
  | inr (t, ht) ↦
      let (w, cases) = commit_cases crc32 x m v t ht in
      elim cases [
        | inl e ↦ Change-to e (moved-Change crc32 x m v w)
        | inr (hs, e) ↦
            Change-to e (
              ended_at-Change crc32 x m v t TransactionState.committed w ht refl (inl (rw hs refl)))
      ]
]

pub abort-Changes : (crc32 : List ℕ → ℕ) (x : ℕ) → Tame (abort crc32 x)
abort-Changes crc32 x m v = elim (Option-cases (Dict.get m.objects x)) [
  | inl e ↦ reached (abort_missing crc32 x m v e)
  | inr (t, ht) ↦
      let (w, cases) = abort_cases crc32 x m v t ht in
      elim cases [
        | inl e ↦ Change-to e (moved-Change crc32 x m v w)
        | inr rest ↦ elim rest [
          | inl (hs, e) ↦
              Change-to e
                (ended_at-Change crc32 x m v t TransactionState.aborted w ht refl (inl hs))
          | inr (hs, e) ↦ Change-to e (ended_again-Change crc32 x m v t w ht hs)
        ]
      ]
]
