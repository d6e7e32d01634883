-- ===== src/Transaction/Manager/Locking.antt =====
-- Snapshots, failures and lock requests are sequences of the changes too.
use mini_postgres.Base.{
  ℕ, ◌≡◌, refl, ◌⊎◌, inl, inr, true, Option, none, some, List, [], arith, Result, ok, err,
  if◌then◌else◌, nat_hashable, ◌==◌, Bool-cases, Option-cases, Result-cases, deadlock_detected,
}
use mini_postgres.Action.{and_then, ◌>>=◌, pure, raise}
use mini_postgres.Dict
use mini_postgres.Transaction.Model.{
  LockKey, unique_key, make_snapshot, IsolationLevel, TransactionState, Transaction, require_usable,
  mark_failed, lock_key_hashable,
}
use mini_postgres.Transaction.Deadlock.{deadlock_victim}
use mini_postgres.Transaction.Locks
use mini_postgres.Wal.Manager.{WalManager}
use mini_postgres.Transaction.Manager.{
  TransactionManager, object, statement_snapshot, abort, fail, abort_deadlock_victim, abort_victim,
  add_resource, take_lock, after_victim, attempt, register, join_queue, Acquired, granted, waiting,
  acquire, resume, note_write,
}
use mini_postgres.Transaction.Manager.Changes.{
  Change, kept, touched, failed, shifted, Changes, here, Changes-trans, SameCore, snapshot_at,
}
use mini_postgres.Transaction.Manager.Kept.{Changes-Inv}
use mini_postgres.Transaction.Manager.Calls.{Tame, one, reached, Change-to, abort-Changes}

Tame-bind :
    {A B : Type 0} (c : TransactionManager → Result A × TransactionManager)
    (f : A → TransactionManager → Result B × TransactionManager)
    → Tame c
    → ((a : A) → Tame (f a))
    → Tame (c >>= f)
Tame-bind {A} {B} c f hc hf m v = go (c m) (hc m v)
  where
    go : (r : Result A × TransactionManager) → Changes m r.1 → Changes m (and_then r f).1
    go (ok a, u) h = Changes-trans h (hf a u (Changes-Inv h v))
    go (err e, u) h = h

-- The manager with one object replaced.
abbrev with_object : TransactionManager → ℕ → Transaction → TransactionManager
with_object m x t = record m { objects = Dict.put m.objects x t }

module _ (m : TransactionManager) (x : ℕ) (t : Transaction)
    (ht : Dict.get m.objects x ≡ some t) where
  touched-Change :
      (t' : Transaction) (w : Option WalManager)
      → SameCore t t'
      → Change m (record m { wal = w; objects = Dict.put m.objects x t' })
  touched-Change t' w core =
      touched x t t' ht core (record { next_xid = refl; active = refl; statuses = refl })
        (λ y. Dict.get-put m.objects x y t')

  fail_cases :
      ((fail x m).1 ≡ m)
      ⊎ ((t.state ≡ TransactionState.active)
          × ((fail x m).1 ≡ with_object m x (record t { state = TransactionState.failed })))
  unfolding fail mark_failed
  fail_cases = ground arith

  snapshot_cases :
      ((statement_snapshot x m).1 ≡ m)
      ⊎ ((t.isolation ≡ IsolationLevel.repeatable_read)
          × (t.repeatable_snapshot ≡ none)
          × ((statement_snapshot x m).1
              ≡ with_object m x (record t { repeatable_snapshot = some (snapshot_at m x) })))
  unfolding statement_snapshot require_usable make_snapshot
  snapshot_cases = ground arith

  note_write_cases :
      (crc32 : List ℕ → ℕ)
      → ((note_write crc32 x m).1 ≡ m)
        ⊎ ((note_write crc32 x m).1 ≡ record m {
          wal = (note_write crc32 x m).1.wal;
          objects = Dict.put m.objects x (record t { has_writes = true });
        })
  unfolding note_write
  note_write_cases crc32 = ground arith

missing :
    (crc32 : List ℕ → ℕ) (m : TransactionManager) (x : ℕ) (r : LockKey)
    → Dict.get m.objects x ≡ none
    → ((fail x m).1 ≡ m)
      × ((statement_snapshot x m).1 ≡ m)
      × ((note_write crc32 x m).1 ≡ m)
      × ((add_resource x r m).1 ≡ m)
unfolding fail statement_snapshot note_write add_resource
missing crc32 m x r h = ground arith

pub fail-Changes : (x : ℕ) → Tame (fail x)
fail-Changes x m v = elim (Option-cases (Dict.get m.objects x)) [
  | inl e ↦ reached (missing (λ _. 0) m x (unique_key 0 []) e).0
  | inr (t, ht) ↦ elim (fail_cases m x t ht) [
    | inl e ↦ reached e
    | inr (hs, e) ↦ Change-to e (
        failed x t ht hs (record { next_xid = refl; active = refl; statuses = refl })
          (λ y. Dict.get-put m.objects x y _))
  ]
]

pub statement_snapshot-Changes : (x : ℕ) → Tame (statement_snapshot x)
statement_snapshot-Changes x m v = elim (Option-cases (Dict.get m.objects x)) [
  | inl e ↦ reached (missing (λ _. 0) m x (unique_key 0 []) e).1
  | inr (t, ht) ↦ elim (snapshot_cases m x t ht) [
    | inl e ↦ reached e
    | inr (hi, hr, e) ↦ Change-to e (
        kept x t ht hi hr (record { next_xid = refl; active = refl; statuses = refl })
          (λ y. Dict.get-put m.objects x y _))
  ]
]

pub note_write-Changes : (crc32 : List ℕ → ℕ) (x : ℕ) → Tame (note_write crc32 x)
note_write-Changes crc32 x m v = elim (Option-cases (Dict.get m.objects x)) [
  | inl e ↦ reached (missing crc32 m x (unique_key 0 []) e).2
  | inr (t, ht) ↦ elim (note_write_cases m x t ht crc32) [
    | inl e ↦ reached e
    | inr e ↦ Change-to e (
        touched-Change m x t ht (record t { has_writes = true }) _
          (record { xid = refl; isolation = refl; state = refl; repeatable_snapshot = refl }))
  ]
]

add_resource_found :
    (m : TransactionManager) (x : ℕ) (r : LockKey) (t : Transaction)
    → Dict.get m.objects x ≡ some t
    → (add_resource x r m).1 ≡ with_object m x (record t { resources = Dict.add r t.resources })
unfolding add_resource
add_resource_found m x r t h = ground arith

add_resource-Changes : (x : ℕ) (r : LockKey) → Tame (add_resource x r)
add_resource-Changes x r m v = elim (Option-cases (Dict.get m.objects x)) [
  | inl e ↦ reached (missing (λ _. 0) m x r e).3
  | inr (t, ht) ↦ Change-to (add_resource_found m x r t ht) (
      touched-Change m x t ht (record t { resources = Dict.add r t.resources }) m.wal
        (record { xid = refl; isolation = refl; state = refl; repeatable_snapshot = refl }))
]

-- The lock tables alone change.
locks-Change : (m : TransactionManager) (l : Locks.LockManager) → Change m (record m { locks = l })
locks-Change m l = shifted (record { next_xid = refl; active = refl; statuses = refl }) refl

Tame-returning :
    {A B : Type 0} (c : TransactionManager → Result A × TransactionManager) (b : B)
    → Tame c
    → Tame (c >>= λ _ m. (ok b, m))
Tame-returning c b hc = Tame-bind c (λ _ m. (ok b, m)) hc (λ _ m v. here)

take_lock-Changes : (x : ℕ) (r : LockKey) → Tame (take_lock x r)
unfolding take_lock
take_lock-Changes x r m v =
    let u = record m { locks = Locks.grant m.locks r x } in
    let h = one (locks-Change m (Locks.grant m.locks r x)) in
    Changes-trans h
      (Tame-returning (add_resource x r) granted (add_resource-Changes x r) u (Changes-Inv h v))

abort_victim-Changes : (crc32 : List ℕ → ℕ) (x : ℕ) → Tame (abort_victim crc32 x)
unfolding abort_victim abort_deadlock_victim
abort_victim-Changes crc32 x m v = elim (Bool-cases (Dict.elem x m.locks.transactions)) [
  | inl e ↦
      rw e
        (Tame-bind (fail x) (λ _. abort crc32 x) (fail-Changes x) (λ _. abort-Changes crc32 x) m v)
  | inr e ↦ rw e here
]

victim_outcome :
    (x victim : ℕ)
    → Unit {0}
    → Tame {A = Acquired} (if victim == x then raise deadlock_detected else pure waiting)
victim_outcome x victim _ m v = elim (Bool-cases (victim == x)) [
  | inl e ↦ rw e here
  | inr e ↦ rw e here
]

after_victim-Changes :
    (crc32 : List ℕ → ℕ) (x : ℕ) (o : Option (Option ℕ)) → Tame (after_victim crc32 x o)
unfolding after_victim
after_victim-Changes crc32 x none m v = here
after_victim-Changes crc32 x (some none) m v = here
after_victim-Changes crc32 x (some (some victim)) m v =
    Tame-bind (abort_victim crc32 victim)
      (λ _. if victim == x then raise deadlock_detected else pure waiting)
      (abort_victim-Changes crc32 victim) (victim_outcome x victim) m v

attempt-Changes : (crc32 : List ℕ → ℕ) (x : ℕ) (r : LockKey) → Tame (attempt crc32 x r)
unfolding attempt
attempt-Changes crc32 x r m v = elim (Bool-cases (Locks.grantable m.locks r x)) [
  | inl e ↦ rw e (take_lock-Changes x r m v)
  | inr e ↦ rw e (after_victim-Changes crc32 x (deadlock_victim (Locks.wait_graph m.locks)) m v)
]

-- A reference to an object that cannot be used raises and changes nothing, else the call goes on.
Tame-usable :
    {A : Type 0} (x : ℕ) (f : TransactionManager → Result A × TransactionManager)
    → Tame f
    → Tame (object x >>= λ t m. and_then (require_usable t, m) (λ _. f))
unfolding object
Tame-usable x f hf m v = elim (Option-cases (Dict.get m.objects x)) [
  | inl e ↦ rw e here
  | inr (t, ht) ↦ rw ht (elim (Result-cases (require_usable t)) [
    | inl (u, e) ↦ rw e (hf m v)
    | inr (z, e) ↦ rw e here
  ])
]

pub resume-Changes : (crc32 : List ℕ → ℕ) (x : ℕ) (r : LockKey) → Tame (resume crc32 x r)
unfolding resume
resume-Changes crc32 x r = Tame-usable x (attempt crc32 x r) (attempt-Changes crc32 x r)

-- The part of acquire behind the check of the transaction.
abbrev queue_up :
    (List ℕ → ℕ) → ℕ → LockKey → TransactionManager → Result Acquired × TransactionManager
queue_up crc32 x r = register x >>= λ _ m.
    if Locks.owns m.locks r x
    then (add_resource x r >>= λ _. pure granted) m
    else (join_queue r x >>= λ _. attempt crc32 x r) m

queue_up-Changes : (crc32 : List ℕ → ℕ) (x : ℕ) (r : LockKey) → Tame (queue_up crc32 x r)
unfolding register join_queue
queue_up-Changes crc32 x r m v =
    let l = record m.locks { transactions = Dict.add x m.locks.transactions } in
    let u = record m { locks = l } in
    let h = one (locks-Change m l) in
    elim (Bool-cases (Locks.owns l r x)) [
      | inl e ↦ rw e (
          Changes-trans h (
            Tame-returning (add_resource x r) granted (add_resource-Changes x r) u
              (Changes-Inv h v)))
      | inr e ↦ rw e (
          let k = one (locks-Change m (Locks.enqueue l r x)) in
          Changes-trans k (
            attempt-Changes crc32 x r (record m { locks = Locks.enqueue l r x }) (Changes-Inv k v)))
    ]

pub acquire-Changes : (crc32 : List ℕ → ℕ) (x : ℕ) (r : LockKey) → Tame (acquire crc32 x r)
unfolding acquire
acquire-Changes crc32 x r = Tame-usable x (queue_up crc32 x r) (queue_up-Changes crc32 x r)
