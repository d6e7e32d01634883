-- ===== src/Transaction/Manager/Repeatable.antt =====
-- A repeatable-read transaction keeps the snapshot of its first statement.
use mini_postgres.Base.{
  ℕ, ◌≡◌, refl, ◌∙◌, inl, inr, some, List, arith, subst, Result, ok, ap, nat_hashable, ◌==◌,
  Bool-cases,
}
use mini_postgres.Dict
use mini_postgres.Transaction.Model.{
  Snapshot, make_snapshot, IsolationLevel, Transaction, require_usable,
}
use mini_postgres.Transaction.Manager.{TransactionManager, statement_snapshot}
use mini_postgres.Transaction.Manager.Invariant.{Inv}
use mini_postgres.Transaction.Manager.Changes.{
  Change, begun, kept, touched, failed, ended, shifted, Changes, here, next, Replaced,
}
use mini_postgres.Transaction.Manager.Kept.{Changes-Inv}
use mini_postgres.Transaction.Manager.Locking.{statement_snapshot-Changes}
use mini_postgres.Transaction.Manager.Runs.{Request, run, run-Changes}

-- The transaction is repeatable-read and holds the snapshot.
pub record Holds (m : TransactionManager) (x : ℕ) (s : Snapshot) : Type 0 where
  pub held_by : Transaction
  pub found : Dict.get m.objects x ≡ some held_by
  pub isolation : held_by.isolation ≡ IsolationLevel.repeatable_read
  pub held : held_by.repeatable_snapshot ≡ some s

Replaced-Holds :
    (m m' : TransactionManager) (x y : ℕ) (s : Snapshot) (t t' : Transaction)
    → Dict.get m.objects y ≡ some t
    → t'.isolation ≡ t.isolation
    → (t.repeatable_snapshot ≡ some s → t'.repeatable_snapshot ≡ some s)
    → Replaced m m' y t'
    → Holds m x s
    → Holds m' x s
Replaced-Holds m m' x y s t t' ht hi hs rep h = elim (Bool-cases (y == x)) [
  | inl e ↦
      let ex : y ≡ x = ground arith in
      let et : t ≡ h.held_by = ground (arith, h.found) in
      record {
        held_by = t';
        found = rw (rep x, e) refl;
        isolation = hi ∙ ap (λ (u : Transaction). u.isolation) et ∙ h.isolation;
        held = hs (ap (λ (u : Transaction). u.repeatable_snapshot) et ∙ h.held);
      }
  | inr e ↦ record {
    held_by = h.held_by;
    found = rw (rep x, e) h.found;
    isolation = h.isolation;
    held = h.held;
  }
]

begun-Holds :
    (m m' : TransactionManager) (x : ℕ) (s : Snapshot) (t' : Transaction)
    → Inv m
    → Replaced m m' m.next_xid t'
    → Holds m x s
    → Holds m' x s
begun-Holds m m' x s t' v rep h = record {
  held_by = h.held_by;
  found = rw (rep x) (ground (arith, h.found, (v.agrees x h.held_by h.found).below));
  isolation = h.isolation;
  held = h.held;
}

Change-Holds :
    {m m' : TransactionManager} (x : ℕ) (s : Snapshot)
    → Change m m'
    → Inv m
    → Holds m x s
    → Holds m' x s
Change-Holds {m} {m'} x s (begun isolation hn ha hs rep) v h = begun-Holds m m' x s _ v rep h
Change-Holds {m} {m'} x s (kept z t ht hi hr same rep) v h =
    Replaced-Holds m m' x z s t _ ht refl (λ e. ground arith) rep h
Change-Holds {m} {m'} x s (touched z t t' ht core same rep) v h =
    Replaced-Holds m m' x z s t t' ht core.isolation (λ e. core.repeatable_snapshot ∙ e) rep h
Change-Holds {m} {m'} x s (failed z t ht hs same rep) v h =
    Replaced-Holds m m' x z s t _ ht refl (λ e. e) rep h
Change-Holds {m} {m'} x s (ended z t state ht hf may hn ha hs rep) v h =
    Replaced-Holds m m' x z s t _ ht refl (λ e. e) rep h
Change-Holds {m} {m'} x s (shifted same eo) v h = record {
  held_by = h.held_by;
  found = rw eo h.found;
  isolation = h.isolation;
  held = h.held;
}

Changes-Holds :
    {m m' : TransactionManager} (x : ℕ) (s : Snapshot)
    → Changes m m'
    → Inv m
    → Holds m x s
    → Holds m' x s
Changes-Holds x s here v h = h
Changes-Holds x s (next c d) v h = Change-Holds x s d (Changes-Inv c v) (Changes-Holds x s c v h)

-- A transaction that holds a snapshot is given that snapshot.
held_snapshot :
    (x : ℕ) (m m' : TransactionManager) (s s' : Snapshot)
    → Holds m x s
    → statement_snapshot x m ≡ (ok s', m')
    → s' ≡ s
unfolding statement_snapshot require_usable
held_snapshot x m m' s s' h e = ground (arith, h.found, h.isolation, h.held)

first_found :
    (x : ℕ) (m m' : TransactionManager) (t : Transaction) (s : Snapshot)
    → Dict.get m.objects x ≡ some t
    → t.isolation ≡ IsolationLevel.repeatable_read
    → statement_snapshot x m ≡ (ok s, m')
    → Dict.get m'.objects x ≡ some (record t { repeatable_snapshot = some s })
unfolding statement_snapshot require_usable make_snapshot
first_found x m m' t s ht hi e =
    ground (arith, Dict.get-put m.objects x x (record t { repeatable_snapshot = some s }))

first_snapshot :
    (x : ℕ) (m m' : TransactionManager) (t : Transaction) (s : Snapshot)
    → Dict.get m.objects x ≡ some t
    → t.isolation ≡ IsolationLevel.repeatable_read
    → statement_snapshot x m ≡ (ok s, m')
    → Holds m' x s
first_snapshot x m m' t s ht hi e = record {
  held_by = record t { repeatable_snapshot = some s };
  found = first_found x m m' t s ht hi e;
  isolation = hi;
  held = refl;
}

-- Whatever calls come between, two statements of a repeatable-read transaction have one snapshot.
pub snapshot_repeats :
    (crc32 : List ℕ → ℕ) (qs : List Request) (x : ℕ) (m m' m'' : TransactionManager)
    (t : Transaction) (s s' : Snapshot)
    → Inv m
    → Dict.get m.objects x ≡ some t
    → t.isolation ≡ IsolationLevel.repeatable_read
    → statement_snapshot x m ≡ (ok s, m')
    → statement_snapshot x (run crc32 qs m') ≡ (ok s', m'')
    → s' ≡ s
snapshot_repeats crc32 qs x m m' m'' t s s' v ht hi e e' =
    let c =
      subst (λ u. Changes m u) (ap (λ (r : Result Snapshot × TransactionManager). r.1) e)
        (statement_snapshot-Changes x m v) in
    let v' = Changes-Inv c v in
    held_snapshot x (run crc32 qs m') m'' s s'
      (Changes-Holds x s (run-Changes crc32 qs m' v') v' (first_snapshot x m m' t s ht hi e)) e'
