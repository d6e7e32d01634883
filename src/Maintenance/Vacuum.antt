-- ===== src/Maintenance/Vacuum.antt =====
-- What VACUUM may rely on: the versions that maintenance/horizon.py calls dead.
use mini_postgres.Base.{
  ℕ, ◌≤◌, ◌<◌, ◌≡◌, ◌≢◌, refl, sym, ◌∙◌, ◌⊎◌, inl, inr, true, false, none, some, List, [], ◌∷◌,
  arith, subst, ok, nat_hashable, ◌==◌, Bool-cases, Option-cases,
}
use mini_postgres.Dict
use mini_postgres.Dict.{Dict}
use mini_postgres.Transaction.Model.{Snapshot, Transaction}
use mini_postgres.Transaction.Status.{TransactionStatus, StatusTable, get_status}
use mini_postgres.Transaction.Visibility.{TupleVersion, creator_status, is_visible, system_xid}
use mini_postgres.Transaction.Manager.{
  TransactionManager, active_objects, active_transactions, statement_snapshot,
}
use mini_postgres.Transaction.Manager.Invariant.{Inv, first_xid}
use mini_postgres.Transaction.Manager.Changes.{
  Change, begun, kept, touched, failed, ended, shifted, Changes, here, next,
}
use mini_postgres.Transaction.Manager.Kept.{Changes-Inv}
use mini_postgres.Transaction.Manager.Runs.{
  Request, run, run-Changes, snapshot_result, snapshot_exists,
}
use mini_postgres.Maintenance.Horizon.{candidates, least, cleanup_horizon, classify_version, dead}
use mini_postgres.Maintenance.Safety.{
  Gone, never, removed, Past, SeenAsPast, Change-Past, not_active, outcome_final, fresh_past,
}

next_xid-le : {m m' : TransactionManager} → Change m m' → m.next_xid ≤ m'.next_xid
next_xid-le (begun isolation hn ha hs rep) = omega arith
next_xid-le (kept x t ht hi hr same rep) = omega (arith, same.next_xid)
next_xid-le (touched x t t' ht core same rep) = omega (arith, same.next_xid)
next_xid-le (failed x t ht hs same rep) = omega (arith, same.next_xid)
next_xid-le (ended x t state ht hf may hn ha hs rep) = omega arith
next_xid-le (shifted same eo) = omega (arith, same.next_xid)

aborted≢in_progress : TransactionStatus.aborted ≢ TransactionStatus.in_progress
aborted≢in_progress e = cc

committed≢in_progress : TransactionStatus.committed ≢ TransactionStatus.in_progress
committed≢in_progress e = cc

-- What is gone stays gone.
Change-Gone :
    {m m' : TransactionManager} (v : TupleVersion) → Change m m' → Inv m → Gone m v → Gone m' v
Change-Gone v c i (never ne h) = never ne (outcome_final v.xmin _ c i aborted≢in_progress h)
Change-Gone {m} {m'} v c i (removed ne creator h lt p) =
    removed ne
      (elim creator [
        | inl e ↦ inl e
        | inr e ↦ inr (outcome_final v.xmin _ c i committed≢in_progress e)
      ])
      (outcome_final v.xmax _ c i committed≢in_progress h) (omega (arith, next_xid-le c))
      (Change-Past v.xmax c (not_active m v.xmax i (λ e. committed≢in_progress (sym h ∙ e))) lt p)

Changes-Gone :
    {m m' : TransactionManager} (v : TupleVersion) → Changes m m' → Inv m → Gone m v → Gone m' v
Changes-Gone v here i g = g
Changes-Gone v (next c d) i g = Change-Gone v d (Changes-Inv c i) (Changes-Gone v c i g)

least-le : (n : ℕ) (xs : List ℕ) → least n xs ≤ n
unfolding least
least-le n [] = omega arith
least-le n (x ∷ xs) = omega (arith, least-le n xs)

least-le_elem : (n y : ℕ) (xs : List ℕ) → Dict.elem y xs ≡ true → least n xs ≤ y
unfolding least Dict.elem
least-le_elem n y [] h = absurd (ground arith)
least-le_elem n y (x ∷ xs) h = ground (arith, least-le_elem n y xs)

-- The candidates of the horizon have the bounds of a snapshot among them.
record Offers (xs : List ℕ) (s : Snapshot) : Type 0 where
  top : Dict.elem s.xmax xs ≡ true
  each : (y : ℕ) → Dict.elem y s.active_xids ≡ true → Dict.elem y xs ≡ true

Offers-head :
    (t : Transaction) (ts : List Transaction) (s : Snapshot)
    → t.repeatable_snapshot ≡ some s
    → Offers (candidates (t ∷ ts)) s
unfolding candidates Dict.elem
Offers-head t ts s h = record {
  top = rw h (ground arith);
  each = λ y e. rw h (ground (arith, Dict.elem-append y s.active_xids (candidates ts)));
}

elem-candidates :
    (t : Transaction) (ts : List Transaction) (y : ℕ)
    → Dict.elem y (candidates ts) ≡ true
    → Dict.elem y (candidates (t ∷ ts)) ≡ true
unfolding candidates Dict.elem
elem-candidates t ts y h = elim (Option-cases t.repeatable_snapshot) [
  | inl e ↦ rw e (ground arith)
  | inr (s, e) ↦ rw e (ground (arith, Dict.elem-append y s.active_xids (candidates ts)))
]

Offers-tail :
    (t : Transaction) (ts : List Transaction) (s : Snapshot)
    → Offers (candidates ts) s
    → Offers (candidates (t ∷ ts)) s
Offers-tail t ts s o = record {
  top = elem-candidates t ts s.xmax o.top;
  each = λ y e. elem-candidates t ts y (o.each y e);
}

active_found :
    (objects : Dict ℕ Transaction) (z : ℕ) (zs : List ℕ) (u : Transaction)
    → Dict.get objects z ≡ some u
    → active_objects objects (z ∷ zs) ≡ u ∷ active_objects objects zs
active_found objects z zs u h = ground arith

active_missing :
    (objects : Dict ℕ Transaction) (z : ℕ) (zs : List ℕ)
    → Dict.get objects z ≡ none
    → active_objects objects (z ∷ zs) ≡ active_objects objects zs
active_missing objects z zs h = ground arith

active-Offers :
    (objects : Dict ℕ Transaction) (xs : List ℕ) (x : ℕ) (t : Transaction) (s : Snapshot)
    → Dict.elem x xs ≡ true
    → Dict.get objects x ≡ some t
    → t.repeatable_snapshot ≡ some s
    → Offers (candidates (active_objects objects xs)) s
unfolding Dict.elem
active-Offers objects [] x t s h ht hs = absurd (ground arith)
active-Offers objects (z ∷ zs) x t s h ht hs = elim (Bool-cases (z == x)) [
  | inl e ↦
      let ez : z ≡ x = ground arith in
      rw (active_found objects z zs t (rw ez ht)) (Offers-head t (active_objects objects zs) s hs)
  | inr e ↦
      let rest = active-Offers objects zs x t s (ground arith) ht hs in
      elim (Option-cases (Dict.get objects z)) [
        | inl e' ↦ rw (active_missing objects z zs e') rest
        | inr (u, e') ↦
            rw (active_found objects z zs u e') (Offers-tail u (active_objects objects zs) s rest)
      ]
]

-- An XID below the horizon is past for every snapshot in use, unless the snapshot holds it active.
horizon-Past :
    (m : TransactionManager) (y : ℕ)
    → Inv m
    → y < cleanup_horizon (active_transactions m) m.next_xid
    → Past m y
unfolding cleanup_horizon active_transactions
horizon-Past m y i lt x t s ht run' hs =
    let cs = candidates (active_objects m.objects m.active) in
    let o = active-Offers m.objects m.active x t s ((i.agrees x t ht).running ∙ run') ht hs in
    (
      omega (arith, least-le_elem m.next_xid s.xmax cs o.top),
      elim (Bool-cases (Dict.elem y s.active_xids)) [
        | inr e ↦ e
        | inl e ↦ absurd (omega (arith, least-le_elem m.next_xid y cs (o.each y e)))
      ],
    )

dead_cases :
    (v : TupleVersion) (horizon : ℕ) (statuses : StatusTable)
    → classify_version v horizon statuses ≡ dead
    → ((v.xmin ≢ system_xid) × (get_status statuses v.xmin ≡ TransactionStatus.aborted))
      ⊎ ((v.xmax ≢ 0)
          × ((v.xmin ≡ system_xid) ⊎ (get_status statuses v.xmin ≡ TransactionStatus.committed))
          × (get_status statuses v.xmax ≡ TransactionStatus.committed)
          × (v.xmax < horizon))
unfolding classify_version creator_status
dead_cases v horizon statuses h = ground arith

-- A version that is dead at the horizon of a state is gone in that state.
dead-Gone :
    (m : TransactionManager) (v : TupleVersion)
    → Inv m
    → classify_version v (cleanup_horizon (active_transactions m) m.next_xid) m.statuses ≡ dead
    → Gone m v
dead-Gone m v i h =
    elim (dead_cases v (cleanup_horizon (active_transactions m) m.next_xid) m.statuses h) [
      | inl (ne, e) ↦ never ne e
      | inr (ne, creator, deleter, lt) ↦
          removed ne creator deleter
            (unfold cleanup_horizon in
              omega (arith, least-le m.next_xid (candidates (active_transactions m))))
            (horizon-Past m v.xmax i lt)
    ]

-- A running transaction does not see what is gone.
Gone-invisible :
    (x : ℕ) (m : TransactionManager) (s : Snapshot) (v : TupleVersion)
    → first_xid ≤ x
    → get_status m.statuses x ≡ TransactionStatus.in_progress
    → (Past m v.xmax
        → get_status m.statuses v.xmax ≡ TransactionStatus.committed
        → v.xmax < m.next_xid
        → SeenAsPast s v.xmax)
    → Gone m v
    → is_visible v s x m.statuses ≡ false
unfolding is_visible
Gone-invisible x m s v above status past (never ne h) = ground arith
Gone-invisible x m s v above status past (removed ne creator h lt p) =
    let seen = past p h lt in ground (arith, seen)

-- No snapshot that a statement can use sees a version that is gone.
Gone-unseen :
    (x : ℕ) (m m' : TransactionManager) (s : Snapshot) (v : TupleVersion)
    → Inv m
    → Gone m v
    → statement_snapshot x m ≡ (ok s, m')
    → is_visible v s x m.statuses ≡ false
Gone-unseen x m m' s v i g h =
    let (t, ht) = snapshot_exists x m m' s h in
    let (active', result) = snapshot_result x m m' t s ht h in
    let a = i.agrees x t ht in
    Gone-invisible x m s v a.above (a.status ∙ rw active' refl)
      (λ p e lt. elim result [
        | inl held ↦ p x t s ht (rw active' refl) held
        | inr fresh ↦
            subst (λ k. SeenAsPast k v.xmax) fresh
              (fresh_past m x v.xmax
                (not_active m v.xmax i (λ e'. committed≢in_progress (sym e ∙ e'))) lt)
      ])
      g

-- VACUUM is safe: a version that classify_version calls dead, at the horizon and with the outcomes of
-- one state, is invisible to the snapshot of every statement that begins then or after any calls.
pub vacuum_safety :
    (crc32 : List ℕ → ℕ) (qs : List Request) (x : ℕ) (m m' : TransactionManager) (s : Snapshot)
    (v : TupleVersion)
    → Inv m
    → classify_version v (cleanup_horizon (active_transactions m) m.next_xid) m.statuses ≡ dead
    → statement_snapshot x (run crc32 qs m) ≡ (ok s, m')
    → is_visible v s x (run crc32 qs m).statuses ≡ false
vacuum_safety crc32 qs x m m' s v i h e =
    let c = run-Changes crc32 qs m i in
    Gone-unseen x (run crc32 qs m) m' s v (Changes-Inv c i) (Changes-Gone v c i (dead-Gone m v i h))
      e
