-- ===== src/Maintenance/Safety.antt =====
-- A version that maintenance/horizon.py calls dead is seen by no snapshot, now or later.
use mini_postgres.Base.{
  ℕ, ◌<◌, ◌≡◌, ◌≢◌, refl, sym, ◌∙◌, ◌⊎◌, inl, inr, true, false, some, arith, subst, nat_hashable,
  Bool-cases, Option-cases,
}
use mini_postgres.Dict
use mini_postgres.Dict.{Dict}
use mini_postgres.Transaction.Model.{Snapshot, Transaction, IsolationLevel, new_transaction}
use mini_postgres.Transaction.Status.{TransactionStatus, get_status}
use mini_postgres.Transaction.Visibility.{TupleVersion, system_xid}
use mini_postgres.Transaction.Manager.{TransactionManager}
use mini_postgres.Transaction.Manager.Invariant.{Inv, is_running}
use mini_postgres.Transaction.Manager.Changes.{
  Change, begun, kept, touched, failed, ended, shifted, Replaced, snapshot_at,
}
use mini_postgres.Transaction.Manager.Kept.{Replaced-cases}
use mini_postgres.Transaction.Manager.Snapshots.{Change-statuses}

-- An XID that a snapshot of a running transaction takes for finished before it.
abbrev pub SeenAsPast : Snapshot → ℕ → Type 0
SeenAsPast s y = (y < s.xmax) × (Dict.elem y s.active_xids ≡ false)

abbrev pub Past : TransactionManager → ℕ → Type 0
Past m y =
    (x : ℕ) (t : Transaction) (s : Snapshot)
    → Dict.get m.objects x ≡ some t
    → is_running t.state ≡ true
    → t.repeatable_snapshot ≡ some s
    → SeenAsPast s y

-- The version's creator has aborted, or its deletion is past for every snapshot in use.
pub data Gone (m : TransactionManager) (v : TupleVersion) : Type 0 where
  never : v.xmin ≢ system_xid → get_status m.statuses v.xmin ≡ TransactionStatus.aborted → Gone m v
  removed :
      v.xmax ≢ 0
      → (v.xmin ≡ system_xid) ⊎ (get_status m.statuses v.xmin ≡ TransactionStatus.committed)
      → get_status m.statuses v.xmax ≡ TransactionStatus.committed
      → v.xmax < m.next_xid
      → Past m v.xmax
      → Gone m v

-- An XID with an outcome is not active.
pub not_active :
    (m : TransactionManager) (y : ℕ)
    → Inv m
    → get_status m.statuses y ≢ TransactionStatus.in_progress
    → Dict.elem y m.active ≡ false
not_active m y v h = elim (Bool-cases (Dict.elem y m.active)) [
  | inr e ↦ e
  | inl e ↦ elim (Option-cases (Dict.get m.objects y)) [
    | inl none' ↦ absurd (rw none' at (v.known y e))
    | inr (t, ht) ↦ ground (arith, (v.agrees y t ht).running, (v.agrees y t ht).status)
  ]
]

-- Outcomes are final.
pub outcome_final :
    {m m' : TransactionManager} (y : ℕ) (st : TransactionStatus)
    → Change m m'
    → Inv m
    → st ≢ TransactionStatus.in_progress
    → get_status m.statuses y ≡ st
    → get_status m'.statuses y ≡ st
outcome_final {m} {m'} y st c v ne h = elim (Change-statuses c v y) [
  | inl e ↦ e ∙ h
  | inr e ↦ absurd (ground (arith, not_active m y v))
]

Past-Replaced :
    (m m' : TransactionManager) (x y : ℕ) (t t' : Transaction)
    → Dict.get m.objects x ≡ some t
    → (is_running t'.state ≡ true → is_running t.state ≡ true)
    → ((s : Snapshot)
        → is_running t'.state ≡ true
        → t'.repeatable_snapshot ≡ some s
        → (t.repeatable_snapshot ≡ some s) ⊎ SeenAsPast s y)
    → Replaced m m' x t'
    → Past m y
    → Past m' y
Past-Replaced m m' x y t t' ht hr hs rep p z u s hu run' held =
    elim (Replaced-cases m m' x z t' u rep hu) [
      | inl (ex, et) ↦
          let r : is_running t'.state ≡ true = ground arith in
          elim (hs s r (ground arith)) [ inl e ↦ p x t s ht (hr r) e | inr e ↦ e ]
      | inr (ne, old) ↦ p z u s old run' held
    ]

Past-begun :
    (m m' : TransactionManager) (y : ℕ) (isolation : IsolationLevel)
    → Replaced m m' m.next_xid (new_transaction m.next_xid isolation)
    → Past m y
    → Past m' y
Past-begun m m' y isolation rep p z u s hu run' held =
    elim (Replaced-cases m m' m.next_xid z (new_transaction m.next_xid isolation) u rep hu) [
      | inl (ex, et) ↦ absurd (ground arith)
      | inr (ne, old) ↦ p z u s old run' held
    ]

-- A fresh snapshot takes a finished XID for finished.
pub fresh_past :
    (m : TransactionManager) (x y : ℕ)
    → Dict.elem y m.active ≡ false
    → y < m.next_xid
    → SeenAsPast (snapshot_at m x) y
fresh_past m x y h lt = (lt, ground (arith, Dict.elem-discard x y m.active))

pub Change-Past :
    {m m' : TransactionManager} (y : ℕ)
    → Change m m'
    → Dict.elem y m.active ≡ false
    → y < m.next_xid
    → Past m y
    → Past m' y
Change-Past {m} {m'} y (begun isolation hn ha hs rep) na lt p = Past-begun m m' y isolation rep p
Change-Past {m} {m'} y (kept x t ht hi hr same rep) na lt p =
    Past-Replaced m m' x y t _ ht (λ e. e)
      (λ s r e. inr (
        subst (λ k. SeenAsPast k y) (let q : snapshot_at m x ≡ s = ground arith in q)
          (fresh_past m x y na lt)))
      rep p
Change-Past {m} {m'} y (touched x t t' ht core same rep) na lt p =
    Past-Replaced m m' x y t t' ht (λ e. rw (← core.state) e)
      (λ s r e. inl (sym core.repeatable_snapshot ∙ e)) rep p
Change-Past {m} {m'} y (failed x t ht hs same rep) na lt p =
    Past-Replaced m m' x y t _ ht (λ e. rw hs refl) (λ s r e. inl e) rep p
Change-Past {m} {m'} y (ended x t state ht hf may hn ha hs rep) na lt p =
    Past-Replaced m m' x y t _ ht (λ e. absurd (ground arith)) (λ s r e. inl e) rep p
Change-Past {m} {m'} y (shifted same eo) na lt p = λ z u s hu r e. p z u s (rw eo at hu) r e
