-- ===== src/Transaction/Manager/Snapshots.antt =====
-- What a snapshot sees while other transactions go on.
use mini_postgres.Base.{
  ℕ, ◌+◌, ◌≤◌, ◌≡◌, refl, sym, ◌∙◌, ◌⊎◌, inl, inr, true, some, arith, subst, nat_hashable,
}
use mini_postgres.Dict
use mini_postgres.Transaction.Model.{Snapshot, IsolationLevel, Transaction, new_transaction}
use mini_postgres.Transaction.Status.{StatusTable, get_status, get_status-put}
use mini_postgres.Transaction.Visibility.{TupleVersion, is_visible}
use mini_postgres.Transaction.Manager.{TransactionManager}
use mini_postgres.Transaction.Manager.Invariant.{status_of, Inv}
use mini_postgres.Transaction.Manager.Changes.{
  Change, begun, kept, touched, failed, ended, shifted, Changes, here, next, SameTables, Replaced,
  snapshot_at,
}
use mini_postgres.Transaction.Manager.Kept.{Changes-Inv, Replaced-cases}

-- An outcome that a snapshot of a transaction does not look at.
abbrev pub Unseen : Snapshot → ℕ → ℕ → Type 0
Unseen s x y = (y ≡ x) ⊎ ((s.xmax ≤ y) ⊎ (Dict.elem y s.active_xids ≡ true))

-- Every transaction that may still end is unseen by the snapshot.
pub record Shielded (m : TransactionManager) (x : ℕ) (s : Snapshot) : Type 0 where
  pub unseen : (y : ℕ) → Dict.elem y m.active ≡ true → Unseen s x y
  pub bound : s.xmax ≤ m.next_xid

-- The snapshots that transactions keep are shielded.
abbrev pub Snaps : TransactionManager → Type 0
Snaps m =
    (x : ℕ) (t : Transaction) (s : Snapshot)
    → Dict.get m.objects x ≡ some t
    → t.repeatable_snapshot ≡ some s
    → Shielded m x s

pub snapshot_at-Shielded : (m : TransactionManager) (x : ℕ) → Shielded m x (snapshot_at m x)
snapshot_at-Shielded m x = record {
  unseen = λ y hy. ground (arith, Dict.elem-discard x y m.active);
  bound = omega arith;
}

Shielded-same :
    (m m' : TransactionManager) (x : ℕ) (s : Snapshot)
    → SameTables m m'
    → Shielded m x s
    → Shielded m' x s
Shielded-same m m' x s same h = record {
  unseen = λ y hy. h.unseen y (rw (← same.active) hy);
  bound = rw same.next_xid h.bound;
}

Shielded-begun :
    (m m' : TransactionManager) (x : ℕ) (s : Snapshot)
    → m'.next_xid ≡ m.next_xid + 1
    → m'.active ≡ Dict.add m.next_xid m.active
    → Shielded m x s
    → Shielded m' x s
Shielded-begun m m' x s hn ha h = record {
  unseen = λ y hy. ground (arith, Dict.elem-add m.next_xid y m.active, h.unseen y, h.bound);
  bound = omega (arith, h.bound);
}

Shielded-ended :
    (m m' : TransactionManager) (x z : ℕ) (s : Snapshot)
    → m'.next_xid ≡ m.next_xid
    → m'.active ≡ Dict.discard z m.active
    → Shielded m x s
    → Shielded m' x s
Shielded-ended m m' x z s hn ha h = record {
  unseen = λ y hy. h.unseen y (ground (arith, Dict.elem-discard z y m.active));
  bound = rw hn h.bound;
}

-- No change lets a transaction that the snapshot sees end later.
pub Change-Shielded :
    {m m' : TransactionManager} (x : ℕ) (s : Snapshot)
    → Change m m'
    → Shielded m x s
    → Shielded m' x s
Change-Shielded {m} {m'} x s (begun isolation hn ha hs rep) h = Shielded-begun m m' x s hn ha h
Change-Shielded {m} {m'} x s (kept z t ht hi hr same rep) h = Shielded-same m m' x s same h
Change-Shielded {m} {m'} x s (touched z t t' ht core same rep) h = Shielded-same m m' x s same h
Change-Shielded {m} {m'} x s (failed z t ht hs same rep) h = Shielded-same m m' x s same h
Change-Shielded {m} {m'} x s (ended z t state ht hf may hn ha hs rep) h =
    Shielded-ended m m' x z s hn ha h
Change-Shielded {m} {m'} x s (shifted same eo) h = Shielded-same m m' x s same h

-- The outcomes that a change of an invariant manager may set are those of active transactions.
pub Change-statuses :
    {m m' : TransactionManager}
    → Change m m'
    → Inv m
    → (y : ℕ) → (get_status m'.statuses y ≡ get_status m.statuses y) ⊎ (Dict.elem y m.active ≡ true)
Change-statuses {m} {m'} (ended z t state ht hf may hn ha hs rep) v y =
    let a = v.agrees z t ht in
    ground (arith, a.running, a.status, get_status-put m.statuses z y (status_of state), may)
Change-statuses (begun isolation hn ha hs rep) v y = inl (rw hs refl)
Change-statuses (kept z t ht hi hr same rep) v y = inl (rw same.statuses refl)
Change-statuses (touched z t t' ht core same rep) v y = inl (rw same.statuses refl)
Change-statuses (failed z t ht hs same rep) v y = inl (rw same.statuses refl)
Change-statuses (shifted same eo) v y = inl (rw same.statuses refl)

-- Visibility reads the outcomes of the creator and the deleter where they are seen, and no others.
visible-Unseen :
    (v : TupleVersion) (s : Snapshot) (x : ℕ) (table table' : StatusTable)
    → (get_status table' v.xmin ≡ get_status table v.xmin) ⊎ Unseen s x v.xmin
    → (get_status table' v.xmax ≡ get_status table v.xmax) ⊎ Unseen s x v.xmax
    → is_visible v s x table' ≡ is_visible v s x table
unfolding is_visible
visible-Unseen v s x table table' h k = ground arith

status_or_Unseen :
    (m m' : TransactionManager) (x : ℕ) (s : Snapshot) (y : ℕ)
    → Shielded m x s
    → (get_status m'.statuses y ≡ get_status m.statuses y) ⊎ (Dict.elem y m.active ≡ true)
    → (get_status m'.statuses y ≡ get_status m.statuses y) ⊎ Unseen s x y
status_or_Unseen m m' x s y h (inl e) = inl e
status_or_Unseen m m' x s y h (inr e) = inr (h.unseen y e)

pub is_visible-Changes :
    {m m' : TransactionManager} (v : TupleVersion) (x : ℕ) (s : Snapshot)
    → Changes m m'
    → Inv m
    → Shielded m x s
    → (is_visible v s x m'.statuses ≡ is_visible v s x m.statuses) × Shielded m' x s
is_visible-Changes v x s here i h = (refl, h)
is_visible-Changes v x s (next {m1 = m1} {m2 = m2} c d) i h =
    let (e, h1) = is_visible-Changes v x s c i h in
    let i1 = Changes-Inv c i in
    (
      visible-Unseen v s x m1.statuses m2.statuses
            (status_or_Unseen m1 m2 x s v.xmin h1 (Change-statuses d i1 v.xmin))
            (status_or_Unseen m1 m2 x s v.xmax h1 (Change-statuses d i1 v.xmax))
          ∙ e,
      Change-Shielded x s d h1,
    )

-- The snapshots that the objects hold stay shielded.
stays :
    {m m' : TransactionManager}
    → Change m m'
    → Snaps m
    → (y : ℕ) (u : Transaction) (s : Snapshot) → Dict.get m.objects y ≡ some u
    → u.repeatable_snapshot ≡ some s
    → Shielded m' y s
stays c p y u s hu hs = Change-Shielded y s c (p y u s hu hs)

-- An object replaced by one with the same snapshot, or with none.
Replaced-Snaps :
    {m m' : TransactionManager} (x : ℕ) (t t' : Transaction)
    → Change m m'
    → Snaps m
    → Dict.get m.objects x ≡ some t
    → t'.repeatable_snapshot ≡ t.repeatable_snapshot
    → Replaced m m' x t'
    → Snaps m'
Replaced-Snaps {m} {m'} x t t' c p ht e rep y u s hu hs =
    elim (Replaced-cases m m' x y t' u rep hu) [
      | inl (ex, et) ↦
          subst (λ k. Shielded m' k s) ex (stays c p x t s ht (sym e ∙ (rw (← et) at hs)))
      | inr (ne, old) ↦ stays c p y u s old hs
    ]

begun-Snaps :
    {m m' : TransactionManager} (isolation : IsolationLevel)
    → Change m m'
    → Snaps m
    → Replaced m m' m.next_xid (new_transaction m.next_xid isolation)
    → Snaps m'
begun-Snaps {m} {m'} isolation c p rep y u s hu hs =
    elim (Replaced-cases m m' m.next_xid y (new_transaction m.next_xid isolation) u rep hu) [
      | inl (ex, et) ↦ absurd (ground arith)
      | inr (ne, old) ↦ stays c p y u s old hs
    ]

kept-Snaps :
    {m m' : TransactionManager} (x : ℕ) (t : Transaction)
    → Change m m'
    → Snaps m
    → Replaced m m' x (record t { repeatable_snapshot = some (snapshot_at m x) })
    → Snaps m'
kept-Snaps {m} {m'} x t c p rep y u s hu hs =
    elim (Replaced-cases m m' x y (record t { repeatable_snapshot = some (snapshot_at m x) }) u rep
      hu) [
        | inl (ex, et) ↦
            let es : snapshot_at m x ≡ s = ground arith in
            subst (λ k. Shielded m' k s) ex
              (subst (λ r. Shielded m' x r) es
                (Change-Shielded x (snapshot_at m x) c (snapshot_at-Shielded m x)))
        | inr (ne, old) ↦ stays c p y u s old hs
      ]

pub Change-Snaps : {m m' : TransactionManager} → Change m m' → Snaps m → Snaps m'
Change-Snaps (begun isolation hn ha hs rep) p =
    begun-Snaps isolation (begun isolation hn ha hs rep) p rep
Change-Snaps (kept x t ht hi hr same rep) p = kept-Snaps x t (kept x t ht hi hr same rep) p rep
Change-Snaps (touched x t t' ht core same rep) p =
    Replaced-Snaps x t t' (touched x t t' ht core same rep) p ht core.repeatable_snapshot rep
Change-Snaps (failed x t ht hs same rep) p =
    Replaced-Snaps x t _ (failed x t ht hs same rep) p ht refl rep
Change-Snaps (ended x t state ht hf may hn ha hs rep) p =
    Replaced-Snaps x t _ (ended x t state ht hf may hn ha hs rep) p ht refl rep
Change-Snaps (shifted same eo) p = λ y u s hu hs. stays (shifted same eo) p y u s (rw eo at hu) hs

pub Changes-Snaps : {m m' : TransactionManager} → Changes m m' → Snaps m → Snaps m'
Changes-Snaps here p = p
Changes-Snaps (next c d) p = Change-Snaps d (Changes-Snaps c p)
