-- ===== src/Transaction/Manager/Kept.antt =====
-- Every change keeps the invariant of the transaction manager.
use mini_postgres.Base.{
  ℕ, ◌+◌, ◌≡◌, refl, ◌∙◌, subst, [], ◌⊎◌, inl, inr, false, some, arith, nat_hashable, ◌==◌,
  Bool-cases,
}
use mini_postgres.Dict
use mini_postgres.Transaction.Model.{TransactionState, Transaction, new_transaction}
use mini_postgres.Transaction.Status.{get_status-put}
use mini_postgres.Transaction.Manager.{TransactionManager}
use mini_postgres.Transaction.Manager.Invariant.{is_running, status_of, Agrees, Inv, IsSome}
use mini_postgres.Transaction.Manager.Changes.{
  Change, begun, kept, touched, failed, ended, shifted, Changes, here, next, SameTables, SameCore,
  Replaced,
}

-- What the tables say of a transaction depends on the rank of its state alone.
Agrees-same :
    (m m' : TransactionManager) (x : ℕ) (t t' : Transaction)
    → Agrees m x t
    → t'.xid ≡ t.xid
    → is_running t'.state ≡ is_running t.state
    → status_of t'.state ≡ status_of t.state
    → SameTables m m'
    → Agrees m' x t'
Agrees-same m m' x t t' a hx hr hs same = record {
  named = hx ∙ a.named;
  above = a.above;
  below = rw same.next_xid a.below;
  running = rw (same.active, hr) a.running;
  status = rw (same.statuses, hs) a.status;
}

SameCore-refl : (t : Transaction) → SameCore t t
SameCore-refl t = record { xid = refl; isolation = refl; state = refl; repeatable_snapshot = refl }

-- What an object of the new table was in the old one.
pub Replaced-cases :
    (m m' : TransactionManager) (x y : ℕ) (t' u : Transaction)
    → Replaced m m' x t'
    → Dict.get m'.objects y ≡ some u
    → ((x ≡ y) × (t' ≡ u)) ⊎ (((x == y) ≡ false) × (Dict.get m.objects y ≡ some u))
Replaced-cases m m' x y t' u rep h = ground (arith, rep y)

Replaced-known :
    (m m' : TransactionManager) (x y : ℕ) (t' : Transaction)
    → Replaced m m' x t'
    → IsSome (Dict.get m.objects y)
    → IsSome (Dict.get m'.objects y)
Replaced-known m m' x y t' rep h = rw (rep y) (ground arith)

-- Where the tables are the same, an object replaced by one with the same XID and an equal rank of
-- state keeps the invariant.
Replaced-Inv :
    (m m' : TransactionManager) (x : ℕ) (t t' : Transaction)
    → Inv m
    → Dict.get m.objects x ≡ some t
    → t'.xid ≡ t.xid
    → is_running t'.state ≡ is_running t.state
    → status_of t'.state ≡ status_of t.state
    → SameTables m m'
    → Replaced m m' x t'
    → Inv m'
Replaced-Inv m m' x t t' v ht hx hr hs same rep = record {
  first = rw same.next_xid v.first;
  agrees = λ y u hu. elim (Replaced-cases m m' x y t' u rep hu) [
    | inl (e, e') ↦
        subst (λ k. Agrees m' k u) e
          (subst (λ w. Agrees m' x w) e' (Agrees-same m m' x t t' (v.agrees x t ht) hx hr hs same))
    | inr (ne, old) ↦ Agrees-same m m' y u u (v.agrees y u old) refl refl refl same
  ];
  known = λ y hy. Replaced-known m m' x y t' rep (v.known y (rw (← same.active) hy));
  future = λ y hy. rw same.statuses (v.future y (rw (← same.next_xid) hy));
}

shifted-Inv :
    (m m' : TransactionManager) → Inv m → SameTables m m' → m'.objects ≡ m.objects → Inv m'
shifted-Inv m m' v same eo = record {
  first = rw same.next_xid v.first;
  agrees = λ y u hu. Agrees-same m m' y u u (v.agrees y u (rw eo at hu)) refl refl refl same;
  known = λ y hy. rw eo (v.known y (rw (← same.active) hy));
  future = λ y hy. rw same.statuses (v.future y (rw (← same.next_xid) hy));
}

module _ (m m' : TransactionManager) (v : Inv m) where
  begun-Inv :
      (t : Transaction)
      → t.xid ≡ m.next_xid
      → t.state ≡ TransactionState.active
      → m'.next_xid ≡ m.next_xid + 1
      → m'.active ≡ Dict.add m.next_xid m.active
      → m'.statuses ≡ m.statuses
      → Replaced m m' m.next_xid t
      → Inv m'
  begun-Inv t ex es hn ha hs rep = record {
    first = omega (arith, v.first);
    agrees = λ y u hu. elim (Replaced-cases m m' m.next_xid y t u rep hu) [
      | inl (e, e') ↦
          subst (λ k. Agrees m' k u) e
            (subst (λ w. Agrees m' m.next_xid w) e'
              (record {
                named = ex;
                above = v.first;
                below = omega arith;
                running =
                    rw (ha, es) (ground (arith, Dict.elem-add m.next_xid m.next_xid m.active));
                status = rw (hs, es) (v.future m.next_xid (omega arith));
              }))
      | inr (ne, old) ↦ record {
        named = (v.agrees y u old).named;
        above = (v.agrees y u old).above;
        below = omega (arith, (v.agrees y u old).below);
        running =
            rw ha (ground (arith, Dict.elem-add m.next_xid y m.active, (v.agrees y u old).running));
        status = rw hs (v.agrees y u old).status;
      }
    ];
    known = λ y hy. elim (Bool-cases (m.next_xid == y)) [
      | inl e ↦ rw (rep y, e) tt
      | inr e ↦
          Replaced-known m m' m.next_xid y t rep
            (v.known y (ground (arith, Dict.elem-add m.next_xid y m.active)))
    ];
    future = λ y hy. rw hs (v.future y (omega arith));
  }

  ended-Inv :
      (x : ℕ) (t : Transaction) (state : TransactionState)
      → Dict.get m.objects x ≡ some t
      → is_running state ≡ false
      → m'.next_xid ≡ m.next_xid
      → m'.active ≡ Dict.discard x m.active
      → m'.statuses ≡ Dict.put m.statuses x (status_of state)
      → Replaced m m' x (record t { state = state; resources = [] })
      → Inv m'
  ended-Inv x t state ht hf hn ha hs rep =
      let a = v.agrees x t ht in
      record {
        first = rw hn v.first;
        agrees = λ y u hu.
            elim (Replaced-cases m m' x y (record t { state = state; resources = [] }) u rep hu) [
              | inl (e, e') ↦
                  subst (λ k. Agrees m' k u) e
                    (subst (λ w. Agrees m' x w) e'
                      (record {
                        named = a.named;
                        above = a.above;
                        below = omega (arith, a.below);
                        running = rw (ha, hf) (ground (arith, Dict.elem-discard x x m.active));
                        status =
                            rw hs (ground (arith, get_status-put m.statuses x x (status_of state)));
                      }))
              | inr (ne, old) ↦ record {
                named = (v.agrees y u old).named;
                above = (v.agrees y u old).above;
                below = omega (arith, (v.agrees y u old).below);
                running =
                    rw ha
                      (ground (arith, Dict.elem-discard x y m.active, (v.agrees y u old).running));
                status = rw hs (
                    ground (
                      arith,
                      get_status-put m.statuses x y (status_of state),
                      (v.agrees y u old).status,
                    ));
              }
            ];
        known = λ y hy.
            Replaced-known m m' x y (record t { state = state; resources = [] }) rep
              (v.known y (ground (arith, Dict.elem-discard x y m.active, ha)));
        future = λ y hy.
            rw hs (
              ground (arith, get_status-put m.statuses x y (status_of state), v.future y, a.below));
      }

-- Every change keeps the invariant.
pub Change-Inv : {m m' : TransactionManager} → Change m m' → Inv m → Inv m'
Change-Inv {m} {m'} (begun isolation hn ha hs rep) v =
    begun-Inv m m' v (new_transaction m.next_xid isolation) refl refl hn ha hs rep
Change-Inv {m} {m'} (kept x t ht hi hr same rep) v =
    Replaced-Inv m m' x t _ v ht refl refl refl same rep
Change-Inv {m} {m'} (touched x t t' ht core same rep) v =
    Replaced-Inv m m' x t t' v ht core.xid (rw core.state refl) (rw core.state refl) same rep
Change-Inv {m} {m'} (failed x t ht hs same rep) v =
    Replaced-Inv m m' x t _ v ht refl (rw hs refl) (rw hs refl) same rep
Change-Inv {m} {m'} (ended x t state ht hf may hn ha hs rep) v =
    ended-Inv m m' v x t state ht hf hn ha hs rep
Change-Inv {m} {m'} (shifted same eo) v = shifted-Inv m m' v same eo

pub Changes-Inv : {m m' : TransactionManager} → Changes m m' → Inv m → Inv m'
Changes-Inv here v = v
Changes-Inv (next c s) v = Change-Inv s (Changes-Inv c v)
