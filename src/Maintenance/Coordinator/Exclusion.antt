-- ===== src/Maintenance/Coordinator/Exclusion.antt =====
-- What the leases of maintenance/coordinator.py guarantee, over all orders of the calls.
use mini_postgres.Base.{
  ℕ, ◌+◌, ◌-◌, ◌<◌, ◌≡◌, refl, sym, subst, inl, inr, true, false, none, some, List, [], ◌∷◌, arith,
  nat_beq, ok, Bool-cases, nat_hashable,
}
use mini_postgres.Dict.{get, put}
use mini_postgres.Maintenance.Coordinator.{
  MaintenanceCoordinator, state, acquire_writer, queue_maintenance, leave_queue, enter_maintenance,
  release_lease,
}
use mini_postgres.Maintenance.Coordinator.Leases.{
  count, remove, count-remove, Threads, Step, writes, queues, enters, is_interrupted, stops_writing,
  stops_maintenance, Steps, done, step, Inv, cons-Elsewhere, remove-Elsewhere, put-Inv, unchanged,
}

writer_admitted :
    (c c' : MaintenanceCoordinator) (t : ℕ)
    → acquire_writer c t ≡ some c'
    → let s = state c t in
      (c' ≡ put c t (record s { writers = s.writers + 1 }))
      × (s.maintenance_active ≡ false)
      × (s.maintenance_waiters ≡ 0)
unfolding acquire_writer
writer_admitted c c' t h = (ground arith, ground arith, ground arith)

maintenance_admitted :
    (c c' : MaintenanceCoordinator) (t : ℕ)
    → enter_maintenance c t ≡ some c'
    → let s = state c t in
      (c'
        ≡ put c t (record s {
          maintenance_active = true;
          maintenance_waiters = s.maintenance_waiters - 1;
        }))
      × (s.maintenance_active ≡ false)
      × (s.writers ≡ 0)
unfolding enter_maintenance
maintenance_admitted c c' t h = (ground arith, ground arith, ground arith)

writer_released :
    (c c' : MaintenanceCoordinator) (t : ℕ)
    → release_lease c t false ≡ ok c'
    → let s = state c t in c' ≡ put c t (record s { writers = s.writers - 1 })
unfolding release_lease
writer_released c c' t h = ground arith

maintenance_released :
    (c c' : MaintenanceCoordinator) (t : ℕ)
    → release_lease c t true ≡ ok c'
    → let s = state c t in
      (c' ≡ put c t (record s { maintenance_active = false })) × (s.maintenance_active ≡ true)
unfolding release_lease
maintenance_released c c' t h = (ground arith, ground arith)

count-cons : (t : ℕ) (xs : List ℕ) → count t (t ∷ xs) ≡ count t xs + 1
unfolding count
count-cons t xs = ground arith

Step-Inv : (c d : MaintenanceCoordinator) (p q : Threads) → Inv c p → Step c p d q → Inv d q
unfolding queue_maintenance leave_queue
Step-Inv c _ p _ v (writes t c' h) =
    let (e, idle, quiet) = writer_admitted c c' t h in
    subst (λ d. Inv d (record p { writers = t ∷ p.writers })) (sym e)
      (put-Inv c p _ t _ v
        (record {
          writing = omega (arith, (v t).writing, count-cons t p.writers);
          queued = (v t).queued;
          active = (v t).active;
          exclusive = λ busy. cc;
        })
        (cons-Elsewhere t p.writers) (unchanged t _) (unchanged t _))
Step-Inv c _ p _ v (queues t) =
    put-Inv c p _ t _ v
      (record {
        writing = (v t).writing;
        queued = omega (arith, (v t).queued, count-cons t p.waiting);
        active = (v t).active;
        exclusive = (v t).exclusive;
      })
      (unchanged t _) (unchanged t _) (cons-Elsewhere t p.waiting)
Step-Inv c _ p _ v (enters t c' h h') =
    let (e, idle, quiet) = maintenance_admitted c c' t h' in
    subst (λ d. Inv d (record p { waiting = remove t p.waiting; maintenance = t ∷ p.maintenance }))
      (sym e)
      (put-Inv c p _ t _ v
        (record {
          writing = (v t).writing;
          queued = ground (arith, (v t).queued, count-remove t t p.waiting h);
          active = ground (arith, (v t).active, count-cons t p.maintenance);
          exclusive = λ busy. quiet;
        })
        (unchanged t _) (cons-Elsewhere t p.maintenance) (remove-Elsewhere t p.waiting h))
Step-Inv c _ p _ v (is_interrupted t h) =
    put-Inv c p _ t _ v
      (record {
        writing = (v t).writing;
        queued = ground (arith, (v t).queued, count-remove t t p.waiting h);
        active = (v t).active;
        exclusive = (v t).exclusive;
      })
      (unchanged t _) (unchanged t _) (remove-Elsewhere t p.waiting h)
Step-Inv c _ p _ v (stops_writing t c' h h') =
    subst (λ d. Inv d (record p { writers = remove t p.writers })) (sym (writer_released c c' t h'))
      (put-Inv c p _ t _ v
        (record {
          writing = ground (arith, (v t).writing, count-remove t t p.writers h);
          queued = (v t).queued;
          active = (v t).active;
          exclusive = λ busy. omega (arith, (v t).exclusive busy);
        })
        (remove-Elsewhere t p.writers h) (unchanged t _) (unchanged t _))
Step-Inv c _ p _ v (stops_maintenance t c' h h') =
    let (e, busy) = maintenance_released c c' t h' in
    subst (λ d. Inv d (record p { maintenance = remove t p.maintenance })) (sym e)
      (put-Inv c p _ t _ v
        (record {
          writing = (v t).writing;
          queued = (v t).queued;
          active = ground (arith, (v t).active, count-remove t t p.maintenance h);
          exclusive = λ absurdly. cc;
        })
        (unchanged t _) (remove-Elsewhere t p.maintenance h) (unchanged t _))

Steps-Inv : (c d : MaintenanceCoordinator) (p q : Threads) → Inv c p → Steps c p d q → Inv d q
Steps-Inv c _ p _ v done = v
Steps-Inv c d p q v (step s ss) = Steps-Inv _ d _ q (Step-Inv c _ p _ v s) ss

abbrev pub no_threads : Threads
no_threads = record { writers = []; maintenance = []; waiting = [] }

no_threads-Inv : Inv [] no_threads
unfolding state get count
no_threads-Inv t = record { writing = refl; queued = refl; active = refl; exclusive = λ h. refl }

-- After any calls, a table under maintenance has one maintenance lease and no writer's lease, and
-- to give back any lease that is held raises nothing.
pub maintenance_excludes :
    (c : MaintenanceCoordinator) (p : Threads) (t : ℕ)
    → Steps [] no_threads c p
    → (0 < count t p.maintenance → (count t p.maintenance ≡ 1) × (count t p.writers ≡ 0))
      × (0 < count t p.maintenance
          → (c' : MaintenanceCoordinator) × (release_lease c t true ≡ ok c'))
      × (0 < count t p.writers → (c' : MaintenanceCoordinator) × (release_lease c t false ≡ ok c'))
unfolding release_lease
maintenance_excludes c p t ss =
    let v = Steps-Inv [] c no_threads p no_threads-Inv ss t in
    (
      λ h. ground (arith, v.active, v.writing, v.exclusive),
      λ h. elim (Bool-cases (state c t).maintenance_active) [
        | inl e ↦ (put c t (record (state c t) { maintenance_active = false }), rw e refl)
        | inr e ↦ absurd (ground (arith, v.active))
      ],
      λ h. elim (Bool-cases (nat_beq (state c t).writers 0)) [
        | inl e ↦ absurd (ground (arith, v.writing))
        | inr e ↦ (put c t (record (state c t) { writers = (state c t).writers - 1 }), rw e refl)
      ],
    )

-- While a maintenance call waits for a table, no writer is admitted to it, and the call may enter
-- as soon as no lease of the table is held.
pub waiting_excludes :
    (c : MaintenanceCoordinator) (p : Threads) (t : ℕ)
    → Steps [] no_threads c p
    → 0 < count t p.waiting
    → (acquire_writer c t ≡ none)
      × (count t p.writers ≡ 0
          → count t p.maintenance ≡ 0
          → (c' : MaintenanceCoordinator) × (enter_maintenance c t ≡ some c'))
unfolding acquire_writer enter_maintenance
waiting_excludes c p t ss h =
    let v = Steps-Inv [] c no_threads p no_threads-Inv ss t in
    (
      ground (arith, v.queued),
      λ e e'.
          let idle : (state c t).maintenance_active ≡ false = ground (arith, v.active) in
          let quiet : (state c t).writers ≡ 0 = ground (arith, v.writing) in
          (
            put c t (record (state c t) {
              maintenance_active = true;
              maintenance_waiters = (state c t).maintenance_waiters - 1;
            }),
            rw (idle, quiet) refl,
          ),
    )
