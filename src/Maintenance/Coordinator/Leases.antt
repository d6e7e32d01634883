-- ===== src/Maintenance/Coordinator/Leases.antt =====
-- The threads that hold or await leases of maintenance/coordinator.py, and their counts.
use mini_postgres.Base.{
  ℕ, ◌+◌, ◌-◌, ◌<◌, ◌≡◌, refl, sym, ◌∙◌, subst, ◌≢◌, inl, inr, true, false, some, List, [], ◌∷◌,
  arith, nat_beq, if◌then◌else◌, ok, Bool-cases, nat_hashable,
}
use mini_postgres.Dict.{put, get-put}
use mini_postgres.Maintenance.Coordinator.{
  TableState, MaintenanceCoordinator, state, acquire_writer, queue_maintenance, leave_queue,
  enter_maintenance, release_lease,
}

unfoldable pub count : ℕ → List ℕ → ℕ
count t [] = 0
count t (x ∷ xs) = let rest = count t xs in if nat_beq x t then rest + 1 else rest

unfoldable pub remove : ℕ → List ℕ → List ℕ
remove t [] = []
remove t (x ∷ xs) = let rest = remove t xs in if nat_beq x t then xs else x ∷ rest

pub count-remove :
    (t u : ℕ) (xs : List ℕ)
    → 0 < count t xs
    → count u (remove t xs) ≡ (if nat_beq t u then count u xs - 1 else count u xs)
unfolding count remove
count-remove t u [] h = ground arith
count-remove t u (x ∷ xs) h = elim (Bool-cases (nat_beq x t)) [
  | inl e ↦ ground arith
  | inr e ↦ ground (arith, count-remove t u xs (ground arith))
]

state-put :
    (c : MaintenanceCoordinator) (t u : ℕ) (s : TableState)
    → state (put c t s) u ≡ (if nat_beq t u then s else state c u)
unfolding state
state-put c t u s = ground (arith, get-put c t u s)

-- The calls' threads: the tables of the leases held, and of the maintenance calls that wait.
pub record Threads : Type 0 where
  pub writers : List ℕ
  pub maintenance : List ℕ
  pub waiting : List ℕ

-- One thread takes, awaits or gives back a lease, or is interrupted in its wait.
pub data Step (c : MaintenanceCoordinator) (p : Threads)
    : MaintenanceCoordinator → Threads → Type 0 where
  writes :
      (t : ℕ) (c' : MaintenanceCoordinator)
      → acquire_writer c t ≡ some c'
      → Step c p c' (record p { writers = t ∷ p.writers })
  queues : (t : ℕ) → Step c p (queue_maintenance c t) (record p { waiting = t ∷ p.waiting })
  enters :
      (t : ℕ) (c' : MaintenanceCoordinator)
      → 0 < count t p.waiting
      → enter_maintenance c t ≡ some c'
      → Step c p c' (record p { waiting = remove t p.waiting; maintenance = t ∷ p.maintenance })
  is_interrupted :
      (t : ℕ)
      → 0 < count t p.waiting
      → Step c p (leave_queue c t) (record p { waiting = remove t p.waiting })
  stops_writing :
      (t : ℕ) (c' : MaintenanceCoordinator)
      → 0 < count t p.writers
      → release_lease c t false ≡ ok c'
      → Step c p c' (record p { writers = remove t p.writers })
  stops_maintenance :
      (t : ℕ) (c' : MaintenanceCoordinator)
      → 0 < count t p.maintenance
      → release_lease c t true ≡ ok c'
      → Step c p c' (record p { maintenance = remove t p.maintenance })

pub data Steps : MaintenanceCoordinator → Threads → MaintenanceCoordinator → Threads → Type 0 where
  done : {c : MaintenanceCoordinator} {p : Threads} → Steps c p c p
  step :
      {c d e : MaintenanceCoordinator} {p q r : Threads}
      → Step c p d q
      → Steps d q e r
      → Steps c p e r

-- A table's counts are those of the threads, and no one writes during its maintenance.
pub record Counted (s : TableState) (p : Threads) (t : ℕ) : Type 0 where
  pub writing : s.writers ≡ count t p.writers
  pub queued : s.maintenance_waiters ≡ count t p.waiting
  pub active : count t p.maintenance ≡ (if s.maintenance_active then 1 else 0)
  pub exclusive : s.maintenance_active ≡ true → s.writers ≡ 0

abbrev pub Inv : MaintenanceCoordinator → Threads → Type 0
Inv c p = (t : ℕ) → Counted (state c t) p t

-- Counts on the other tables are not touched.
abbrev pub Elsewhere : ℕ → List ℕ → List ℕ → Type 0
Elsewhere t xs ys = (u : ℕ) → t ≢ u → count u ys ≡ count u xs

pub cons-Elsewhere : (t : ℕ) (xs : List ℕ) → Elsewhere t xs (t ∷ xs)
unfolding count
cons-Elsewhere t xs u h = ground arith

pub remove-Elsewhere : (t : ℕ) (xs : List ℕ) → 0 < count t xs → Elsewhere t xs (remove t xs)
remove-Elsewhere t xs lt u h = ground (arith, count-remove t u xs lt)

pub put-Inv :
    (c : MaintenanceCoordinator) (p q : Threads) (t : ℕ) (s : TableState)
    → Inv c p
    → Counted s q t
    → Elsewhere t p.writers q.writers
    → Elsewhere t p.maintenance q.maintenance
    → Elsewhere t p.waiting q.waiting
    → Inv (put c t s) q
put-Inv c p q t s v here x y z u = elim (Bool-cases (nat_beq t u)) [
  | inl e ↦
      let same : t ≡ u = ground arith in
      let e' : state (put c t s) u ≡ s = ground (arith, state-put c t u s) in
      rw e' (subst (Counted s q) same here)
  | inr e ↦
      let other : t ≢ u = ground arith in
      let e' : state (put c t s) u ≡ state c u = ground (arith, state-put c t u s) in
      rw e' (record {
        writing = (v u).writing ∙ sym (x u other);
        queued = (v u).queued ∙ sym (z u other);
        active = y u other ∙ (v u).active;
        exclusive = (v u).exclusive;
      })
]

pub unchanged : (t : ℕ) (xs : List ℕ) → Elsewhere t xs xs
unchanged t xs u h = refl
