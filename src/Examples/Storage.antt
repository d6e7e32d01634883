-- ===== src/Examples/Storage.antt =====
-- The Clock replacer, free-space maps and leases at concrete inputs.
use mini_postgres.Base.{
  ◌≢◌, ℕ, ◌<◌, ◌≤◌, subst, ◌≡◌, refl, ◌⊎◌, ◌↔◌, true, false, Option, none, some, List, [], ◌∷◌, map,
  arith, ok, set, get_elem?,
}
use mini_postgres.Dict.{get, put}
use mini_postgres.Storage.Replacer.{ClockReplacer, flag, advance, sweep, evict}
use mini_postgres.Storage.Replacer.Sweep.{IsClock}
use mini_postgres.Storage.Replacer.Victims.{evict-finds}
use mini_postgres.Storage.FreeSpace.{FreeSpaceMap, record_free, padded, category, candidate_pages}
use mini_postgres.Storage.FreeSpace.Order.{Listed, Ordered}
use mini_postgres.Storage.FreeSpace.Candidates.{candidate_pages-Ordered, record_free-Listed}
use mini_postgres.Maintenance.Coordinator.{
  MaintenanceCoordinator, state, acquire_writer, queue_maintenance, enter_maintenance,
  release_lease,
}
use mini_postgres.Maintenance.Coordinator.Leases.{
  Threads, count, Step, writes, queues, Steps, step, done,
}
use mini_postgres.Maintenance.Coordinator.Exclusion.{
  no_threads, maintenance_excludes, waiting_excludes,
}

-- Two evictable frames, the first referenced.
abbrev clock : ClockReplacer
clock = record { referenced = true ∷ false ∷ []; evictable = true ∷ true ∷ []; hand = 0 }

abbrev clock' : ClockReplacer
clock' = record { referenced = false ∷ false ∷ []; evictable = true ∷ false ∷ []; hand = 0 }

clock-IsClock : IsClock 2 clock
clock-IsClock = record { references = refl; frames = refl; in_range = omega arith }

abbrev victim : Option ℕ
victim = some 1

evicts_1 : evict clock ≡ (victim, clock')
unfolding evict sweep advance
evicts_1 = refl

evict-finds_example :
    ((victim ≡ none) × ((i : ℕ) → flag clock.evictable i ≡ false))
    ⊎ ((f : ℕ) × (victim ≡ some f)
        × (flag clock.evictable f ≡ true)
        × (clock'.evictable ≡ set clock.evictable f false)
        × IsClock 2 clock')
evict-finds_example = evict-finds 2 clock clock' victim clock-IsClock evicts_1

abbrev free_space : FreeSpaceMap
free_space = record { maximum_free_bytes = 8000; categories = 10 ∷ 255 ∷ [] }

abbrev free_space' : FreeSpaceMap
free_space' = record { maximum_free_bytes = 8000; categories = 10 ∷ 255 ∷ 0 ∷ 32 ∷ [] }

records_3 : record_free free_space 3 1000 ≡ ok free_space'
unfolding record_free padded category
records_3 = refl

record_free-Listed_example :
    (xs : List (ℕ × ℕ)) × (candidate_pages free_space' 900 ≡ map (λ x. x.1) xs)
    × Ordered xs
    × ((c p : ℕ)
        → Listed (c, p) xs
          ↔ ((get_elem? free_space'.categories p ≡ some c) × (category 8000 900 ≤ c)))
    × Listed (category 8000 1000, 3) xs
    × ((p c : ℕ)
        → p ≢ 3
        → get_elem? free_space.categories p ≡ some c
        → get_elem? free_space'.categories p ≡ some c)
record_free-Listed_example =
    record_free-Listed free_space free_space' 3 1000 900 (omega arith) records_3 (omega arith)

candidate_pages-Ordered_example :
    (xs : List (ℕ × ℕ)) × (candidate_pages free_space' 900 ≡ map (λ x. x.1) xs)
    × Ordered xs
    × ((c p : ℕ)
        → Listed (c, p) xs
          ↔ ((get_elem? free_space'.categories p ≡ some c) × (category 8000 900 ≤ c)))
candidate_pages-Ordered_example = candidate_pages-Ordered free_space' 900 (omega arith)

-- A writer of table 1, and a maintenance call that waits for it.
abbrev written : MaintenanceCoordinator
written = (1, record { writers = 1; maintenance_active = false; maintenance_waiters = 0 }) ∷ []

abbrev awaited : MaintenanceCoordinator
awaited = (1, record { writers = 1; maintenance_active = false; maintenance_waiters = 1 }) ∷ []

abbrev writer : Threads
writer = record { writers = 1 ∷ []; maintenance = []; waiting = [] }

abbrev writer_and_waiter : Threads
writer_and_waiter = record { writers = 1 ∷ []; maintenance = []; waiting = 1 ∷ [] }

writes_1 : acquire_writer [] 1 ≡ some written
unfolding acquire_writer state get put
writes_1 = refl

queues_1 : queue_maintenance written 1 ≡ awaited
unfolding queue_maintenance state get put
queues_1 = refl

awaited-Steps : Steps [] no_threads awaited writer_and_waiter
awaited-Steps =
    step (writes 1 written writes_1)
      (step (subst (λ c. Step written writer c writer_and_waiter) queues_1 (queues 1)) done)

waits_1 : 0 < count 1 writer_and_waiter.waiting
unfolding count
waits_1 = omega arith

waiting_excludes_example :
    (acquire_writer awaited 1 ≡ none)
    × (count 1 writer_and_waiter.writers ≡ 0
        → count 1 writer_and_waiter.maintenance ≡ 0
        → (c' : MaintenanceCoordinator) × (enter_maintenance awaited 1 ≡ some c'))
waiting_excludes_example = waiting_excludes awaited writer_and_waiter 1 awaited-Steps waits_1

maintenance_excludes_example :
    (0 < count 1 writer_and_waiter.maintenance
      → (count 1 writer_and_waiter.maintenance ≡ 1) × (count 1 writer_and_waiter.writers ≡ 0))
    × (0 < count 1 writer_and_waiter.maintenance
        → (c' : MaintenanceCoordinator) × (release_lease awaited 1 true ≡ ok c'))
    × (0 < count 1 writer_and_waiter.writers
        → (c' : MaintenanceCoordinator) × (release_lease awaited 1 false ≡ ok c'))
maintenance_excludes_example = maintenance_excludes awaited writer_and_waiter 1 awaited-Steps
