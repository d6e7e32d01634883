-- ===== src/Maintenance/Coordinator.antt =====
-- maintenance/coordinator.py: per table, either writers or one physical maintenance. A call that
-- waits is split where it gives up the condition's lock: a predicate that does not hold keeps the
-- caller waiting, which is `none`.
pub mod Leases
pub mod Exclusion
use mini_postgres.Base.{
  ℕ, ◌+◌, ◌-◌, Bool, true, false, not, ◌&&◌, Option, none, some, nat_beq, if◌then◌else◌, Result, ok,
  err, runtime_error, nat_hashable,
}
use mini_postgres.Dict.{Dict, get, put}

pub record TableState : Type 0 where
  pub writers : ℕ
  pub maintenance_active : Bool
  pub maintenance_waiters : ℕ

abbrev pub MaintenanceCoordinator : Type 0
MaintenanceCoordinator = Dict ℕ TableState

-- _state: a table's state is stored with its first change.
unfoldable pub state : MaintenanceCoordinator → ℕ → TableState
state c table_id = elim (get c table_id) [
  | none ↦ record { writers = 0; maintenance_active = false; maintenance_waiters = 0 }
  | some s ↦ s
]

-- acquire_writer, once its predicate is tested
unfoldable pub acquire_writer : MaintenanceCoordinator → ℕ → Option MaintenanceCoordinator
acquire_writer c table_id =
    let s = state c table_id in
    if not s.maintenance_active && nat_beq s.maintenance_waiters 0
    then some (put c table_id (record s { writers = s.writers + 1 }))
    else none

-- acquire_maintenance up to its wait
unfoldable pub queue_maintenance : MaintenanceCoordinator → ℕ → MaintenanceCoordinator
queue_maintenance c table_id =
    let s = state c table_id in
    put c table_id (record s { maintenance_waiters = s.maintenance_waiters + 1 })

-- the `finally` of acquire_maintenance, where its wait raises
unfoldable pub leave_queue : MaintenanceCoordinator → ℕ → MaintenanceCoordinator
leave_queue c table_id =
    let s = state c table_id in
    put c table_id (record s { maintenance_waiters = s.maintenance_waiters - 1 })

-- acquire_maintenance from its wait, once the predicate is tested: it enters, and leaves the queue
unfoldable pub enter_maintenance : MaintenanceCoordinator → ℕ → Option MaintenanceCoordinator
enter_maintenance c table_id =
    let s = state c table_id in
    if not s.maintenance_active && nat_beq s.writers 0
    then some (
        put c table_id
          (record s { maintenance_active = true; maintenance_waiters = s.maintenance_waiters - 1 }))
    else none

unfoldable pub release_lease : MaintenanceCoordinator → ℕ → Bool → Result MaintenanceCoordinator
release_lease c table_id maintenance =
    let s = state c table_id in
    if maintenance
    then if s.maintenance_active
      then ok (put c table_id (record s { maintenance_active = false }))
      else err runtime_error
    else if nat_beq s.writers 0
    then err runtime_error
    else ok (put c table_id (record s { writers = s.writers - 1 }))
