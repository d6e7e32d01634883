-- ===== src/Transaction.antt =====
-- transaction/: transactions, their statuses, snapshots and visibility, locks and deadlocks.
pub mod Model
pub mod Status
pub mod Visibility
pub mod Deadlock
pub mod Locks
pub mod Manager
