-- ===== src/Examples.antt =====
-- The theorems at concrete inputs, and tests of the definitions.
pub mod Transactions
pub mod Logs
pub mod Storage
pub mod Values
pub mod Plans
pub mod Joins
pub mod Grouping
pub mod Modification
pub mod Planning
pub mod Sorting
pub mod Filtering
pub mod Deadlocks
