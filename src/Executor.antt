-- ===== src/Executor.antt =====
-- executor/: rows, and the operators that pull rows from one another.
pub mod Rows
pub mod Keys
pub mod Joins
pub mod Operators
pub mod Aggregates
pub mod Tables
pub mod Modify
pub mod Lifecycle
pub mod Sort
