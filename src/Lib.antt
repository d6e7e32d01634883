-- ===== src/Lib.antt =====
-- MiniPostgres, a single-process relational database kernel in Python (src/minipostgres).
-- This library models its transactions, log, parts of its storage, expressions, planner and executor.
--
-- Parts and files (paths are from the repository's root):
--   Transaction/   src/minipostgres/transaction: Model (Transaction, Snapshot, lock keys), Status
--                  (TransactionStatusTable), Visibility (is_visible), Deadlock (WaitForGraph), Locks
--                  (LockManager's tables) and Manager (TransactionManager, and LockManager.acquire,
--                  which may abort other transactions through it).
--   Maintenance/   src/minipostgres/maintenance: Horizon (cleanup_horizon, classify_version,
--                  hot_eligible), Coordinator (MaintenanceCoordinator).
--   Wal/           src/minipostgres/wal: Records (the codec), Manager (WalManager).
--   Storage/       src/minipostgres/storage: Identifiers, Replacer (ClockReplacer), FreeSpace
--                  (FreeSpaceMap), Page (encode_page, decode_page).
--   Values/        src/minipostgres/types.py, sql/bound.py's expressions and executor/expressions.py:
--                  scalars, SQL's three-valued logic, and evaluate.
--   Sql/           src/minipostgres/sql: Syntax (ast.py's expressions, scopes and columns) and Binder
--                  (binder.py's expressions, whose results Values evaluates).
--   Planner/       src/minipostgres/planner: Fold (fold_expression of rules.py), Logical (logical.py's
--                  plans), Rules (the rewriting of plans: folding, and filters pushed into joins),
--                  RuleOptimizer (its passes, and the pruning of columns), Planner (planner.py and
--                  physical.py: the plans of bound statements, and their lowering).
--   Executor/      src/minipostgres/executor and row.py: Lifecycle (base.py's Executor), Rows (rows, and
--                  what a caller sees of an executor), and of operators.py: Operators (Values, Filter,
--                  Project, Limit), Keys and Joins (the nested loop and the hash join), Aggregates,
--                  Sort and Modify (Insert, with MVCC and without, and Update and Delete without).
--                  Tables is memory.py: the interface TableAccess, and MemoryTable, which implements it.
--   Base, Dict, Bytes, Action: shared helpers. Dict models Python's dict and set, Bytes models
--                  `struct`, and Action the methods that change an object and may raise.
--   Examples/      the theorems at concrete inputs, and tests.
--
-- Conventions. An object is a record and a method returns the new record; where the code raises, the
-- state comes back beside the exception if it may have changed. Objects that are shared (transactions)
-- are referred to by their XIDs and stand in one table. Waiting on a condition variable ends a call:
-- acquire and its resumption after a wake-up are two calls, and a theorem over any list of calls
-- covers every interleaving of the sessions at these points. Locks of Python that only make a method
-- atomic are left out, and so are failpoints, which are inert outside crash tests.
--
-- Parameters. zlib.crc32 is a function from bytes to numbers of which nothing is assumed. Floating-point
-- numbers and their operations are a parameter of Values, of which nothing is assumed but what a theorem
-- names, and so are str.casefold and str.upper in Sql.
--
-- The comparisons of floats with integers, the identity of float objects, by which a dict finds a NaN
-- among the keys of an aggregation, and the sum of floats are parameters of Executor. Python's == on
-- plans and expressions is one too; it is taken to be equality, so 0.0 and -0.0 are one float. A sort
-- is an insertion sort, which agrees with list.sort where no key is a NaN.
--
-- Executors. An executor that is opened is the sequence of what its calls of next return, up to None or
-- an exception; open may raise instead. Operators are functions on these sequences, so a row that is
-- never asked for raises nothing. Executors of one query share no state that a query changes.
--
-- Fuel. The depth-first search of Transaction/Deadlock has one unit more than the graph has nodes, and
-- the scan of a log one unit more than the file has bytes.
--
-- Not modelled: SQL parsing, the binding of statements, costs and the choice of join orders, scans of
-- tables and indexes and the MVCC branches of Update and Delete, the catalog's persistence, the B+Tree
-- and the heap, recovery and the buffer pool, file I/O (rename, directories) and threads inside one
-- method. Of fsync, the log's bytes that are on the disk are modelled. The access method insert_mvcc of
-- a table under MVCC is an argument of Insert.
pub mod Base
pub mod Dict
pub mod Action
pub mod Storage
pub mod Wal
pub mod Maintenance
pub mod Examples
pub mod Bytes
pub mod Transaction
pub mod Values
pub mod Sql
pub mod Planner
pub mod Executor
