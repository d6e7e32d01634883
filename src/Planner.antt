-- ===== src/Planner.antt =====
-- planner/: logical plans and their rewriting.
pub mod Fold
pub mod Logical
pub mod Rules
pub mod RuleOptimizer
pub mod Planner
