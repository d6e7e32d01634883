-- ===== src/Sql.antt =====
-- sql/: the syntax and the binding of expressions.
pub mod Syntax
pub mod Binder
