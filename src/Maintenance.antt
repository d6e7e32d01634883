-- ===== src/Maintenance.antt =====
-- maintenance/: which versions may be reclaimed, HOT updates, and the exclusion of writers.
pub mod Horizon
pub mod Safety
pub mod Vacuum
pub mod Coordinator
