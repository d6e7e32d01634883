-- ===== src/Wal.antt =====
-- wal/: the write-ahead log.
pub mod Records
pub mod RoundTrip
pub mod Codec
pub mod Manager
pub mod Log
pub mod Durability
