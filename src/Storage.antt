-- ===== src/Storage.antt =====
-- storage/: page identities, and the parts of the page store.
pub mod Identifiers
pub mod Replacer
pub mod FreeSpace
pub mod Page
