-- ===== src/Kv.antt =====
-- backend/covert-kv/src: the versioned key-value engine. The state of a mount is its two tables.
pub mod Data
pub mod Secrets
pub mod Config
pub mod Handlers
pub mod Invariant
pub mod Rows
pub mod Deletion
pub mod Destroyed
pub mod Adds
pub mod Reads
