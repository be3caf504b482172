-- ===== src/Core.antt =====
-- The storage core, crates/quantydb-core.
pub mod Value
pub mod Encoding
pub mod Error
pub mod Page
pub mod Storage
pub mod Meta
pub mod FreeList
pub mod Refs
pub mod Commit
pub mod Crc
pub mod Node
pub mod Tree
pub mod Pager
pub mod Cache
mod Tests
