-- ===== src/Proto.antt =====
-- The wire protocol, crates/quantydb-proto.
pub mod Limits
pub mod Error
pub mod Reader
pub mod Writer
pub mod Value
pub mod Frame
pub mod Message
mod Tests
