-- ===== src/Server.antt =====
-- The network server, crates/quantydb-server.
pub mod Conn
pub mod Registry
