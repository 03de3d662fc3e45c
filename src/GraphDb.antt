-- ===== src/GraphDb.antt =====
-- The graph database's contract (pkg/graphdb) and its in-memory driver.
pub mod DerivedId
pub mod Types
pub mod Checks
pub mod MemDriver
