-- ===== src/GraphDb/MemDriver.antt =====
-- The in-memory driver of the graph database: pkg/graphdb/memdriver.
pub mod Props
pub mod Graph
pub mod Client
pub mod Nodes
pub mod Edges
pub mod Supersede
pub mod Query
pub mod Walk
pub mod Writes
