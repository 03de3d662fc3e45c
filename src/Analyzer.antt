-- ===== src/Analyzer.antt =====
-- The registry of analyzers and the plan of their execution: pkg/analyzer.
pub mod Dag
pub mod Registry
pub mod Candidates
