-- ===== src/Analysis.antt =====
-- The analysis engine's collection of task results: internal/analysis.
pub mod Collector
