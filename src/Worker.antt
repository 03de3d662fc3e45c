-- ===== src/Worker.antt =====
-- LLM workers: internal/worker.
pub mod Abandoned
pub mod Control
