-- ===== src/Pipeline.antt =====
-- The pipeline of a job: internal/pipeline.
pub mod Stages
