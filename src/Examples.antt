-- ===== src/Examples.antt =====
-- The theorems at concrete inputs.
mod AnalyzerCases
mod CollectorCases
mod WorkerCases
mod SubjectCases
mod RetentionCases
mod GraphCases
mod PathCases
mod PipelineCases
