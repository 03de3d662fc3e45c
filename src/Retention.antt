-- ===== src/Retention.antt =====
-- Data retention: pkg/retention, and the retention settings of pkg/config/types.go.
-- A time is its number of nanoseconds since the zero time, which is 0.
pub mod Candidate
pub mod Duration
pub mod Policy
pub mod Hold
pub mod Engine
