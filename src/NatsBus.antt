-- ===== src/NatsBus.antt =====
-- The NATS bus client's contract: pkg/natsbus.
pub mod Subjects
