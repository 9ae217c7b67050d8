-- ===== src/Audit.antt =====
-- src/recoup/audit: the append-only log and its replay.
pub mod Log
pub mod Replay
