-- ===== src/Runner.antt =====
-- src/recoup/runner: the tick loop.
pub mod Batch
pub mod Live
