-- ===== src/Executor.antt =====
-- src/recoup/executor: who gets one of the scarce live payment links, and the payments that come in.
pub mod Budget
pub mod Simulated
pub mod Sessions
pub mod Stored
pub mod Reconcile
pub mod Live
pub mod Fake
pub mod Signature
