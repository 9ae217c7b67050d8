-- ===== src/Policy.antt =====
-- src/recoup/policy: the deterministic engine between a proposer and the payer.
pub mod Sources
pub mod Context
pub mod Rules
pub mod Engine
pub mod Batch
pub mod Contracts
