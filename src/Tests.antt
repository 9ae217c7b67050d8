-- ===== src/Tests.antt =====
-- Runs at concrete inputs: the data, and each theorem of the results applied to it.
pub mod Data
pub mod Ledgers
pub mod Logs
pub mod Policies
pub mod Runs
pub mod Groups
pub mod Proposals
pub mod Calendar
pub mod Scores
pub mod Payers
pub mod Payments
pub mod Webhook
pub mod Live
