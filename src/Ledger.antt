-- ===== src/Ledger.antt =====
-- src/recoup/ledger: the virtual clock, the state machine and the system of record.
pub mod Clock
pub mod States
pub mod Records
pub mod Promises
pub mod Payers
pub mod Adjudicator
