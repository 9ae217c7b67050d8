-- ===== src/Domain/Models.antt =====
-- src/recoup/domain/models.py: the data contracts. Money and ticks are natural numbers; a virtual
-- date is its day number (`date.toordinal`); a text that Python formats from values is a
-- constructor over the same values (`Explanation`).
pub mod Proposals
pub mod Invoices
pub mod Rows
