-- ===== src/Domain.antt =====
-- src/recoup/domain: the closed enumerations, the cost table and the data contracts.
pub mod Enums
pub mod Interventions
pub mod Models
