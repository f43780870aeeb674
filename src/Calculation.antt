-- ===== src/Calculation.antt =====
-- internal/calculation: contributions to the Central Provident Fund, income, grants and affordability.
pub mod Cents
pub mod Cpf
pub mod Income
pub mod Grant
pub mod Housing
