-- ===== src/Tests.antt =====
-- Runs of the model on concrete inputs, and instances of the theorems.
mod Samples
mod Calculation
mod AuthLimit
mod Checklist
mod Server
mod Accounts
mod Housing
mod Database
mod Postgres
mod HousingTables
mod PeopleTables
