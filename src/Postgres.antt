-- ===== src/Postgres.antt =====
-- internal/repository/postgres: the repositories, as statements on tables.
pub mod Sql
pub mod Tables
pub mod Access
pub mod UserRows
pub mod Users
pub mod FamilyRows
pub mod Families
pub mod HousingRows
pub mod Housing
pub mod HousingGroups
pub mod PersonRows
pub mod PersonLinks
pub mod PersonUpdates
pub mod People
