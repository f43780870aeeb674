-- ===== src/Service.antt =====
-- internal/service: what the servers call between the transport and the repositories.
pub mod Dashboard
pub mod Accounts
