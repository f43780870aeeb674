-- ===== src/Server.antt =====
-- internal/server: the gRPC handlers.
pub mod Errors
pub mod Messages
pub mod Mapping
pub mod Repositories
pub mod Access
pub mod Requests
pub mod Auth
pub mod Family
pub mod Person
pub mod Housing
