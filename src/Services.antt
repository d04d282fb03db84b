-- ===== src/Services.antt =====
-- internal/services: the gRPC services, with the conversions that they share.
pub mod Status
pub mod Convert
pub mod User
pub mod Event
pub mod Chat
pub mod Auth
pub mod Keeps
