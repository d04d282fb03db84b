-- ===== src/Proto.antt =====
-- internal/gen/proto: the enums and messages of proto/*.proto that the services read and build.
pub mod Enums
pub mod Messages
