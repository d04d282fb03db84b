-- ===== src/Sqlc.antt =====
-- internal/gen/sqlc: the rows, the tables, and one function for each query.
pub mod Models
pub mod Scan
pub mod Database
pub mod Statement
pub mod Keys
pub mod Labels
pub mod Users
pub mod Events
pub mod Chat
pub mod Integrity
