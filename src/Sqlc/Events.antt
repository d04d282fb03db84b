-- ===== src/Sqlc/Events.antt =====
-- internal/gen/sqlc/events.sql.go: the queries of events and event_attendees.
pub mod Rows
pub mod Writes
pub mod Reads
pub mod Counts
