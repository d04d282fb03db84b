-- ===== src/Sqlc/Integrity.antt =====
-- The constraints of sql/migrations/0001_initial_table.up.sql as an invariant of the tables.
pub mod Users
pub mod Chat
pub mod Events
use based_backend.Prelude.{◌≡◌, true, All, Distinct, Refers}
use based_backend.Sqlc.Database.{Database}
use based_backend.Sqlc.Keys.{
  same_user, same_event, same_attendee, same_message, same_moment, same_like, event_creator,
  attendee_event, attendee_user, message_event, message_user, like_message, like_user,
}
use based_backend.Sqlc.Events.Writes.{passes_checks}

-- Primary and unique keys, foreign keys, and the CHECK constraints of events.
pub record IsValid (db : Database) : Type 0 where
  pub user_keys : Distinct same_user db.users
  pub event_keys : Distinct same_event db.events
  pub attendee_keys : Distinct same_attendee db.event_attendees
  pub message_keys : Distinct same_message db.chat_messages
  pub moments : Distinct same_moment db.chat_messages
  pub like_keys : Distinct same_like db.message_likes
  pub creators : Refers event_creator db.events db.users
  pub attended : Refers attendee_event db.event_attendees db.events
  pub attendees : Refers attendee_user db.event_attendees db.users
  pub message_events : Refers message_event db.chat_messages db.events
  pub authors : Refers message_user db.chat_messages db.users
  pub liked : Refers like_message db.message_likes db.chat_messages
  pub likers : Refers like_user db.message_likes db.users
  pub checks : All (λ e. passes_checks e ≡ true) db.events
