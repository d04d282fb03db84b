-- ===== src/Sqlc/Keys.antt =====
-- The primary keys, unique keys and foreign keys of sql/migrations/0001_initial_table.up.sql, as
-- tests on two rows.
use based_backend.Prelude.{Bool, ◌&&◌}
use based_backend.Types.{Nullable, Time, uuid_eq, not_after}
use based_backend.Sqlc.Models.{User, Event, EventAttendee, ChatMessage, MessageLike}

abbrev pub same_user : User → User → Bool
same_user a b = uuid_eq a.user_id b.user_id

abbrev pub same_event : Event → Event → Bool
same_event a b = uuid_eq a.event_id b.event_id

abbrev pub same_attendee : EventAttendee → EventAttendee → Bool
same_attendee a b = uuid_eq a.event_id b.event_id && uuid_eq a.user_id b.user_id

abbrev pub same_message : ChatMessage → ChatMessage → Bool
same_message a b = uuid_eq a.message_id b.message_id

abbrev pub same_like : MessageLike → MessageLike → Bool
same_like a b = uuid_eq a.message_id b.message_id && uuid_eq a.user_id b.user_id

unfoldable pub time_eq : Nullable Time → Nullable Time → Bool
time_eq a b = a.valid && b.valid && not_after a.value b.value && not_after b.value a.value

-- UNIQUE (event_id, created_at)
abbrev pub same_moment : ChatMessage → ChatMessage → Bool
same_moment a b = uuid_eq a.event_id b.event_id && time_eq a.created_at b.created_at

abbrev pub event_creator : Event → User → Bool
event_creator e u = uuid_eq e.creator_id u.user_id

abbrev pub attendee_event : EventAttendee → Event → Bool
attendee_event a e = uuid_eq a.event_id e.event_id

abbrev pub attendee_user : EventAttendee → User → Bool
attendee_user a u = uuid_eq a.user_id u.user_id

abbrev pub message_event : ChatMessage → Event → Bool
message_event m e = uuid_eq m.event_id e.event_id

abbrev pub message_user : ChatMessage → User → Bool
message_user m u = uuid_eq m.user_id u.user_id

abbrev pub like_message : MessageLike → ChatMessage → Bool
like_message l m = uuid_eq l.message_id m.message_id

abbrev pub like_user : MessageLike → User → Bool
like_user l u = uuid_eq l.user_id u.user_id
