-- ===== src/Sqlc/Events/Counts.antt =====
-- internal/gen/sqlc/events.sql.go: the counts of GetEventByID, which are distinct, and those of
-- GetUserEvents, which are not.
use based_backend.Prelude.RowLaws.{Distinct-select}
use based_backend.Prelude.{
  Bool-cases, length, select, exists_where, count_distinct, Distinct, ◌≡◌, refl, inl, inr, true,
  false, List, [], ◌∷◌, arith,
}
use based_backend.Sqlc.Events.Reads.{attendee_count, comment_count, event_row, user_event_row}
use based_backend.Sqlc.Integrity.{IsValid}
use based_backend.Sqlc.Keys.{same_attendee, same_message, attendee_event}
use based_backend.Sqlc.Database.{Database, Postgres}
use based_backend.Types.{uuid_eq, uuid_eq_join}
use based_backend.Sqlc.Models.{Event, EventAttendee, ChatMessage}

-- Rows of one event that differ in their key differ in the user.
count_distinct-users :
    (e : Event) (rs : List EventAttendee)
    → Distinct same_attendee rs
    → count_distinct (λ a b. uuid_eq a.user_id b.user_id) (select (λ a. attendee_event a e) rs)
      ≡ length (select (λ a. attendee_event a e) rs)
count_distinct-users e [] d = refl
count_distinct-users e (r ∷ rs) d = elim (Bool-cases (attendee_event r e)) [
  | inl h ↦ rw (h, users_differ r e rs h d.0, count_distinct-users e rs d.1) refl
  | inr h ↦ rw (h, count_distinct-users e rs d.1) refl
]
  where
    users_differ :
        (r : EventAttendee) (e : Event) (rs : List EventAttendee)
        → attendee_event r e ≡ true
        → exists_where (same_attendee r) rs ≡ false
        → exists_where (λ b. uuid_eq r.user_id b.user_id) (select (λ a. attendee_event a e) rs)
          ≡ false
    users_differ r e [] h d = refl
    users_differ r e (b ∷ rs) h d =
        ground (arith, users_differ r e rs h, uuid_eq_join r.event_id b.event_id e.event_id h)

count_distinct-messages :
    (rs : List ChatMessage) → Distinct same_message rs → count_distinct same_message rs ≡ length rs
count_distinct-messages [] d = refl
count_distinct-messages (r ∷ rs) d = ground (arith, count_distinct-messages rs)

-- On tables that meet their keys, GetEventByID and GetUserEvents count the same attendees and the same
-- comments of an event.
pub user_event_row-counts :
    (pg : Postgres) (db : Database) (e : Event)
    → IsValid db
    → ((event_row pg db e).number_of_attendees ≡ (user_event_row pg db e).number_of_attendees)
      × ((event_row pg db e).number_of_comments ≡ (user_event_row pg db e).number_of_comments)
unfolding event_row user_event_row attendee_count comment_count
user_event_row-counts pg db e v = (
  count_distinct-users e db.event_attendees v.attendee_keys,
  count_distinct-messages _ (Distinct-select same_message _ db.chat_messages v.message_keys),
)
