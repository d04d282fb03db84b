-- ===== src/Sqlc/Events/Writes.antt =====
-- internal/gen/sqlc/events.sql.go: CreateEvent, UpdateEvent, DeleteEvent, JoinEvent, LeaveEvent.
use based_backend.Prelude.{
  List, [], ◌∷◌, Bool, true, not, ◌&&◌, ◌||◌, Option, none, some, if◌then◌else◌, select,
  exists_where, find_where, update_where, refers_to_deleted, cascade,
}
use based_backend.Prelude.Int.{leb_ℤ, is_negative}
use based_backend.Types.{Uuid, Nullable, Time, uuid_eq, some_value}
use based_backend.Sqlc.Labels.{has_label, event_status_labels}
use based_backend.Sqlc.Labels.{has_label, event_category_labels}
use based_backend.Sqlc.Models.{
  event_category_label, event_status_label, User, Event, EventAttendee, EventCategoryType,
  EventStatusType,
}
use based_backend.Sqlc.Keys.{same_event, event_creator, attendee_event, message_event, like_message}
use based_backend.Sqlc.Users.{is_user}
use based_backend.World.{M}
use based_backend.Sqlc.Statement.{statement}
use based_backend.Sqlc.Database.{
  Database, Postgres, Env, Query, commits, aborts, DbError, not_null_violation, unique_violation,
  foreign_key_violation, check_violation, invalid_enum_label, no_rows,
}
use based_backend.Sqlc.Events.Rows.{
  CreateEventParams, CreateEventRow, DeleteEventParams, JoinEventParams, LeaveEventParams,
  UpdateEventParams, UpdateEventRow,
}

-- Whether the values are of the enums event_category_type and event_status_type.
unfoldable pub is_category : EventCategoryType → Bool
is_category c = has_label event_category_labels (event_category_label c)

unfoldable pub are_categories : List EventCategoryType → Bool
are_categories [] = true
are_categories (c ∷ cs) = is_category c && are_categories cs

unfoldable pub is_event_status : EventStatusType → Bool
is_event_status e = has_label event_status_labels (event_status_label e)

-- The CHECK constraints of the events table. A comparison with NULL lets the row pass.
unfoldable pub passes_checks : Event → Bool
passes_checks e =
    not (is_negative e.max_attendees)
    && (not low.valid || not (is_negative low.value))
    && (not (low.valid && high.valid) || leb_ℤ low.value high.value)
    && (if low.valid then high.valid else not high.valid)
  where
    open e use {age_range_min as low, age_range_max as high}

abbrev timestamp_column : Postgres → Nullable Time → Nullable Time
timestamp_column pg t = record t { value = pg.to_timestamptz t.value }

unfoldable pub new_event : CreateEventParams → Postgres → Env → Event
new_event p pg env = record {
  event_id = some_value env.random_uuid;
  creator_id = p.creator_id;
  created_at = some_value (pg.to_timestamptz env.now);
  updated_at = some_value (pg.to_timestamptz env.now);
  name = p.name;
  venue = p.venue;
  description = p.description;
  categories = p.categories;
  status = p.status;
  thumbnail = p.thumbnail;
  location = pg.make_point p.st_makepoint_2 p.st_makepoint;
  datetime = timestamp_column pg p.datetime;
  max_attendees = p.max_attendees;
  age_range_min = p.age_range_min;
  age_range_max = p.age_range_max;
  allow_female = p.allow_female;
  allow_male = p.allow_male;
  allow_diverse = p.allow_diverse;
}

unfoldable pub created_row : Postgres → Event → CreateEventRow
created_row pg e = record {
  event_id = e.event_id;
  created_at = e.created_at;
  updated_at = e.updated_at;
  creator_id = e.creator_id;
  name = e.name;
  latitude = pg.st_y e.location;
  longitude = pg.st_x e.location;
  datetime = e.datetime;
  max_attendees = e.max_attendees;
  venue = e.venue;
  description = e.description;
  status = e.status;
  age_range_min = e.age_range_min;
  age_range_max = e.age_range_max;
  allow_female = e.allow_female;
  allow_male = e.allow_male;
  allow_diverse = e.allow_diverse;
  thumbnail = e.thumbnail;
  status_2 = e.status;
  categories = e.categories;
}

unfoldable pub insert_event : CreateEventParams → Postgres → Env → Database → Query CreateEventRow
insert_event p pg env db =
    let row = new_event p pg env in
    if not (is_event_status p.status && are_categories p.categories)
    then aborts invalid_enum_label
    else if not (p.creator_id.valid && p.datetime.valid)
    then aborts not_null_violation
    else if not (passes_checks row)
    then aborts check_violation
    else if exists_where (same_event row) db.events
    then aborts unique_violation
    else if not (exists_where (event_creator row) db.users)
    then aborts foreign_key_violation
    else commits (created_row pg row) (record db { events = row ∷ db.events })

unfoldable pub create_event : CreateEventParams → M DbError CreateEventRow
create_event p = statement (insert_event p)

abbrev pub is_event : Uuid → Event → Bool
is_event id e = uuid_eq e.event_id id

abbrev pub is_event_by : DeleteEventParams → Event → Bool
is_event_by p e = uuid_eq e.event_id p.event_id && uuid_eq e.creator_id p.creator_id

-- ON DELETE CASCADE from events to event_attendees and chat_messages, and from chat_messages to
-- message_likes.
unfoldable pub delete_event_row : DeleteEventParams → Postgres → Env → Database → Query (Unit {0})
delete_event_row p pg env db = commits tt (record db {
  events = select (λ e. not (is_event_by p e)) db.events;
  event_attendees = cascade (is_event_by p) attendee_event db.events db.event_attendees;
  chat_messages = cascade (is_event_by p) message_event db.events db.chat_messages;
  message_likes =
      cascade (refers_to_deleted (is_event_by p) message_event db.events) like_message
        db.chat_messages db.message_likes;
})

unfoldable pub delete_event : DeleteEventParams → M DbError (Unit {0})
delete_event p = statement (delete_event_row p)

unfoldable pub new_attendee : JoinEventParams → Postgres → Env → User → EventAttendee
new_attendee p pg env u = record {
  event_id = p.event_id;
  user_id = p.user_id;
  gender = u.gender;
  joined_at = some_value (pg.to_timestamptz env.now);
}

abbrev pub attends : Uuid → Uuid → EventAttendee → Bool
attends event user a = uuid_eq a.event_id event && uuid_eq a.user_id user

-- The rows that the SELECT of joinEvent finds: the user, if the event is there too and the user
-- does not attend it. Both joins are on primary keys, so there is at most one.
unfoldable pub joining_user : JoinEventParams → Database → Option User
joining_user p db =
    if exists_where (attends p.event_id p.user_id) db.event_attendees
    then none
    else if exists_where (is_event p.event_id) db.events
    then find_where (is_user p.user_id) db.users
    else none

unfoldable pub join_event_row : JoinEventParams → Postgres → Env → Database → Query (Unit {0})
join_event_row p pg env db = elim (joining_user p db) [
  | none ↦ commits tt db
  | some u ↦
      commits tt (record db { event_attendees = new_attendee p pg env u ∷ db.event_attendees })
]

unfoldable pub join_event : JoinEventParams → M DbError (Unit {0})
join_event p = statement (join_event_row p)

unfoldable pub leave_event_row : LeaveEventParams → Postgres → Env → Database → Query (Unit {0})
leave_event_row p pg env db = commits tt (record db {
  event_attendees = select (λ a. not (attends p.event_id p.user_id a)) db.event_attendees;
})

unfoldable pub leave_event : LeaveEventParams → M DbError (Unit {0})
leave_event p = statement (leave_event_row p)

unfoldable pub set_event : UpdateEventParams → Postgres → Env → Event → Event
set_event p pg env e = record e {
  updated_at = some_value (pg.to_timestamptz env.now);
  status = p.status;
  name = p.name;
  location = pg.make_point p.st_makepoint_2 p.st_makepoint;
  datetime = timestamp_column pg p.datetime;
  max_attendees = p.max_attendees;
  venue = p.venue;
  description = p.description;
  age_range_min = p.age_range_min;
  age_range_max = p.age_range_max;
  allow_male = p.allow_male;
  allow_female = p.allow_female;
  allow_diverse = p.allow_diverse;
  categories = p.categories;
}

unfoldable pub updated_row : Postgres → Event → UpdateEventRow
updated_row pg e = record {
  event_id = e.event_id;
  created_at = e.created_at;
  updated_at = e.updated_at;
  creator_id = e.creator_id;
  name = e.name;
  latitude = pg.st_y e.location;
  longitude = pg.st_x e.location;
  datetime = e.datetime;
  max_attendees = e.max_attendees;
  venue = e.venue;
  description = e.description;
  status = e.status;
  age_range_min = e.age_range_min;
  age_range_max = e.age_range_max;
  allow_female = e.allow_female;
  allow_male = e.allow_male;
  allow_diverse = e.allow_diverse;
  categories = e.categories;
}

unfoldable pub update_event_row :
    UpdateEventParams → Postgres → Env → Database → Query UpdateEventRow
update_event_row p pg env db =
    if not (is_event_status p.status && are_categories p.categories)
    then aborts invalid_enum_label
    else elim (find_where (is_event p.event_id) db.events) [
      | none ↦ aborts no_rows
      | some e ↦
          if not p.datetime.valid
          then aborts not_null_violation
          else if not (passes_checks (set_event p pg env e))
          then aborts check_violation
          else commits (updated_row pg (set_event p pg env e)) (record db {
            events = update_where (is_event p.event_id) (set_event p pg env) db.events;
          })
    ]

unfoldable pub update_event : UpdateEventParams → M DbError UpdateEventRow
update_event p = statement (update_event_row p)
