-- ===== src/Sqlc/Events/Reads.antt =====
-- internal/gen/sqlc/events.sql.go: GetEventByID, GetNearbyEventsByStatus, GetUserEvents and
-- GetEventAttendeeStats.
use based_backend.Prelude.{
  ℕ, List, [], map, Bool, true, false, ◌&&◌, Option, none, some, select, exists_where, find_where,
  count_distinct, order_by, length, take,
}
use based_backend.Prelude.Int.{ℤ, pos, negsuc}
use based_backend.Types.{Bytes, Uuid, uuid_eq, not_after}
use based_backend.Sqlc.Models.{User, Event, EventAttendee, GenderType, event_status_eq}
use based_backend.Sqlc.Keys.{same_message, attendee_event, message_event}
use based_backend.Sqlc.Users.{is_user, found}
use based_backend.World.{M}
use based_backend.Sqlc.Statement.{statement}
use based_backend.Sqlc.Database.{
  Database, Postgres, Env, Query, commits, aborts, DbError, negative_limit,
}
use based_backend.Sqlc.Events.Rows.{
  GetEventAttendeeStatsRow, GetEventByIdRow, GetNearbyEventsByStatusParams,
  GetNearbyEventsByStatusRow, GetUserEventsParams, GetUserEventsRow,
}
use based_backend.Sqlc.Events.Writes.{is_event}

-- COUNT(DISTINCT ea.user_id) of the attendances joined to an event.
unfoldable pub attendee_count : Database → Event → ℕ
attendee_count db e =
    count_distinct (λ a b. uuid_eq a.user_id b.user_id)
      (select (λ a. attendee_event a e) db.event_attendees)

-- COUNT(DISTINCT cm.message_id) of the messages joined to an event.
unfoldable pub comment_count : Database → Event → ℕ
comment_count db e = count_distinct same_message (select (λ m. message_event m e) db.chat_messages)

unfoldable pub event_row : Postgres → Database → Event → GetEventByIdRow
event_row pg db e = record {
  event_id = e.event_id;
  created_at = e.created_at;
  updated_at = e.updated_at;
  creator_id = e.creator_id;
  name = e.name;
  latitude = pg.st_y e.location;
  longitude = pg.st_x e.location;
  datetime = e.datetime;
  max_attendees = e.max_attendees;
  venue = e.venue;
  description = e.description;
  status = e.status;
  age_range_min = e.age_range_min;
  age_range_max = e.age_range_max;
  allow_female = e.allow_female;
  allow_male = e.allow_male;
  allow_diverse = e.allow_diverse;
  thumbnail = e.thumbnail;
  categories = e.categories;
  number_of_comments = comment_count db e;
  number_of_attendees = attendee_count db e;
}

abbrev event_found : Postgres → Option Event → Database → Query GetEventByIdRow
event_found pg none db = found none db
event_found pg (some e) db = found (some (event_row pg db e)) db

unfoldable pub select_event : Uuid → Postgres → Env → Database → Query GetEventByIdRow
select_event id pg env db = event_found pg (find_where (is_event id) db.events) db

unfoldable pub get_event_by_id : Uuid → M DbError GetEventByIdRow
get_event_by_id id = statement (select_event id)

-- The CASE of getNearbyEventsByStatus: with no ELSE it is NULL for any other gender, and NULL
-- keeps the row out.
unfoldable pub admits : GenderType → Event → Bool
admits GenderType.female e = e.allow_female
admits GenderType.male e = e.allow_male
admits GenderType.diverse e = e.allow_diverse
admits _ e = false

abbrev search_point : GetNearbyEventsByStatusParams → Postgres → Bytes
search_point p pg = pg.make_point p.st_makepoint_2 p.st_makepoint

abbrev pub is_nearby : GetNearbyEventsByStatusParams → Postgres → User → Event → Bool
is_nearby p pg u e =
    event_status_eq e.status p.status
    && pg.within e.location (search_point p pg) p.st_dwithin
    && admits u.gender e

unfoldable pub nearby_row :
    GetNearbyEventsByStatusParams → Postgres → Database → Event → GetNearbyEventsByStatusRow
nearby_row p pg db e = record {
  event_id = e.event_id;
  created_at = e.created_at;
  creator_id = e.creator_id;
  name = e.name;
  latitude = pg.st_y e.location;
  longitude = pg.st_x e.location;
  datetime = e.datetime;
  max_attendees = e.max_attendees;
  venue = e.venue;
  status = e.status;
  age_range_min = e.age_range_min;
  age_range_max = e.age_range_max;
  allow_female = e.allow_female;
  allow_male = e.allow_male;
  allow_diverse = e.allow_diverse;
  categories = e.categories;
  distance_meters = pg.distance e.location (search_point p pg);
  number_of_attendees = attendee_count db e;
}

-- ORDER BY distance_meters
abbrev nearer : Postgres → GetNearbyEventsByStatusRow → GetNearbyEventsByStatusRow → Bool
nearer pg a b = pg.le_float a.distance_meters b.distance_meters

-- The rows before LIMIT. JOIN users u ON u.user_id = $5: no row if there is no such user.
unfoldable pub nearby_rows :
    GetNearbyEventsByStatusParams → Postgres → Database → List GetNearbyEventsByStatusRow
nearby_rows p pg db = elim (find_where (is_user p.user_id) db.users) [
  | none ↦ []
  | some u ↦ order_by (nearer pg) (map (nearby_row p pg db) (select (is_nearby p pg u) db.events))
]

-- LIMIT n; a negative one is an error.
unfoldable pub limited : {A : Type 0} → ℤ → List A → Database → Query (List A)
limited (pos n) rows db = commits (take n rows) db
limited (negsuc n) rows db = aborts negative_limit

unfoldable pub select_nearby :
    GetNearbyEventsByStatusParams
    → Postgres
    → Env
    → Database
    → Query (List GetNearbyEventsByStatusRow)
select_nearby p pg env db = limited p.limit (nearby_rows p pg db) db

unfoldable pub get_nearby_events_by_status :
    GetNearbyEventsByStatusParams → M DbError (List GetNearbyEventsByStatusRow)
get_nearby_events_by_status p = statement (select_nearby p)

unfoldable pub user_event_row : Postgres → Database → Event → GetUserEventsRow
user_event_row pg db e = record {
  event_id = e.event_id;
  created_at = e.created_at;
  updated_at = e.updated_at;
  creator_id = e.creator_id;
  name = e.name;
  latitude = pg.st_y e.location;
  longitude = pg.st_x e.location;
  datetime = e.datetime;
  max_attendees = e.max_attendees;
  venue = e.venue;
  description = e.description;
  status = e.status;
  age_range_min = e.age_range_min;
  age_range_max = e.age_range_max;
  allow_female = e.allow_female;
  allow_male = e.allow_male;
  allow_diverse = e.allow_diverse;
  categories = e.categories;
  number_of_comments = length (select (λ m. message_event m e) db.chat_messages);
  number_of_attendees = length (select (λ a. attendee_event a e) db.event_attendees);
}

-- ORDER BY e.datetime DESC
abbrev pub later : Event → Event → Bool
later a b = not_after b.datetime.value a.datetime.value

-- INNER JOIN with the user's attendances: at most one for an event, by the primary key.
unfoldable pub events_of_user : Uuid → Database → List Event
events_of_user user db = order_by later (
    select
      (λ e. exists_where (λ a. attendee_event a e && uuid_eq a.user_id user) db.event_attendees)
      db.events)

unfoldable pub select_user_events :
    GetUserEventsParams → Postgres → Env → Database → Query (List GetUserEventsRow)
select_user_events p pg env db =
    limited p.limit (map (user_event_row pg db) (events_of_user p.user_id db)) db

unfoldable pub get_user_events : GetUserEventsParams → M DbError (List GetUserEventsRow)
get_user_events p = statement (select_user_events p)

unfoldable pub is_female : EventAttendee → Bool
is_female a = elim a.gender [ GenderType.female ↦ true | _ ↦ false ]

unfoldable pub is_male : EventAttendee → Bool
is_male a = elim a.gender [ GenderType.male ↦ true | _ ↦ false ]

unfoldable pub is_diverse : EventAttendee → Bool
is_diverse a = elim a.gender [ GenderType.diverse ↦ true | _ ↦ false ]

unfoldable pub select_stats : Uuid → Postgres → Env → Database → Query GetEventAttendeeStatsRow
select_stats id pg env db =
    commits
      (record {
        female_count = length (select is_female attendees);
        male_count = length (select is_male attendees);
        diverse_count = length (select is_diverse attendees);
      })
      db
  where
    attendees : List EventAttendee
    attendees = select (λ a. uuid_eq a.event_id id) db.event_attendees

unfoldable pub get_event_attendee_stats : Uuid → M DbError GetEventAttendeeStatsRow
get_event_attendee_stats id = statement (select_stats id)
