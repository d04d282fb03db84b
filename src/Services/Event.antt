-- ===== src/Services/Event.antt =====
-- internal/services/event_service.go, over any repository.
pub mod Convert
pub mod Deletion
pub mod Attendance
pub mod Creation
pub mod Validation
pub mod Nearby
use based_backend.Prelude.{List, [], ◌∷◌, map, Bool, true, false, Option, none, some, if◌then◌else◌}
use based_backend.Prelude.Int.{ℤ, pos, leb_ℤ}
use based_backend.Types.{Bytes, some_value}
use based_backend.World.{M, pure, throw, or_fail, ◌>>=◌, ◌>>◌}
use based_backend.Proto.Messages.{
  Location, Event, EventWithDistance, CreateEventRequest, GetNearbyEventsRequest,
}
use based_backend.Sqlc.Models.{EventStatusType}
use based_backend.Sqlc.Events.Rows.{CreateEventParams, GetNearbyEventsByStatusParams}
use based_backend.Repositories.{EventRepository}
use based_backend.Services.Status.{Status, Code, Context, error, errorf, get_user_id_from_context}
use based_backend.Services.Convert.{
  convert_uuid, as_time, convert_pb_category_to_sql, convert_pb_status_to_sql,
}
use Convert.{
  convert_create_event_response_to_event, convert_get_user_events_response_to_event,
  convert_get_event_by_id_response_to_event, convert_get_nearby_events_response_to_proto,
}

abbrev pub is_empty : Bytes → Bool
is_empty [] = true
is_empty (b ∷ bs) = false

abbrev is_nil : {A : Type 0} → Option A → Bool
is_nil none = true
is_nil (some a) = false

-- The error of validateCreateEventRequest, or nil.
unfoldable pub validate_create_event_request : CreateEventRequest → Option Status
validate_create_event_request req =
    if is_empty req.name
    then some (error Code.invalid_argument "name is required")
    else if is_nil req.location
    then some (error Code.invalid_argument "location is required")
    else if is_nil req.datetime
    then some (error Code.invalid_argument "event_datetime is required")
    else if leb_ℤ req.max_attendees (pos 0)
    then some (error Code.invalid_argument "max_attendees must be positive")
    else none

abbrev pub fail_if : Option Status → M Status (Unit {0})
fail_if none = pure tt
fail_if (some e) = throw e

-- `req.Location` after the check that it is not nil; a nil pointer would panic, and the zero value
-- stands for that case, which validateCreateEventRequest and GetNearbyEvents exclude.
abbrev location_or_zero : Option Location → Location
location_or_zero none = record { latitude = record { bits = 0 }; longitude = record { bits = 0 } }
location_or_zero (some l) = l

abbrev pub create_event_params : Bytes → CreateEventRequest → CreateEventParams
create_event_params id req = record {
  creator_id = convert_uuid id;
  name = req.name;
  st_makepoint = (location_or_zero req.location).latitude;
  st_makepoint_2 = (location_or_zero req.location).longitude;
  datetime = some_value (as_time req.datetime);
  max_attendees = req.max_attendees;
  status = EventStatusType.upcoming;
  thumbnail = req.thumbnail;
  categories = map convert_pb_category_to_sql req.categories;
  venue = some_value req.venue;
  description = some_value req.description;
  age_range_min = some_value req.age_range_min;
  age_range_max = some_value req.age_range_max;
  allow_female = req.allow_female;
  allow_male = req.allow_male;
  allow_diverse = req.allow_diverse;
}

abbrev pub nearby_params : Bytes → Location → GetNearbyEventsRequest → GetNearbyEventsByStatusParams
nearby_params id location req = record {
  status = convert_pb_status_to_sql req.status;
  st_makepoint = location.latitude;
  st_makepoint_2 = location.longitude;
  user_id = convert_uuid id;
  st_dwithin = req.radius_meters;
  limit = req.limit;
}

abbrev pub required_location : Option Location → M Status Location
required_location none = throw (error Code.invalid_argument "location is required")
required_location (some l) = pure l

module _ (repo : EventRepository) where
  unfoldable pub get_event_by_id : Bytes → M Status Event
  get_event_by_id event_id = do
    fail_if (
        if is_empty event_id
        then some (error Code.invalid_argument "event_id is required")
        else none)
    event ←
        or_fail (repo.get_event_by_id (convert_uuid event_id))
          (errorf Code.internal "failed to get event")
    pure (convert_get_event_by_id_response_to_event event)

  unfoldable pub get_nearby_events :
      Context → GetNearbyEventsRequest → M Status (List EventWithDistance)
  get_nearby_events ctx req = do
    id ← get_user_id_from_context ctx
    location ← required_location req.location
    events ←
        or_fail (repo.get_nearby_events (nearby_params id location req))
          (errorf Code.internal "failed to get nearby events")
    pure (convert_get_nearby_events_response_to_proto events)

  unfoldable pub create_event : Context → CreateEventRequest → M Status Event
  create_event ctx req = do
    id ← get_user_id_from_context ctx
    fail_if (validate_create_event_request req)
    created ←
        or_fail (repo.create_event (create_event_params id req))
          (errorf Code.internal "failed to create event")
    or_fail (repo.join_event (record { event_id = created.event_id; user_id = convert_uuid id }))
        (errorf Code.internal "failed to join event")
    pure (convert_create_event_response_to_event created)

  unfoldable pub get_user_events : Context → ℤ → M Status (List Event)
  get_user_events ctx limit = do
    id ← get_user_id_from_context ctx
    events ←
        or_fail (repo.get_user_events (record { user_id = convert_uuid id; limit = limit }))
          (errorf Code.internal "failed to get user events")
    pure (convert_get_user_events_response_to_event events)

  unfoldable pub join_event : Context → Bytes → M Status (Unit {0})
  join_event ctx event_id = do
    id ← get_user_id_from_context ctx
    or_fail
        (repo.join_event (record { event_id = convert_uuid event_id; user_id = convert_uuid id }))
        (errorf Code.internal "failed to join event")

  unfoldable pub leave_event : Context → Bytes → M Status (Unit {0})
  leave_event ctx event_id = do
    id ← get_user_id_from_context ctx
    or_fail
        (repo.leave_event (record { event_id = convert_uuid event_id; user_id = convert_uuid id }))
        (errorf Code.internal "failed to leave event")

  unfoldable pub delete_event : Context → Bytes → M Status (Unit {0})
  delete_event ctx event_id = do
    id ← get_user_id_from_context ctx
    or_fail
        (repo.delete_event
          (record { event_id = convert_uuid event_id; creator_id = convert_uuid id }))
        (errorf Code.internal "failed to delete event")
