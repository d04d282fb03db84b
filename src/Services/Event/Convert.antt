-- ===== src/Services/Event/Convert.antt =====
-- The responses of internal/services/event_service.go, lines 208 to 343. A field that the source
-- leaves out has the zero value of its type.
use based_backend.Prelude.{List, [], map, none, some}
use based_backend.Prelude.Int.{pos}
use based_backend.Proto.Messages.{Event, EventWithDistance}
use based_backend.Sqlc.Events.Rows.{
  CreateEventRow, GetUserEventsRow, GetEventByIdRow, GetNearbyEventsByStatusRow,
}
use based_backend.Services.Convert.{convert_sql_category_to_pb, convert_sql_status_to_pb}

unfoldable pub convert_create_event_response_to_event : CreateEventRow → Event
convert_create_event_response_to_event event = record {
  event_id = event.event_id.value;
  creator_id = event.creator_id.value;
  name = event.name;
  location = some (record { latitude = event.latitude; longitude = event.longitude });
  datetime = some (event.datetime.value);
  max_attendees = event.max_attendees;
  venue = some (event.venue.value);
  description = some (event.description.value);
  thumbnail = event.thumbnail;
  status = convert_sql_status_to_pb event.status;
  age_range_min = event.age_range_min.value;
  age_range_max = event.age_range_max.value;
  allow_female = event.allow_female;
  allow_male = event.allow_male;
  allow_diverse = event.allow_diverse;
  categories = map convert_sql_category_to_pb event.categories;
  number_of_comments = 0;
  number_of_attendees = 1;
  timezone = pos 0;
}

-- The body of the loop of convertGetUserEventsResponseToEvent.
unfoldable pub user_event_to_event : GetUserEventsRow → Event
user_event_to_event event = record {
  event_id = event.event_id.value;
  creator_id = event.creator_id.value;
  name = event.name;
  location = some (record { latitude = event.latitude; longitude = event.longitude });
  datetime = some (event.datetime.value);
  max_attendees = event.max_attendees;
  venue = some (event.venue.value);
  description = none;
  thumbnail = [];
  status = convert_sql_status_to_pb event.status;
  age_range_min = event.age_range_min.value;
  age_range_max = event.age_range_max.value;
  allow_female = event.allow_female;
  allow_male = event.allow_male;
  allow_diverse = event.allow_diverse;
  number_of_attendees = event.number_of_attendees;
  number_of_comments = 0;
  categories = map convert_sql_category_to_pb event.categories;
  timezone = pos 0;
}

unfoldable pub convert_get_user_events_response_to_event : List GetUserEventsRow → List Event
convert_get_user_events_response_to_event = map user_event_to_event

unfoldable pub convert_get_event_by_id_response_to_event : GetEventByIdRow → Event
convert_get_event_by_id_response_to_event event = record {
  event_id = event.event_id.value;
  creator_id = event.creator_id.value;
  name = event.name;
  location = some (record { latitude = event.latitude; longitude = event.longitude });
  datetime = some (event.datetime.value);
  max_attendees = event.max_attendees;
  venue = some (event.venue.value);
  description = some (event.description.value);
  thumbnail = event.thumbnail;
  status = convert_sql_status_to_pb event.status;
  age_range_min = event.age_range_min.value;
  age_range_max = event.age_range_max.value;
  allow_female = event.allow_female;
  allow_male = event.allow_male;
  allow_diverse = event.allow_diverse;
  categories = map convert_sql_category_to_pb event.categories;
  number_of_comments = event.number_of_comments;
  number_of_attendees = event.number_of_attendees;
  timezone = pos 0;
}

-- The body of the loop of convertGetNearbyEventsResponseToProto.
unfoldable pub nearby_event_to_proto : GetNearbyEventsByStatusRow → EventWithDistance
nearby_event_to_proto event = record {
  event = record {
    event_id = event.event_id.value;
    creator_id = event.creator_id.value;
    name = event.name;
    location = some (record { latitude = event.latitude; longitude = event.longitude });
    datetime = some (event.datetime.value);
    max_attendees = event.max_attendees;
    venue = some (event.venue.value);
    description = none;
    thumbnail = [];
    status = convert_sql_status_to_pb event.status;
    age_range_min = event.age_range_min.value;
    age_range_max = event.age_range_max.value;
    allow_female = event.allow_female;
    allow_male = event.allow_male;
    allow_diverse = event.allow_diverse;
    number_of_attendees = event.number_of_attendees;
    number_of_comments = 0;
    categories = map convert_sql_category_to_pb event.categories;
    timezone = pos 0;
  };
  distance_meters = event.distance_meters;
}

unfoldable pub convert_get_nearby_events_response_to_proto :
    List GetNearbyEventsByStatusRow → List EventWithDistance
convert_get_nearby_events_response_to_proto = map nearby_event_to_proto
