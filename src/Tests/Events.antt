-- ===== src/Tests/Events.antt =====
-- Runs of the handlers of internal/services/event_service.go.
use based_backend.Services.Event.Deletion.{delete_event-of_others, delete_event-of_creator}
use based_backend.Services.Event.Attendance.{join_event-attends, leave_event-join_event}
use based_backend.Services.Event.Validation.{validate_create_event_request_iff}
use based_backend.Services.Event.Nearby.{
  Shows, IsAskedFor, IsAmong, get_nearby_events-Shows, get_nearby_events-unspecified,
}
use based_backend.Services.Event.{validate_create_event_request, create_event_params}
use based_backend.Sqlc.Events.Rows.{CreateEventParams}
use based_backend.Sqlc.Events.Reads.{event_row, user_event_row}
use based_backend.Sqlc.Events.Counts.{user_event_row-counts}
use based_backend.Sqlc.Statement.{advance}
use based_backend.Sqlc.Database.{driver_error}
use based_backend.Proto.Messages.{EventWithDistance, GetNearbyEventsRequest}
use based_backend.Prelude.Int.{pos, leb_ℤ}
use based_backend.Prelude.{
  replicate, exists_where, ◌≡◌, refl, true, some, [], length, ◌⊎◌, All, ◌≤◌, ◌≢◌, ◌↔◌, false, none,
  List, ◌∷◌,
}
use based_backend.Services.Event.Creation.{create_event-attends, create_event-refused_join}
use based_backend.Services.Status.{Status, Code, errorf}
use based_backend.Services.Convert.{convert_uuid}
use based_backend.Sqlc.Events.Writes.{is_event_by, attends, new_event, created_row, is_event}
use based_backend.Proto.Enums.{EventStatus}
use based_backend.Types.{codes, some_value, Bytes, uuid_eq}
use based_backend.Repositories.{new_event_repository}
use based_backend.World.{World, Outcome, returns, fails, after}
use based_backend.Tests.{
  everything, moment, ada_id, bob_id, party_id, start, context_of, picnic, calm, stormy, located,
  party, tables-IsValid, test_postgres, tables, ada, bob,
}
use based_backend.Sqlc.Models.{Event}
use based_backend.Proto.Messages as Messages
use based_backend.Services.Event as EventService

abbrev creating : Outcome Status Messages.Event
creating = EventService.create_event new_event_repository (context_of bob_id) picnic start

abbrev created : Messages.Event
created = record {
  event_id = replicate 16 100;
  creator_id = bob_id;
  name = codes "Picnic";
  venue = some (codes "Park");
  description = some [];
  thumbnail = [];
  location = some (record { latitude = record { bits = 0 }; longitude = record { bits = 0 } });
  datetime = some (moment 50);
  status = EventStatus.upcoming;
  categories = [];
  max_attendees = pos 5;
  number_of_attendees = 1;
  number_of_comments = 0;
  age_range_min = pos 18;
  age_range_max = pos 99;
  allow_female = true;
  allow_male = true;
  allow_diverse = true;
  timezone = pos 0;
}

create_event-attends_example :
    (exists_where
        (is_event_by
          (record { event_id = some_value created.event_id; creator_id = convert_uuid bob_id }))
        (after creating).db.events
      ≡ true)
    × (exists_where
          (attends (some_value created.event_id) (convert_uuid bob_id))
          (after creating).db.event_attendees
        ≡ true)
unfolding everything
create_event-attends_example =
    create_event-attends (context_of bob_id) bob_id refl picnic start created (after creating) refl

abbrev storm : World
storm = record start { env = stormy }

abbrev picnic_params : CreateEventParams
picnic_params = create_event_params bob_id picnic

abbrev picnic_event : Event
picnic_event = new_event picnic_params test_postgres (calm 0)

create_event-refused_join_example :
    (v : World) × (EventService.create_event new_event_repository (context_of bob_id) picnic storm
      ≡ fails (errorf Code.internal "failed to join event" (driver_error (codes "refused"))) v)
    × (exists_where
          (is_event_by
            (record { event_id = some_value (replicate 16 100); creator_id = convert_uuid bob_id }))
          v.db.events
        ≡ true)
    × (v.db.event_attendees ≡ storm.db.event_attendees)
unfolding everything
create_event-refused_join_example =
    create_event-refused_join (context_of bob_id) bob_id refl picnic storm
      (created_row test_postgres picnic_event)
      (record tables { events = picnic_event ∷ tables.events }) (codes "refused") refl refl refl
      refl

abbrev deleting_party : Bytes → Outcome Status (Unit {0})
deleting_party id = EventService.delete_event new_event_repository (context_of id) party_id start

delete_event-of_others_example : (after (deleting_party bob_id)).db ≡ start.db
unfolding everything
delete_event-of_others_example =
    delete_event-of_others (context_of bob_id) bob_id party_id refl start refl

delete_event-of_creator_example :
    (deleting_party ada_id ≡ returns tt (after (deleting_party ada_id)))
    × (exists_where (is_event (convert_uuid party_id)) (after (deleting_party ada_id)).db.events
        ≡ false)
    × (exists_where
          (λ a. uuid_eq a.event_id (convert_uuid party_id))
          (after (deleting_party ada_id)).db.event_attendees
        ≡ false)
    × (exists_where
          (λ m. uuid_eq m.event_id (convert_uuid party_id))
          (after (deleting_party ada_id)).db.chat_messages
        ≡ false)
unfolding everything
delete_event-of_creator_example =
    delete_event-of_creator (context_of ada_id) ada_id party_id refl start refl (refl, tt) refl

abbrev join : Bytes → World → Outcome Status (Unit {0})
join event = EventService.join_event new_event_repository (context_of bob_id) event

join_event-attends_example :
    (join party_id start ≡ returns tt (after (join party_id start)))
    × (exists_where
          (attends (convert_uuid party_id) (convert_uuid bob_id))
          (after (join party_id start)).db.event_attendees
        ≡ true)
unfolding everything
join_event-attends_example =
    join_event-attends (context_of bob_id) bob_id party_id refl start refl refl refl

leave_event-join_event_example :
    (after (
      EventService.leave_event new_event_repository
        (context_of bob_id)
        party_id
        (after (join party_id start)))).db.event_attendees
    ≡ start.db.event_attendees
unfolding everything
leave_event-join_event_example =
    leave_event-join_event (context_of bob_id) bob_id party_id refl start refl refl refl

validate_create_event_request_iff_example : (validate_create_event_request picnic ≡ none) ↔ (
    (picnic.name ≢ [])
    × (picnic.location ≢ none)
    × (picnic.datetime ≢ none)
    × (leb_ℤ picnic.max_attendees (pos 0) ≡ false))
validate_create_event_request_iff_example = validate_create_event_request_iff picnic

abbrev search : GetNearbyEventsRequest
search = record {
  location = some located;
  radius_meters = record { bits = 7 };
  status = EventStatus.upcoming;
  limit = pos 3;
}

get_nearby_events-Shows_example :
    (shown : List EventWithDistance) × (EventService.get_nearby_events new_event_repository
        (context_of ada_id)
        search
        start
      ≡ returns shown (advance start start.db))
    × (length shown ≤ 3)
    × All (Shows search located start.postgres ada start.db) shown
    × ((length shown ≡ 3)
        ⊎ All
            (λ e.
              ¬ IsAskedFor search located start.postgres ada e
              ⊎ IsAmong located start.postgres shown e)
            start.db.events)
unfolding everything
get_nearby_events-Shows_example =
    get_nearby_events-Shows (context_of ada_id) ada_id search located start ada 3 refl refl refl
      refl refl

get_nearby_events-unspecified_example :
    EventService.get_nearby_events new_event_repository (context_of bob_id) search start
    ≡ returns [] (advance start start.db)
unfolding everything
get_nearby_events-unspecified_example =
    get_nearby_events-unspecified (context_of bob_id) bob_id search located start bob 3 refl refl
      refl refl refl refl

user_event_row-counts_example :
    ((event_row test_postgres tables party).number_of_attendees
      ≡ (user_event_row test_postgres tables party).number_of_attendees)
    × ((event_row test_postgres tables party).number_of_comments
        ≡ (user_event_row test_postgres tables party).number_of_comments)
user_event_row-counts_example = user_event_row-counts test_postgres tables party tables-IsValid
