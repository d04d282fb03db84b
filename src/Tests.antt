-- ===== src/Tests.antt =====
-- A small database and a token check to run the server on.
mod Access
mod Events
mod Users
mod Chat
mod Auth
mod Startup
mod Streams
use based_backend.Sqlc.Users.{get_user_by_id}
use based_backend.Prelude.Int.{pos}
use based_backend.Services.Event.Convert.{convert_create_event_response_to_event}
use based_backend.Services.Status.{Context, get_user_id_from_context}
use based_backend.Services.Convert.{
  convert_uuid, as_time, convert_pb_category_to_sql, convert_sql_category_to_pb,
  convert_pb_status_to_sql, convert_sql_status_to_pb, convert_pb_gender_to_sql,
  convert_sql_gender_to_pb,
}
use based_backend.Services.Event.{validate_create_event_request}
use based_backend.Sqlc.Events.Writes.{
  is_category, are_categories, is_event_status, passes_checks, new_event, created_row, insert_event,
  new_attendee, joining_user, join_event_row,
}
use based_backend.Sqlc.Labels.{
  has_label, gender_labels, event_status_labels, event_category_labels, message_category_labels,
}
use based_backend.Sqlc.Models.{
  gender_label, event_status_label, event_category_label, message_category_label,
}
use based_backend.Sqlc.Integrity.{IsValid}
use based_backend.Sqlc.Statement.{deliver, statement}
use based_backend.Sqlc.Keys.{time_eq}
use based_backend.Sqlc.Database.{Database, Env, Postgres, delivered, refused}
use based_backend.Sqlc.Chat.{
  is_message_category, new_message, insert_message, new_like, insert_like,
}
use based_backend.Sqlc.Users.{
  is_gender, new_user, insert_user, select_user, set_user, update_user_row, without_user,
  delete_user_row,
}
use based_backend.Proto.Messages.{Location, CreateEventRequest}
use based_backend.Interceptor.{strip_prefix, get_values, extract_token}
use based_backend.World.{World}
use based_backend.Repositories.{new_user_repository, new_chat_repository, new_event_repository}
use based_backend.Types.{Bytes, codes, bytes_eq, some_value, uuid_eq, Time, epoch}
use based_backend.Prelude.{
  ℕ, List, leb, replicate, zero, suc, ◌+◌, refl, true, false, none, some, [], ◌∷◌,
}
use based_backend.Proto.Messages as Messages
use based_backend.Sqlc.Models.{
  Event, User, EventAttendee, ChatMessage, EventStatusType, GenderType, MessageCategoryType,
  MessageStatusType,
}
use based_backend.Services.Chat.Hub.{Hub, Subscriber}
use based_backend.Services.Auth.Keys.{KeycloakKey, KeyStore, response}
use based_backend.Services.User as UserService
use based_backend.Services.Event as EventService
use based_backend.Services.Chat as ChatService
use based_backend.Sqlc.Users as UserQueries
use based_backend.Sqlc.Chat as ChatQueries
use based_backend.Sqlc.Events.Writes
use based_backend.Sqlc.Events.Reads

-- What a run of the program unfolds.
everything : Unit {0}
unfolding bytes_eq uuid_eq convert_uuid as_time deliver statement time_eq is_gender new_user
    insert_user UserQueries.create_user select_user get_user_by_id set_user update_user_row
    UserQueries.update_user without_user delete_user_row UserQueries.delete_user new_user_repository
    new_event_repository new_chat_repository get_user_id_from_context UserService.create_user
    UserService.update_user UserService.get_user UserService.delete_user convert_pb_gender_to_sql
    convert_sql_gender_to_pb is_message_category new_message insert_message
    ChatQueries.create_chat_message new_like insert_like ChatQueries.like_chat_message
    ChatService.like_message convert_pb_category_to_sql convert_pb_status_to_sql
    validate_create_event_request EventService.create_event is_category are_categories
    is_event_status passes_checks new_event created_row insert_event Writes.create_event
    new_attendee joining_user join_event_row Writes.join_event EventService.join_event
    convert_create_event_response_to_event convert_sql_category_to_pb convert_sql_status_to_pb epoch
    extract_token strip_prefix get_values has_label gender_labels event_status_labels
    event_category_labels message_category_labels gender_label event_status_label
    event_category_label message_category_label
everything = tt

abbrev ada_id : Bytes
ada_id = replicate 16 1

abbrev bob_id : Bytes
bob_id = replicate 16 2

abbrev cleo_id : Bytes
cleo_id = replicate 16 3

abbrev party_id : Bytes
party_id = replicate 16 10

abbrev hello_id : Bytes
hello_id = replicate 16 20

abbrev moment : ℕ → Time
moment n = record { nanoseconds = pos n }

abbrev test_postgres : Postgres
test_postgres = record {
  to_date = λ t. t;
  to_timestamptz = λ t. t;
  make_point = λ x y. x.bits ∷ y.bits ∷ [];
  st_x = λ p. record { bits = 0 };
  st_y = λ p. record { bits = 0 };
  distance = λ p q. record { bits = 0 };
  within = λ p q r. true;
  le_float = λ a b. leb a.bits b.bits;
}

abbrev ada : User
ada = record {
  user_id = some_value ada_id;
  name = codes "Ada";
  birthday = some_value (moment 1);
  gender = GenderType.female;
  created_at = some_value (moment 1);
  updated_at = some_value (moment 1);
}

abbrev bob : User
bob = record ada {
  user_id = some_value bob_id;
  name = codes "Bob";
  gender = GenderType.unspecified;
}

abbrev party : Event
party = record {
  event_id = some_value party_id;
  creator_id = some_value ada_id;
  created_at = some_value (moment 2);
  updated_at = some_value (moment 2);
  name = codes "Party";
  venue = some_value [];
  description = some_value [];
  categories = [];
  status = EventStatusType.upcoming;
  thumbnail = [];
  location = [];
  datetime = some_value (moment 9);
  max_attendees = pos 1;
  age_range_min = some_value (pos 18);
  age_range_max = some_value (pos 99);
  allow_female = true;
  allow_male = true;
  allow_diverse = true;
}

abbrev attendance : EventAttendee
attendance = record {
  event_id = some_value party_id;
  user_id = some_value ada_id;
  gender = GenderType.female;
  joined_at = some_value (moment 2);
}

abbrev hello : ChatMessage
hello = record {
  message_id = some_value hello_id;
  event_id = some_value party_id;
  user_id = some_value bob_id;
  content = codes "hello";
  message_type = MessageCategoryType.text;
  status = MessageStatusType.sent;
  created_at = some_value (moment 3);
  edited_at = some_value (moment 3);
}

abbrev tables : Database
tables = record {
  users = ada ∷ bob ∷ [];
  events = party ∷ [];
  event_attendees = attendance ∷ [];
  chat_messages = hello ∷ [];
  message_likes = [];
}

-- Every statement gets through.
abbrev calm : ℕ → Env
calm n = record {
  delivery = delivered;
  now = moment (100 + n);
  random_uuid = replicate 16 (100 + n);
}

-- The second statement is refused.
abbrev stormy : ℕ → Env
stormy zero = calm 0
stormy (suc n) = record (calm (suc n)) { delivery = refused (codes "refused") }

abbrev nobody : Subscriber
nobody = record {
  event_id = [];
  user_id = [];
  messages = [];
  messages_closed = false;
  done_closed = false;
  created_at = moment 0;
}

abbrev no_subscribers : Hub
no_subscribers = record { subscribers = λ k. none; heap = λ p. nobody; next = 0; pending = [] }

-- One signing key, of the number 259 and the exponent 65537, and a key of another use.
abbrev published_keys : List KeycloakKey
published_keys =
    record {
      kid = codes "enc";
      kty = codes "RSA";
      alg = codes "RSA-OAEP";
      use_of = codes "enc";
      n = codes "AQM";
      e = codes "AQAB";
    }
    ∷ record {
      kid = codes "sig";
      kty = codes "RSA";
      alg = codes "RS256";
      use_of = codes "sig";
      n = codes "AQM";
      e = codes "AQAB";
    }
    ∷ []

abbrev no_keys : KeyStore
no_keys = record {
  public_keys = [];
  replies = λ url n. response 200 (some published_keys);
  requests = 0;
}

abbrev start : World
start = record {
  db = tables;
  postgres = test_postgres;
  env = calm;
  tick = 0;
  hub = no_subscribers;
  auth = no_keys;
}

abbrev context_of : Bytes → Context
context_of id = record { user_id = some id; metadata = none }

abbrev located : Location
located = record { latitude = record { bits = 1 }; longitude = record { bits = 2 } }

abbrev picnic : CreateEventRequest
picnic = record {
  name = codes "Picnic";
  location = some located;
  datetime = some (moment 50);
  timezone = pos 0;
  max_attendees = pos 5;
  venue = codes "Park";
  description = [];
  categories = [];
  age_range_min = pos 18;
  age_range_max = pos 99;
  allow_female = true;
  allow_male = true;
  allow_diverse = true;
  thumbnail = [];
}

tables-IsValid : IsValid tables
unfolding everything
tables-IsValid = record {
  user_keys = (refl, (refl, tt));
  event_keys = (refl, tt);
  attendee_keys = (refl, tt);
  message_keys = (refl, tt);
  moments = (refl, tt);
  like_keys = tt;
  creators = (refl, tt);
  attended = (refl, tt);
  attendees = (refl, tt);
  message_events = (refl, tt);
  authors = (refl, tt);
  liked = tt;
  likers = tt;
  checks = (refl, tt);
}
