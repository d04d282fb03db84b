-- ===== src/Services/Convert/Labels.antt =====
-- The enum conversions of internal/services against the labels of the migration.
use based_backend.Prelude.{◌≡◌, refl, true}
use based_backend.Types.{bytes_eq}
use based_backend.Proto.Enums.{EventCategory, EventStatus, UserGender, MessageType}
use based_backend.Sqlc.Labels.{
  has_label, gender_labels, event_status_labels, event_category_labels, message_category_labels,
}
use based_backend.Sqlc.Models.{
  gender_label, event_status_label, event_category_label, message_category_label,
}
use based_backend.Sqlc.Events.Writes.{is_category, is_event_status}
use based_backend.Sqlc.Chat.{is_message_category}
use based_backend.Sqlc.Users.{is_gender}
use based_backend.Services.Convert.{
  convert_pb_category_to_sql, convert_pb_status_to_sql, convert_pb_message_type_to_sql,
  convert_pb_gender_to_sql,
}

pub is_category-convert_pb_category_to_sql :
    (c : EventCategory) → is_category (convert_pb_category_to_sql c) ≡ true
unfolding is_category convert_pb_category_to_sql event_category_label event_category_labels
    has_label bytes_eq
is_category-convert_pb_category_to_sql EventCategory.unspecified = refl
is_category-convert_pb_category_to_sql EventCategory.sports = refl
is_category-convert_pb_category_to_sql EventCategory.music_and_movies = refl
is_category-convert_pb_category_to_sql EventCategory.art = refl
is_category-convert_pb_category_to_sql EventCategory.food_and_drinks = refl
is_category-convert_pb_category_to_sql EventCategory.party_and_games = refl
is_category-convert_pb_category_to_sql EventCategory.business = refl
is_category-convert_pb_category_to_sql EventCategory.nature = refl
is_category-convert_pb_category_to_sql EventCategory.technology = refl
is_category-convert_pb_category_to_sql EventCategory.travel = refl
is_category-convert_pb_category_to_sql EventCategory.education = refl
is_category-convert_pb_category_to_sql EventCategory.charity = refl
is_category-convert_pb_category_to_sql EventCategory.other = refl
is_category-convert_pb_category_to_sql (EventCategory.other_number n) = refl

pub is_event_status-convert_pb_status_to_sql :
    (s : EventStatus) → is_event_status (convert_pb_status_to_sql s) ≡ true
unfolding is_event_status convert_pb_status_to_sql event_status_label event_status_labels has_label
    bytes_eq
is_event_status-convert_pb_status_to_sql EventStatus.unspecified = refl
is_event_status-convert_pb_status_to_sql EventStatus.upcoming = refl
is_event_status-convert_pb_status_to_sql EventStatus.ongoing = refl
is_event_status-convert_pb_status_to_sql EventStatus.completed = refl
is_event_status-convert_pb_status_to_sql EventStatus.cancelled = refl
is_event_status-convert_pb_status_to_sql EventStatus.rescheduled = refl
is_event_status-convert_pb_status_to_sql (EventStatus.other_number n) = refl

pub is_gender-convert_pb_gender_to_sql :
    (g : UserGender) → is_gender (convert_pb_gender_to_sql g) ≡ true
unfolding is_gender convert_pb_gender_to_sql gender_label gender_labels has_label bytes_eq
is_gender-convert_pb_gender_to_sql UserGender.unspecified = refl
is_gender-convert_pb_gender_to_sql UserGender.male = refl
is_gender-convert_pb_gender_to_sql UserGender.female = refl
is_gender-convert_pb_gender_to_sql UserGender.diverse = refl
is_gender-convert_pb_gender_to_sql (UserGender.other_number n) = refl

pub is_message_category-convert_pb_message_type_to_sql :
    (t : MessageType) → is_message_category (convert_pb_message_type_to_sql t) ≡ true
unfolding is_message_category convert_pb_message_type_to_sql message_category_label
    message_category_labels has_label bytes_eq
is_message_category-convert_pb_message_type_to_sql MessageType.unspecified = refl
is_message_category-convert_pb_message_type_to_sql MessageType.text = refl
is_message_category-convert_pb_message_type_to_sql MessageType.location = refl
is_message_category-convert_pb_message_type_to_sql (MessageType.other_number n) = refl
