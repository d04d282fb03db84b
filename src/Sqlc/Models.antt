-- ===== src/Sqlc/Models.antt =====
-- internal/gen/sqlc/models.go: the enum types, each a Go string, and the rows of the five tables.
use based_backend.Prelude.{Bool, List}
use based_backend.Prelude.Int.{ℤ}
use based_backend.Types.{Bytes, Uuid, Nullable, Time, codes, bytes_eq}

-- `other_label` stands for a string that is none of the constants.
pub data EventCategoryType : Type 0 where
  unspecified sports music_and_movies art food_and_drinks party_and_games business nature technology
        travel education charity other :
      EventCategoryType
  other_label : Bytes → EventCategoryType

pub data EventStatusType : Type 0 where
  unspecified upcoming ongoing completed rescheduled cancelled : EventStatusType
  other_label : Bytes → EventStatusType

pub data GenderType : Type 0 where
  unspecified male female diverse : GenderType
  other_label : Bytes → GenderType

pub data MessageCategoryType : Type 0 where
  unspecified text location : MessageCategoryType
  other_label : Bytes → MessageCategoryType

pub data MessageStatusType : Type 0 where
  unspecified sent deleted edited : MessageStatusType
  other_label : Bytes → MessageStatusType

-- The strings of the constants.
unfoldable pub event_category_label : EventCategoryType → Bytes
event_category_label EventCategoryType.unspecified = codes "unspecified"
event_category_label EventCategoryType.sports = codes "sports"
event_category_label EventCategoryType.music_and_movies = codes "musicAndMovies"
event_category_label EventCategoryType.art = codes "art"
event_category_label EventCategoryType.food_and_drinks = codes "foodAndDrinks"
event_category_label EventCategoryType.party_and_games = codes "partyAndGames"
event_category_label EventCategoryType.business = codes "business"
event_category_label EventCategoryType.nature = codes "nature"
event_category_label EventCategoryType.technology = codes "technology"
event_category_label EventCategoryType.travel = codes "travel"
event_category_label EventCategoryType.education = codes "education"
event_category_label EventCategoryType.charity = codes "charity"
event_category_label EventCategoryType.other = codes "other"
event_category_label (EventCategoryType.other_label s) = s

unfoldable pub event_status_label : EventStatusType → Bytes
event_status_label EventStatusType.unspecified = codes "unspecified"
event_status_label EventStatusType.upcoming = codes "upcoming"
event_status_label EventStatusType.ongoing = codes "ongoing"
event_status_label EventStatusType.completed = codes "completed"
event_status_label EventStatusType.rescheduled = codes "rescheduled"
event_status_label EventStatusType.cancelled = codes "cancelled"
event_status_label (EventStatusType.other_label s) = s

unfoldable pub gender_label : GenderType → Bytes
gender_label GenderType.unspecified = codes "unspecified"
gender_label GenderType.male = codes "male"
gender_label GenderType.female = codes "female"
gender_label GenderType.diverse = codes "diverse"
gender_label (GenderType.other_label s) = s

unfoldable pub message_category_label : MessageCategoryType → Bytes
message_category_label MessageCategoryType.unspecified = codes "unspecified"
message_category_label MessageCategoryType.text = codes "text"
message_category_label MessageCategoryType.location = codes "location"
message_category_label (MessageCategoryType.other_label s) = s

unfoldable pub message_status_label : MessageStatusType → Bytes
message_status_label MessageStatusType.unspecified = codes "unspecified"
message_status_label MessageStatusType.sent = codes "sent"
message_status_label MessageStatusType.deleted = codes "deleted"
message_status_label MessageStatusType.edited = codes "edited"
message_status_label (MessageStatusType.other_label s) = s

unfoldable pub event_status_eq : EventStatusType → EventStatusType → Bool
event_status_eq a b = bytes_eq (event_status_label a) (event_status_label b)

pub record ChatMessage : Type 0 where
  pub message_id : Uuid
  pub event_id : Uuid
  pub user_id : Uuid
  pub content : Bytes
  pub message_type : MessageCategoryType
  pub status : MessageStatusType
  pub created_at : Nullable Time
  pub edited_at : Nullable Time

-- `location` holds a geometry of PostGIS, in its binary form.
pub record Event : Type 0 where
  pub event_id : Uuid
  pub creator_id : Uuid
  pub created_at : Nullable Time
  pub updated_at : Nullable Time
  pub name : Bytes
  pub venue : Nullable Bytes
  pub description : Nullable Bytes
  pub categories : List EventCategoryType
  pub status : EventStatusType
  pub thumbnail : Bytes
  pub location : Bytes
  pub datetime : Nullable Time
  pub max_attendees : ℤ
  pub age_range_min : Nullable ℤ
  pub age_range_max : Nullable ℤ
  pub allow_female : Bool
  pub allow_male : Bool
  pub allow_diverse : Bool

pub record EventAttendee : Type 0 where
  pub event_id : Uuid
  pub user_id : Uuid
  pub gender : GenderType
  pub joined_at : Nullable Time

-- A row of the materialized view, which no query reads.
record EventAttendeeStatistic : Type 0 where
  event_id : Uuid
  female_count : ℤ
  male_count : ℤ
  diverse_count : ℤ

pub record MessageLike : Type 0 where
  pub message_id : Uuid
  pub user_id : Uuid
  pub created_at : Nullable Time

pub record User : Type 0 where
  pub user_id : Uuid
  pub name : Bytes
  pub birthday : Nullable Time
  pub gender : GenderType
  pub created_at : Nullable Time
  pub updated_at : Nullable Time
