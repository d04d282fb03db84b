-- ===== src/Services/Convert.antt =====
-- The conversions of internal/services between the protobuf values and those of sqlc:
-- event_service.go from line 345 on, chat_service.go from line 333 on, and user_service.go from line
-- 124 on.
pub mod Labels
pub mod Laws
use based_backend.Prelude.{◌++◌, ◌-◌, length, take, replicate, Option, none, some}
use based_backend.Types.{Bytes, Uuid, Time, epoch, some_value}
use based_backend.Proto.Enums.{EventCategory, EventStatus, UserGender, MessageStatus, MessageType}
use based_backend.Sqlc.Models.{
  EventCategoryType, EventStatusType, GenderType, MessageStatusType, MessageCategoryType,
}

-- `var bytes [16]byte; copy(bytes[:], uuid)`: at most 16 bytes, with zeros behind them.
pub uuid_bytes : Bytes → Bytes
uuid_bytes uuid = take 16 uuid ++ replicate (16 - length uuid) 0

unfoldable pub convert_uuid : Bytes → Uuid
unfolding uuid_bytes
convert_uuid uuid = some_value (uuid_bytes uuid)

-- (*timestamppb.Timestamp).AsTime: the epoch for nil.
unfoldable pub as_time : Option Time → Time
as_time none = epoch
as_time (some t) = t

unfoldable pub convert_pb_category_to_sql : EventCategory → EventCategoryType
convert_pb_category_to_sql EventCategory.art = EventCategoryType.art
convert_pb_category_to_sql EventCategory.sports = EventCategoryType.sports
convert_pb_category_to_sql EventCategory.music_and_movies = EventCategoryType.music_and_movies
convert_pb_category_to_sql EventCategory.food_and_drinks = EventCategoryType.food_and_drinks
convert_pb_category_to_sql EventCategory.party_and_games = EventCategoryType.party_and_games
convert_pb_category_to_sql EventCategory.business = EventCategoryType.business
convert_pb_category_to_sql EventCategory.nature = EventCategoryType.nature
convert_pb_category_to_sql EventCategory.technology = EventCategoryType.technology
convert_pb_category_to_sql EventCategory.travel = EventCategoryType.travel
convert_pb_category_to_sql EventCategory.education = EventCategoryType.education
convert_pb_category_to_sql EventCategory.charity = EventCategoryType.charity
convert_pb_category_to_sql EventCategory.other = EventCategoryType.other
convert_pb_category_to_sql _ = EventCategoryType.unspecified

unfoldable pub convert_sql_category_to_pb : EventCategoryType → EventCategory
convert_sql_category_to_pb EventCategoryType.art = EventCategory.art
convert_sql_category_to_pb EventCategoryType.sports = EventCategory.sports
convert_sql_category_to_pb EventCategoryType.music_and_movies = EventCategory.music_and_movies
convert_sql_category_to_pb EventCategoryType.food_and_drinks = EventCategory.food_and_drinks
convert_sql_category_to_pb EventCategoryType.party_and_games = EventCategory.party_and_games
convert_sql_category_to_pb EventCategoryType.business = EventCategory.business
convert_sql_category_to_pb EventCategoryType.nature = EventCategory.nature
convert_sql_category_to_pb EventCategoryType.technology = EventCategory.technology
convert_sql_category_to_pb EventCategoryType.travel = EventCategory.travel
convert_sql_category_to_pb EventCategoryType.education = EventCategory.education
convert_sql_category_to_pb EventCategoryType.charity = EventCategory.charity
convert_sql_category_to_pb EventCategoryType.other = EventCategory.other
convert_sql_category_to_pb _ = EventCategory.unspecified

unfoldable pub convert_pb_status_to_sql : EventStatus → EventStatusType
convert_pb_status_to_sql EventStatus.upcoming = EventStatusType.upcoming
convert_pb_status_to_sql EventStatus.ongoing = EventStatusType.ongoing
convert_pb_status_to_sql EventStatus.cancelled = EventStatusType.cancelled
convert_pb_status_to_sql EventStatus.completed = EventStatusType.completed
convert_pb_status_to_sql EventStatus.rescheduled = EventStatusType.rescheduled
convert_pb_status_to_sql _ = EventStatusType.unspecified

unfoldable pub convert_sql_status_to_pb : EventStatusType → EventStatus
convert_sql_status_to_pb EventStatusType.upcoming = EventStatus.upcoming
convert_sql_status_to_pb EventStatusType.ongoing = EventStatus.ongoing
convert_sql_status_to_pb EventStatusType.cancelled = EventStatus.cancelled
convert_sql_status_to_pb EventStatusType.completed = EventStatus.completed
convert_sql_status_to_pb EventStatusType.rescheduled = EventStatus.rescheduled
convert_sql_status_to_pb _ = EventStatus.unspecified

pub convert_pb_message_type_to_sql : MessageType → MessageCategoryType
convert_pb_message_type_to_sql MessageType.text = MessageCategoryType.text
convert_pb_message_type_to_sql MessageType.location = MessageCategoryType.location
convert_pb_message_type_to_sql _ = MessageCategoryType.unspecified

pub convert_sql_message_type_to_pb : MessageCategoryType → MessageType
convert_sql_message_type_to_pb MessageCategoryType.text = MessageType.text
convert_sql_message_type_to_pb MessageCategoryType.location = MessageType.location
convert_sql_message_type_to_pb _ = MessageType.unspecified

pub convert_pb_message_status_to_sql : MessageStatus → MessageStatusType
convert_pb_message_status_to_sql MessageStatus.sent = MessageStatusType.sent
convert_pb_message_status_to_sql MessageStatus.deleted = MessageStatusType.deleted
convert_pb_message_status_to_sql MessageStatus.edited = MessageStatusType.edited
convert_pb_message_status_to_sql _ = MessageStatusType.unspecified

pub convert_sql_message_status_to_pb : MessageStatusType → MessageStatus
convert_sql_message_status_to_pb MessageStatusType.sent = MessageStatus.sent
convert_sql_message_status_to_pb MessageStatusType.deleted = MessageStatus.deleted
convert_sql_message_status_to_pb MessageStatusType.edited = MessageStatus.edited
convert_sql_message_status_to_pb _ = MessageStatus.unspecified

unfoldable pub convert_pb_gender_to_sql : UserGender → GenderType
convert_pb_gender_to_sql UserGender.male = GenderType.male
convert_pb_gender_to_sql UserGender.female = GenderType.female
convert_pb_gender_to_sql UserGender.diverse = GenderType.diverse
convert_pb_gender_to_sql _ = GenderType.unspecified

unfoldable pub convert_sql_gender_to_pb : GenderType → UserGender
convert_sql_gender_to_pb GenderType.male = UserGender.male
convert_sql_gender_to_pb GenderType.female = UserGender.female
convert_sql_gender_to_pb GenderType.diverse = UserGender.diverse
convert_sql_gender_to_pb _ = UserGender.unspecified
