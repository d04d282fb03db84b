-- ===== src/Proto/Messages.antt =====
-- The messages of proto/chat.proto, event.proto and user.proto: a `*T` field is an `Option T`.
use based_backend.Prelude.{ℕ, Bool, List, Option}
use based_backend.Prelude.Int.{ℤ}
use based_backend.Types.{Bytes, Time, Float64}
use based_backend.Proto.Enums.{EventCategory, EventStatus, UserGender, MessageStatus, MessageType}

pub record Location : Type 0 where
  pub latitude : Float64
  pub longitude : Float64

pub record Event : Type 0 where
  pub event_id : Bytes
  pub creator_id : Bytes
  pub name : Bytes
  pub venue : Option Bytes
  pub description : Option Bytes
  pub thumbnail : Bytes
  pub location : Option Location
  pub datetime : Option Time
  pub status : EventStatus
  pub categories : List EventCategory
  pub max_attendees : ℤ
  pub number_of_attendees : ℕ
  pub number_of_comments : ℕ
  pub age_range_min : ℤ
  pub age_range_max : ℤ
  pub allow_female : Bool
  pub allow_male : Bool
  pub allow_diverse : Bool
  pub timezone : ℤ

pub record EventWithDistance : Type 0 where
  pub event : Event
  pub distance_meters : Float64

pub record CreateEventRequest : Type 0 where
  pub name : Bytes
  pub location : Option Location
  pub datetime : Option Time
  pub timezone : ℤ
  pub max_attendees : ℤ
  pub venue : Bytes
  pub description : Bytes
  pub categories : List EventCategory
  pub age_range_min : ℤ
  pub age_range_max : ℤ
  pub allow_female : Bool
  pub allow_male : Bool
  pub allow_diverse : Bool
  pub thumbnail : Bytes

pub record GetNearbyEventsRequest : Type 0 where
  pub location : Option Location
  pub radius_meters : Float64
  pub status : EventStatus
  pub limit : ℤ

pub record User : Type 0 where
  pub display_name : Bytes
  pub birthday : Option Time
  pub gender : UserGender
  pub user_id : Bytes

pub record CreateUserRequest : Type 0 where
  pub display_name : Bytes
  pub birthday : Option Time
  pub gender : UserGender

pub record UpdateUserRequest : Type 0 where
  pub display_name : Bytes
  pub birthday : Option Time
  pub gender : UserGender

pub record Message : Type 0 where
  pub message_id : Bytes
  pub event_id : Bytes
  pub sender_id : Bytes
  pub created_at : Option Time
  pub content : Bytes
  pub status : MessageStatus
  pub message_type : MessageType
  pub number_of_likes : ℤ
  pub is_liked_by_user : Bool

pub record CreateMessageRequest : Type 0 where
  pub event_id : Bytes
  pub content : Bytes
  pub message_type : MessageType
