-- ===== src/Sqlc/Events/Rows.antt =====
-- internal/gen/sqlc/events.sql.go: the parameters of the queries on events, and their result rows.
use based_backend.Prelude.{ℕ, Bool, List}
use based_backend.Prelude.Int.{ℤ}
use based_backend.Types.{Bytes, Uuid, Nullable, Time, Float64}
use based_backend.Sqlc.Models.{EventCategoryType, EventStatusType}

pub record CreateEventParams : Type 0 where
  pub creator_id : Uuid
  pub name : Bytes
  pub st_makepoint : Float64
  pub st_makepoint_2 : Float64
  pub datetime : Nullable Time
  pub max_attendees : ℤ
  pub venue : Nullable Bytes
  pub description : Nullable Bytes
  pub age_range_min : Nullable ℤ
  pub age_range_max : Nullable ℤ
  pub allow_female : Bool
  pub allow_male : Bool
  pub allow_diverse : Bool
  pub thumbnail : Bytes
  pub status : EventStatusType
  pub categories : List EventCategoryType

pub record CreateEventRow : Type 0 where
  pub event_id : Uuid
  pub created_at : Nullable Time
  pub updated_at : Nullable Time
  pub creator_id : Uuid
  pub name : Bytes
  pub latitude : Float64
  pub longitude : Float64
  pub datetime : Nullable Time
  pub max_attendees : ℤ
  pub venue : Nullable Bytes
  pub description : Nullable Bytes
  pub status : EventStatusType
  pub age_range_min : Nullable ℤ
  pub age_range_max : Nullable ℤ
  pub allow_female : Bool
  pub allow_male : Bool
  pub allow_diverse : Bool
  pub thumbnail : Bytes
  pub status_2 : EventStatusType
  pub categories : List EventCategoryType

pub record DeleteEventParams : Type 0 where
  pub event_id : Uuid
  pub creator_id : Uuid

pub record GetEventAttendeeStatsRow : Type 0 where
  pub female_count : ℕ
  pub male_count : ℕ
  pub diverse_count : ℕ

pub record GetEventByIdRow : Type 0 where
  pub event_id : Uuid
  pub created_at : Nullable Time
  pub updated_at : Nullable Time
  pub creator_id : Uuid
  pub name : Bytes
  pub latitude : Float64
  pub longitude : Float64
  pub datetime : Nullable Time
  pub max_attendees : ℤ
  pub venue : Nullable Bytes
  pub description : Nullable Bytes
  pub status : EventStatusType
  pub age_range_min : Nullable ℤ
  pub age_range_max : Nullable ℤ
  pub allow_female : Bool
  pub allow_male : Bool
  pub allow_diverse : Bool
  pub thumbnail : Bytes
  pub categories : List EventCategoryType
  pub number_of_comments : ℕ
  pub number_of_attendees : ℕ

pub record GetNearbyEventsByStatusParams : Type 0 where
  pub status : EventStatusType
  pub st_makepoint : Float64
  pub st_makepoint_2 : Float64
  pub st_dwithin : Float64
  pub user_id : Uuid
  pub limit : ℤ

pub record GetNearbyEventsByStatusRow : Type 0 where
  pub event_id : Uuid
  pub created_at : Nullable Time
  pub creator_id : Uuid
  pub name : Bytes
  pub latitude : Float64
  pub longitude : Float64
  pub datetime : Nullable Time
  pub max_attendees : ℤ
  pub venue : Nullable Bytes
  pub status : EventStatusType
  pub age_range_min : Nullable ℤ
  pub age_range_max : Nullable ℤ
  pub allow_female : Bool
  pub allow_male : Bool
  pub allow_diverse : Bool
  pub categories : List EventCategoryType
  pub distance_meters : Float64
  pub number_of_attendees : ℕ

pub record GetUserEventsParams : Type 0 where
  pub user_id : Uuid
  pub limit : ℤ

pub record GetUserEventsRow : Type 0 where
  pub event_id : Uuid
  pub created_at : Nullable Time
  pub updated_at : Nullable Time
  pub creator_id : Uuid
  pub name : Bytes
  pub latitude : Float64
  pub longitude : Float64
  pub datetime : Nullable Time
  pub max_attendees : ℤ
  pub venue : Nullable Bytes
  pub description : Nullable Bytes
  pub status : EventStatusType
  pub age_range_min : Nullable ℤ
  pub age_range_max : Nullable ℤ
  pub allow_female : Bool
  pub allow_male : Bool
  pub allow_diverse : Bool
  pub categories : List EventCategoryType
  pub number_of_comments : ℕ
  pub number_of_attendees : ℕ

pub record JoinEventParams : Type 0 where
  pub event_id : Uuid
  pub user_id : Uuid

pub record LeaveEventParams : Type 0 where
  pub event_id : Uuid
  pub user_id : Uuid

pub record UpdateEventParams : Type 0 where
  pub event_id : Uuid
  pub status : EventStatusType
  pub name : Bytes
  pub st_makepoint : Float64
  pub st_makepoint_2 : Float64
  pub datetime : Nullable Time
  pub max_attendees : ℤ
  pub venue : Nullable Bytes
  pub description : Nullable Bytes
  pub age_range_min : Nullable ℤ
  pub age_range_max : Nullable ℤ
  pub allow_male : Bool
  pub allow_female : Bool
  pub allow_diverse : Bool
  pub categories : List EventCategoryType

pub record UpdateEventRow : Type 0 where
  pub event_id : Uuid
  pub created_at : Nullable Time
  pub updated_at : Nullable Time
  pub creator_id : Uuid
  pub name : Bytes
  pub latitude : Float64
  pub longitude : Float64
  pub datetime : Nullable Time
  pub max_attendees : ℤ
  pub venue : Nullable Bytes
  pub description : Nullable Bytes
  pub status : EventStatusType
  pub age_range_min : Nullable ℤ
  pub age_range_max : Nullable ℤ
  pub allow_female : Bool
  pub allow_male : Bool
  pub allow_diverse : Bool
  pub categories : List EventCategoryType
