-- ===== src/Sqlc/Database.antt =====
-- The database behind DBTX (internal/gen/sqlc/db.go), as far as the queries see it: the five tables
-- of sql/migrations/0001_initial_table.up.sql, and what one statement does. PostgreSQL, PostGIS and
-- the network are not code of the repository: their functions are the fields of `Postgres`, and
-- their choices (the clock, a random UUID, whether the statement gets through) those of `Env`.
use based_backend.Prelude.{Bool, List}
use based_backend.Types.{Bytes, Time, Float64}
use based_backend.Sqlc.Models.{ChatMessage, Event, EventAttendee, MessageLike, User}

pub record Database : Type 0 where
  pub users : List User
  pub events : List Event
  pub event_attendees : List EventAttendee
  pub chat_messages : List ChatMessage
  pub message_likes : List MessageLike

-- What `err` can be after a call of the driver.
pub data DbError : Type 0 where
  no_rows not_null_violation unique_violation foreign_key_violation check_violation
        invalid_enum_label negative_limit :
      DbError
  driver_error : Bytes → DbError

-- Whether a statement gets through: `refused` before it ran, or `lost` when it ran and its reply
-- did not arrive or could not be scanned.
pub data Delivery : Type 0 where
  delivered : Delivery
  refused lost : Bytes → Delivery

pub record Env : Type 0 where
  pub delivery : Delivery
  pub now : Time
  pub random_uuid : Bytes

-- The functions of PostgreSQL and PostGIS that the queries call.
pub record Postgres : Type 0 where
  -- what a column of type DATE and one of type TIMESTAMPTZ keep of a time
  pub to_date : Time → Time
  pub to_timestamptz : Time → Time
  -- ST_SetSRID(ST_MakePoint(x, y), 4326)::geometry
  pub make_point : Float64 → Float64 → Bytes
  pub st_x : Bytes → Float64
  pub st_y : Bytes → Float64
  -- ST_Distance and ST_DWithin of the two geometries under ST_Transform(_, 3857)
  pub distance : Bytes → Bytes → Float64
  pub within : Bytes → Bytes → Float64 → Bool
  -- the order of float8
  pub le_float : Float64 → Float64 → Bool

-- A statement takes effect as a whole, or is undone as a whole.
pub data Query (A : Type 0) : Type 0 where
  commits : A → Database → Query A
  aborts : DbError → Query A
