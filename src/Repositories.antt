-- ===== src/Repositories.antt =====
-- internal/repositories: the interfaces that the services use, and their implementations over the
-- queries of sqlc.
pub mod Keeps
pub mod Frame
pub mod Integrity
use based_backend.Prelude.{List}
use based_backend.Types.{Uuid}
use based_backend.World.{M, pure, ◌>>=◌}
use based_backend.Sqlc.Database.{DbError}
use based_backend.Sqlc.Models.{User, ChatMessage}
use based_backend.Sqlc.Users as Queries
use based_backend.Sqlc.Users.{CreateUserParams, UpdateUserParams}
use based_backend.Sqlc.Chat.{
  CreateChatMessageParams, DeleteChatMessageParams, GetEventMessagesParams, GetEventMessagesRow,
  LikeMessageParams, UnlikeMessageParams,
}
use based_backend.Sqlc.Chat
use based_backend.Sqlc.Events.Rows.{
  CreateEventParams, CreateEventRow, DeleteEventParams, GetEventAttendeeStatsRow, GetEventByIdRow,
  GetNearbyEventsByStatusParams, GetNearbyEventsByStatusRow, GetUserEventsParams, GetUserEventsRow,
  JoinEventParams, LeaveEventParams, UpdateEventParams, UpdateEventRow,
}
use based_backend.Sqlc.Events.Writes
use based_backend.Sqlc.Events.Reads

-- user_repository.go
pub record UserRepository : Type 0 where
  pub create_user : CreateUserParams → M DbError User
  pub update_user : UpdateUserParams → M DbError User
  pub get_user_by_id : Uuid → M DbError User
  pub delete_user : Uuid → M DbError (Unit {0})

-- `if err != nil { return nil, err }; return &row, nil`
abbrev checked : {A : Type 0} → M DbError A → M DbError A
checked query = query >>= pure

unfoldable pub new_user_repository : UserRepository
new_user_repository = record {
  create_user = λ req. checked (Queries.create_user req);
  update_user = λ req. checked (Queries.update_user req);
  get_user_by_id = λ user_id. checked (Queries.get_user_by_id user_id);
  delete_user = λ user_id. Queries.delete_user user_id;
}

-- chat_repository.go; the source spells `DeleteMesssage` with three s.
pub record ChatRepository : Type 0 where
  pub create_message : CreateChatMessageParams → M DbError ChatMessage
  pub get_event_messages : GetEventMessagesParams → M DbError (List GetEventMessagesRow)
  pub like_message : LikeMessageParams → M DbError (Unit {0})
  pub unlike_message : UnlikeMessageParams → M DbError (Unit {0})
  pub delete_messsage : DeleteChatMessageParams → M DbError (Unit {0})

unfoldable pub new_chat_repository : ChatRepository
new_chat_repository = record {
  create_message = λ params. checked (Chat.create_chat_message params);
  get_event_messages = λ params. checked (Chat.get_event_messages params);
  like_message = λ params. Chat.like_chat_message params;
  unlike_message = λ params. Chat.unlike_message params;
  delete_messsage = λ params. Chat.delete_chat_message params;
}

-- event_repository.go
pub record EventRepository : Type 0 where
  pub create_event : CreateEventParams → M DbError CreateEventRow
  pub get_event_by_id : Uuid → M DbError GetEventByIdRow
  pub get_nearby_events :
      GetNearbyEventsByStatusParams → M DbError (List GetNearbyEventsByStatusRow)
  pub get_user_events : GetUserEventsParams → M DbError (List GetUserEventsRow)
  pub get_event_attendee_stats : Uuid → M DbError GetEventAttendeeStatsRow
  pub update_event : UpdateEventParams → M DbError UpdateEventRow
  pub join_event : JoinEventParams → M DbError (Unit {0})
  pub leave_event : LeaveEventParams → M DbError (Unit {0})
  pub delete_event : DeleteEventParams → M DbError (Unit {0})

unfoldable pub new_event_repository : EventRepository
new_event_repository = record {
  create_event = λ req. checked (Writes.create_event req);
  get_event_by_id = λ event_id. checked (Reads.get_event_by_id event_id);
  get_nearby_events = λ params. checked (Reads.get_nearby_events_by_status params);
  get_user_events = λ params. checked (Reads.get_user_events params);
  get_event_attendee_stats = λ event_id. checked (Reads.get_event_attendee_stats event_id);
  update_event = λ params. checked (Writes.update_event params);
  join_event = λ params. Writes.join_event params;
  leave_event = λ params. Writes.leave_event params;
  delete_event = λ params. Writes.delete_event params;
}
