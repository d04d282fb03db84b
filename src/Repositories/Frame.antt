-- ===== src/Repositories/Frame.antt =====
-- The repositories of internal/repositories leave the keys of the token check alone.
use based_backend.Types.{Uuid}
use based_backend.World.Stable.{Stable}
use based_backend.Services.Auth.Keys.{KeyStore}
use based_backend.Sqlc.Statement.Keeps.{statement-Stable, checked-Stable}
use based_backend.Sqlc.Users
use based_backend.Sqlc.Users.{get_user_by_id}
use based_backend.Sqlc.Chat
use based_backend.Sqlc.Chat.{get_event_messages}
use based_backend.Sqlc.Events.Writes
use based_backend.Sqlc.Events.Reads
use based_backend.Repositories.Keeps.{
  UserRepositoryKeeps, ChatRepositoryKeeps, EventRepositoryKeeps,
}
use based_backend.Repositories.{new_user_repository, new_chat_repository, new_event_repository}

module _ (R : KeyStore → Type 0) (caller : Uuid) where
  pub new_user_repository-Stable : UserRepositoryKeeps (λ w. R w.auth) caller new_user_repository
  unfolding new_user_repository Users.create_user Users.update_user Users.get_user_by_id
      Users.delete_user
  new_user_repository-Stable = record {
    create_user = λ p _. checked-Stable _ (statement-Stable R _);
    update_user = λ p _. checked-Stable _ (statement-Stable R _);
    get_user_by_id = λ id. checked-Stable _ (statement-Stable R _);
    delete_user = statement-Stable R _;
  }

  pub new_chat_repository-Stable : ChatRepositoryKeeps (λ w. R w.auth) caller new_chat_repository
  unfolding new_chat_repository Chat.create_chat_message Chat.get_event_messages
      Chat.like_chat_message Chat.unlike_message Chat.delete_chat_message
  new_chat_repository-Stable = record {
    create_message = λ p _. checked-Stable _ (statement-Stable R _);
    get_event_messages = λ p. checked-Stable _ (statement-Stable R _);
    like_message = λ p _. statement-Stable R _;
    unlike_message = λ p _. statement-Stable R _;
    delete_messsage = λ p _. statement-Stable R _;
  }

  pub new_event_repository-Stable : EventRepositoryKeeps (λ w. R w.auth) caller new_event_repository
  unfolding new_event_repository Writes.create_event Reads.get_nearby_events_by_status
      Reads.get_user_events Writes.join_event Writes.leave_event Writes.delete_event
  new_event_repository-Stable = record {
    create_event = λ p _. checked-Stable _ (statement-Stable R _);
    get_nearby_events = λ p. checked-Stable _ (statement-Stable R _);
    get_user_events = λ p. checked-Stable _ (statement-Stable R _);
    join_event = λ p _. statement-Stable R _;
    leave_event = λ p _. statement-Stable R _;
    delete_event = λ p _. statement-Stable R _;
  }

pub get_event_by_id-Stable :
    (R : KeyStore → Type 0) (id : Uuid)
    → Stable (λ w. R w.auth) (new_event_repository.get_event_by_id id)
unfolding new_event_repository Reads.get_event_by_id
get_event_by_id-Stable R id = checked-Stable _ (statement-Stable R _)
