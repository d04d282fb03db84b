-- ===== src/Repositories/Integrity.antt =====
-- The repositories of internal/repositories keep the constraints of the tables.
use based_backend.Sqlc.Events.Rows.{UpdateEventParams}
use based_backend.Types.{Uuid}
use based_backend.Repositories.Keeps.{
  UserRepositoryKeeps, ChatRepositoryKeeps, EventRepositoryKeeps,
}
use based_backend.Sqlc.Chat.{get_event_messages}
use based_backend.Sqlc.Integrity.{IsValid}
use based_backend.Sqlc.Statement.Keeps.{OnTables, Keeps-statement, checked-Stable, Keeps}
use based_backend.Sqlc.Integrity.Users.{
  insert_user-IsValid, select_user-IsValid, update_user_row-IsValid, delete_user_row-IsValid,
}
use based_backend.Sqlc.Integrity.Chat as ChatQueries
use based_backend.Sqlc.Integrity.Events as EventQueries
use based_backend.Sqlc.Users
use based_backend.Sqlc.Users.{get_user_by_id}
use based_backend.Sqlc.Chat
use based_backend.Sqlc.Events.Writes
use based_backend.Sqlc.Events.Reads
use based_backend.Repositories.{new_user_repository, new_chat_repository, new_event_repository}

pub new_user_repository-IsValid :
    (caller : Uuid) → UserRepositoryKeeps (OnTables IsValid) caller new_user_repository
unfolding new_user_repository Users.create_user Users.update_user Users.get_user_by_id
    Users.delete_user
new_user_repository-IsValid caller = record {
  create_user = λ p _. checked-Stable _ (Keeps-statement _ (insert_user-IsValid p));
  update_user = λ p _. checked-Stable _ (Keeps-statement _ (update_user_row-IsValid p));
  get_user_by_id = λ id. checked-Stable _ (Keeps-statement _ (select_user-IsValid id));
  delete_user = Keeps-statement _ (delete_user_row-IsValid caller);
}

pub new_chat_repository-IsValid :
    (caller : Uuid) → ChatRepositoryKeeps (OnTables IsValid) caller new_chat_repository
unfolding new_chat_repository Chat.create_chat_message Chat.get_event_messages
    Chat.like_chat_message Chat.unlike_message Chat.delete_chat_message
new_chat_repository-IsValid caller = record {
  create_message = λ p _.
      checked-Stable _
        (Keeps-statement _ (λ pg env db v. ChatQueries.insert_message-IsValid pg env db v p));
  get_event_messages = λ p.
      checked-Stable _
        (Keeps-statement _ (λ pg env db v. ChatQueries.select_messages-IsValid pg env db v p));
  like_message =
      λ p _. Keeps-statement _ (λ pg env db v. ChatQueries.insert_like-IsValid pg env db v p);
  unlike_message =
      λ p _. Keeps-statement _ (λ pg env db v. ChatQueries.delete_like-IsValid pg env db v p);
  delete_messsage = λ p _.
      Keeps-statement _ (λ pg env db v. ChatQueries.delete_message_row-IsValid pg env db v p);
}

pub new_event_repository-IsValid :
    (caller : Uuid) → EventRepositoryKeeps (OnTables IsValid) caller new_event_repository
unfolding new_event_repository Writes.create_event Reads.get_nearby_events_by_status
    Reads.get_user_events Writes.join_event Writes.leave_event Writes.delete_event
new_event_repository-IsValid caller = record {
  create_event = λ p _.
      checked-Stable _
        (Keeps-statement _ (λ pg env db v. EventQueries.insert_event-IsValid pg env db v p));
  get_nearby_events = λ p.
      checked-Stable _
        (Keeps-statement _ (λ pg env db v. EventQueries.select_nearby-IsValid pg env db v p));
  get_user_events = λ p.
      checked-Stable _
        (Keeps-statement _ (λ pg env db v. EventQueries.select_user_events-IsValid pg env db v p));
  join_event =
      λ p _. Keeps-statement _ (λ pg env db v. EventQueries.join_event_row-IsValid pg env db v p);
  leave_event =
      λ p _. Keeps-statement _ (λ pg env db v. EventQueries.leave_event_row-IsValid pg env db v p);
  delete_event =
      λ p _. Keeps-statement _ (λ pg env db v. EventQueries.delete_event_row-IsValid pg env db v p);
}

-- The two operations that no handler calls.
pub update_event-IsValid :
    (p : UpdateEventParams) → Keeps IsValid (new_event_repository.update_event p)
unfolding new_event_repository Writes.update_event
update_event-IsValid p =
    checked-Stable _
      (Keeps-statement _ (λ pg env db v. EventQueries.update_event_row-IsValid pg env db v p))

pub get_event_attendee_stats-IsValid :
    (id : Uuid) → Keeps IsValid (new_event_repository.get_event_attendee_stats id)
unfolding new_event_repository Reads.get_event_attendee_stats
get_event_attendee_stats-IsValid id =
    checked-Stable _
      (Keeps-statement _ (λ pg env db v. EventQueries.select_stats-IsValid pg env db v id))

pub get_event_by_id-IsValid : (id : Uuid) → Keeps IsValid (new_event_repository.get_event_by_id id)
unfolding new_event_repository Reads.get_event_by_id
get_event_by_id-IsValid id =
    checked-Stable _
      (Keeps-statement _ (λ pg env db v. EventQueries.select_event-IsValid pg env db v id))
