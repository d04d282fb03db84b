-- ===== src/Server/Ownership.antt =====
-- What a call on behalf of one user leaves alone.
use based_backend.Repositories.Keeps.{
  UserRepositoryKeeps, EventRepositoryKeeps, ChatRepositoryKeeps,
}
use based_backend.Services.Status.{Context}
use based_backend.Services.Keeps.{ForCaller}
use based_backend.Services.Convert.{convert_uuid}
use based_backend.Sqlc.Events.Reads.{select_event, limited, select_nearby, select_user_events}
use based_backend.Server.Keeps.{dispatch-Keeps, RepositoriesKeep}
use based_backend.Server.{Request, dispatch}
use based_backend.World.{World, after}
use based_backend.Sqlc.Chat.{
  get_event_messages, insert_message, delete_message_row, select_messages, insert_like, delete_like,
}
use based_backend.Repositories.{new_user_repository, new_chat_repository, new_event_repository}
use based_backend.Sqlc.Users.{
  get_user_by_id, UpdateUserParams, is_user, insert_user, select_user, set_user, update_user_row,
  without_user, delete_user_row,
}
use based_backend.Prelude.{In, ◌≡◌, false, arith, not, some}
use based_backend.Prelude.RowLaws.{In-select, In-update}
use based_backend.Sqlc.Statement.Keeps.{OnTables, Committed, Keeps, Keeps-statement, checked-Stable}
use based_backend.Sqlc.Events.Rows.{CreateEventParams, DeleteEventParams}
use based_backend.Sqlc.Events.Writes.{
  insert_event, delete_event_row, join_event_row, leave_event_row,
}
use based_backend.Sqlc.Database.{Database, Env, Postgres}
use based_backend.Types.{Uuid, uuid_eq, Bytes}
use based_backend.Sqlc.Models.{User, Event}
use based_backend.Sqlc.Users
use based_backend.Sqlc.Chat
use based_backend.Sqlc.Events.Writes
use based_backend.Sqlc.Events.Reads
use mathlib.Core.Path.{subst}

-- The event `row`, which the caller has not created.
module _ (row : Event) (caller : Uuid) (other : uuid_eq row.creator_id caller ≡ false) where
  abbrev HasEvent : Database → Type 0
  HasEvent db = In row db.events

  delete_event_row-others :
      (p : DeleteEventParams) (pg : Postgres) (env : Env) (db : Database)
      → p.creator_id ≡ caller
      → HasEvent db
      → Committed HasEvent (delete_event_row p pg env db)
  unfolding delete_event_row
  delete_event_row-others p pg env db e i = In-select _ row db.events (rw e (ground arith)) i

  insert_event-others :
      (p : CreateEventParams) (pg : Postgres) (env : Env) (db : Database)
      → HasEvent db
      → Committed HasEvent (insert_event p pg env db)
  unfolding insert_event
  insert_event-others p pg env db i = ground arith

  others_events-users : UserRepositoryKeeps (OnTables HasEvent) caller new_user_repository
  unfolding new_user_repository Users.create_user Users.update_user Users.get_user_by_id
      Users.delete_user insert_user update_user_row select_user delete_user_row without_user
  others_events-users = record {
    create_user = λ p _. checked-Stable _ (Keeps-statement _ (λ pg env db i. ground arith));
    update_user = λ p _. checked-Stable _ (Keeps-statement _ (λ pg env db i. ground arith));
    get_user_by_id = λ id. checked-Stable _ (Keeps-statement _ (λ pg env db i. ground arith));
    delete_user = Keeps-statement _ (λ pg env db i. ground arith);
  }

  others_events-chat : ChatRepositoryKeeps (OnTables HasEvent) caller new_chat_repository
  unfolding new_chat_repository Chat.create_chat_message Chat.get_event_messages
      Chat.like_chat_message Chat.unlike_message Chat.delete_chat_message insert_message
      select_messages insert_like delete_like delete_message_row
  others_events-chat = record {
    create_message = λ p _. checked-Stable _ (Keeps-statement _ (λ pg env db i. ground arith));
    get_event_messages = λ p. checked-Stable _ (Keeps-statement _ (λ pg env db i. i));
    like_message = λ p _. Keeps-statement _ (λ pg env db i. ground arith);
    unlike_message = λ p _. Keeps-statement _ (λ pg env db i. i);
    delete_messsage = λ p _. Keeps-statement _ (λ pg env db i. i);
  }

  others_events-events : EventRepositoryKeeps (OnTables HasEvent) caller new_event_repository
  unfolding new_event_repository Writes.create_event Reads.get_nearby_events_by_status
      Reads.get_user_events Writes.join_event Writes.leave_event Writes.delete_event select_nearby
      select_user_events limited join_event_row leave_event_row
  others_events-events = record {
    create_event = λ p _. checked-Stable _ (Keeps-statement _ (insert_event-others p));
    get_nearby_events = λ p. checked-Stable _ (Keeps-statement _ (λ pg env db i. ground arith));
    get_user_events = λ p. checked-Stable _ (Keeps-statement _ (λ pg env db i. ground arith));
    join_event = λ p _. Keeps-statement _ (λ pg env db i. ground arith);
    leave_event = λ p _. Keeps-statement _ (λ pg env db i. i);
    delete_event =
        λ p e. Keeps-statement _ (λ pg env db i. delete_event_row-others p pg env db e i);
  }

  others_events-read : (id : Uuid) → Keeps HasEvent (new_event_repository.get_event_by_id id)
  unfolding new_event_repository Reads.get_event_by_id select_event
  others_events-read id = checked-Stable _ (Keeps-statement _ (λ pg env db i. ground arith))

-- The user `row`, who is not the caller.
module _ (row : User) (caller : Uuid) (other : uuid_eq row.user_id caller ≡ false) where
  abbrev HasUser : Database → Type 0
  HasUser db = In row db.users

  delete_user_row-others :
      (pg : Postgres) (env : Env) (db : Database)
      → HasUser db
      → Committed HasUser (delete_user_row caller pg env db)
  unfolding delete_user_row without_user
  delete_user_row-others pg env db i =
      ground (arith, In-select (λ u. not (is_user caller u)) row db.users (rw other) i)

  update_user_row-others :
      (p : UpdateUserParams) (pg : Postgres) (env : Env) (db : Database)
      → p.user_id ≡ caller
      → HasUser db
      → Committed HasUser (update_user_row p pg env db)
  unfolding update_user_row
  update_user_row-others p pg env db e i =
      let ne : is_user p.user_id row ≡ false = rw e other in
      ground (arith, In-update (is_user p.user_id) (set_user p pg env) row db.users ne i)

  others_users-users : UserRepositoryKeeps (OnTables HasUser) caller new_user_repository
  unfolding new_user_repository Users.create_user Users.update_user Users.get_user_by_id
      Users.delete_user insert_user select_user
  others_users-users = record {
    create_user = λ p _. checked-Stable _ (Keeps-statement _ (λ pg env db i. ground arith));
    update_user = λ p e.
        checked-Stable _
          (Keeps-statement _ (λ pg env db i. update_user_row-others p pg env db e i));
    get_user_by_id = λ id. checked-Stable _ (Keeps-statement _ (λ pg env db i. ground arith));
    delete_user = Keeps-statement _ delete_user_row-others;
  }

  others_users-chat : ChatRepositoryKeeps (OnTables HasUser) caller new_chat_repository
  unfolding new_chat_repository Chat.create_chat_message Chat.get_event_messages
      Chat.like_chat_message Chat.unlike_message Chat.delete_chat_message insert_message
      select_messages insert_like delete_like delete_message_row
  others_users-chat = record {
    create_message = λ p _. checked-Stable _ (Keeps-statement _ (λ pg env db i. ground arith));
    get_event_messages = λ p. checked-Stable _ (Keeps-statement _ (λ pg env db i. i));
    like_message = λ p _. Keeps-statement _ (λ pg env db i. ground arith);
    unlike_message = λ p _. Keeps-statement _ (λ pg env db i. i);
    delete_messsage = λ p _. Keeps-statement _ (λ pg env db i. i);
  }

  others_users-events : EventRepositoryKeeps (OnTables HasUser) caller new_event_repository
  unfolding new_event_repository Writes.create_event Reads.get_nearby_events_by_status
      Reads.get_user_events Writes.join_event Writes.leave_event Writes.delete_event insert_event
      select_nearby select_user_events limited join_event_row leave_event_row delete_event_row
  others_users-events = record {
    create_event = λ p _. checked-Stable _ (Keeps-statement _ (λ pg env db i. ground arith));
    get_nearby_events = λ p. checked-Stable _ (Keeps-statement _ (λ pg env db i. ground arith));
    get_user_events = λ p. checked-Stable _ (Keeps-statement _ (λ pg env db i. ground arith));
    join_event = λ p _. Keeps-statement _ (λ pg env db i. ground arith);
    leave_event = λ p _. Keeps-statement _ (λ pg env db i. i);
    delete_event = λ p _. Keeps-statement _ (λ pg env db i. i);
  }

  others_users-read : (id : Uuid) → Keeps HasUser (new_event_repository.get_event_by_id id)
  unfolding new_event_repository Reads.get_event_by_id select_event
  others_users-read id = checked-Stable _ (Keeps-statement _ (λ pg env db i. ground arith))

-- The two ids of a context are one.
same_caller :
    (Q : Uuid → Type 0) (ctx : Context) (id : Bytes)
    → ctx.user_id ≡ some id
    → Q (convert_uuid id)
    → ForCaller ctx Q
same_caller Q ctx id e q x e' = let same : id ≡ x = cc in subst (λ y. Q (convert_uuid y)) same q

module _ (ctx : Context) (id : Bytes) (is_caller : ctx.user_id ≡ some id) (req : Request)
    (w : World) where
  -- A call on behalf of a user leaves every event of another creator in the table, with the same row,
  -- whatever the method, the request, the driver, the clock and the random UUIDs.
  pub dispatch-others_events :
      (row : Event)
      → uuid_eq row.creator_id (convert_uuid id) ≡ false
      → In row w.db.events
      → In row (after (dispatch ctx req w)).db.events
  dispatch-others_events row other =
      (dispatch-Keeps ctx (λ w h v. v) (others_events-read row _ other)
          (same_caller (RepositoriesKeep (OnTables (HasEvent row _ other))) ctx id is_caller
            (record {
              users = others_events-users row _ other;
              events = others_events-events row _ other;
              chat = others_events-chat row _ other;
            }))
          req).at
        w

  -- A call on behalf of a user leaves the row of every other user in the table, whatever the method,
  -- the request, the driver, the clock and the random UUIDs.
  pub dispatch-others_users :
      (row : User)
      → uuid_eq row.user_id (convert_uuid id) ≡ false
      → In row w.db.users
      → In row (after (dispatch ctx req w)).db.users
  dispatch-others_users row other =
      (dispatch-Keeps ctx (λ w h v. v) (others_users-read row _ other)
          (same_caller (RepositoriesKeep (OnTables (HasUser row _ other))) ctx id is_caller
            (record {
              users = others_users-users row _ other;
              events = others_users-events row _ other;
              chat = others_users-chat row _ other;
            }))
          req).at
        w
