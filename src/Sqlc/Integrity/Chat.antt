-- ===== src/Sqlc/Integrity/Chat.antt =====
-- The queries of internal/gen/sqlc/chat.sql.go keep the constraints.
use based_backend.Prelude.{arith}
use based_backend.Prelude.RowLaws.{Distinct-select, Refers-select, Refers-grow, Refers-cascade}
use based_backend.Sqlc.Database.{Database, Postgres, Env}
use based_backend.Sqlc.Keys.{
  same_message, same_moment, same_like, message_event, message_user, like_message, like_user,
}
use based_backend.Sqlc.Chat.{
  CreateChatMessageParams, DeleteChatMessageParams, GetEventMessagesParams, LikeMessageParams,
  UnlikeMessageParams, insert_message, new_message, delete_message_row, is_message_by,
  select_messages, insert_like, delete_like,
}
use based_backend.Sqlc.Integrity.{IsValid}
use based_backend.Sqlc.Statement.Keeps.{Committed}

module _ (pg : Postgres) (env : Env) (db : Database) (v : IsValid db) where
  pub insert_message-IsValid :
      (p : CreateChatMessageParams) → Committed IsValid (insert_message p pg env db)
  unfolding insert_message
  insert_message-IsValid p = ground (
    arith,
    Refers-grow like_message db.message_likes (new_message p pg env) db.chat_messages v.liked,
  )

  pub delete_message_row-IsValid :
      (p : DeleteChatMessageParams) → Committed IsValid (delete_message_row p pg env db)
  unfolding delete_message_row
  delete_message_row-IsValid p = record {
    user_keys = v.user_keys;
    event_keys = v.event_keys;
    attendee_keys = v.attendee_keys;
    message_keys = Distinct-select same_message _ db.chat_messages v.message_keys;
    moments = Distinct-select same_moment _ db.chat_messages v.moments;
    like_keys = Distinct-select same_like _ db.message_likes v.like_keys;
    creators = v.creators;
    attended = v.attended;
    attendees = v.attendees;
    message_events = Refers-select message_event _ db.chat_messages db.events v.message_events;
    authors = Refers-select message_user _ db.chat_messages db.users v.authors;
    liked = Refers-cascade like_message (is_message_by p) db.message_likes db.chat_messages v.liked;
    likers = Refers-select like_user _ db.message_likes db.users v.likers;
    checks = v.checks;
  }

  pub select_messages-IsValid :
      (p : GetEventMessagesParams) → Committed IsValid (select_messages p pg env db)
  unfolding select_messages
  select_messages-IsValid p = v

  pub insert_like-IsValid : (p : LikeMessageParams) → Committed IsValid (insert_like p pg env db)
  unfolding insert_like
  insert_like-IsValid p = ground arith

  pub delete_like-IsValid : (p : UnlikeMessageParams) → Committed IsValid (delete_like p pg env db)
  unfolding delete_like
  delete_like-IsValid p = record {
    user_keys = v.user_keys;
    event_keys = v.event_keys;
    attendee_keys = v.attendee_keys;
    message_keys = v.message_keys;
    moments = v.moments;
    like_keys = Distinct-select same_like _ db.message_likes v.like_keys;
    creators = v.creators;
    attended = v.attended;
    attendees = v.attendees;
    message_events = v.message_events;
    authors = v.authors;
    liked = Refers-select like_message _ db.message_likes db.chat_messages v.liked;
    likers = Refers-select like_user _ db.message_likes db.users v.likers;
    checks = v.checks;
  }
