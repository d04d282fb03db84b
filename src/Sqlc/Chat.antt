-- ===== src/Sqlc/Chat.antt =====
-- internal/gen/sqlc/chat.sql.go: the queries of chat_messages and message_likes.
use based_backend.Prelude.{
  ℕ, List, ◌∷◌, map, Bool, not, ◌&&◌, if◌then◌else◌, select, exists_where, cascade, order_by,
  length,
}
use based_backend.Types.{Bytes, Uuid, Nullable, Time, uuid_eq, some_value, not_after}
use based_backend.Sqlc.Labels.{has_label, message_category_labels}
use based_backend.Sqlc.Models.{
  message_category_label, ChatMessage, MessageLike, MessageCategoryType, MessageStatusType,
}
use based_backend.Sqlc.Keys.{
  same_message, same_like, same_moment, message_event, message_user, like_message, like_user,
}
use based_backend.World.{M}
use based_backend.Sqlc.Statement.{statement}
use based_backend.Sqlc.Database.{
  Database, Postgres, Env, Query, commits, aborts, DbError, not_null_violation, unique_violation,
  foreign_key_violation, invalid_enum_label,
}

pub record CreateChatMessageParams : Type 0 where
  pub event_id : Uuid
  pub user_id : Uuid
  pub content : Bytes
  pub message_type : MessageCategoryType

-- Whether the value is one of the enum message_category_type.
unfoldable pub is_message_category : MessageCategoryType → Bool
is_message_category m = has_label message_category_labels (message_category_label m)

unfoldable pub new_message : CreateChatMessageParams → Postgres → Env → ChatMessage
new_message p pg env = record {
  message_id = some_value env.random_uuid;
  event_id = p.event_id;
  user_id = p.user_id;
  content = p.content;
  message_type = p.message_type;
  status = MessageStatusType.sent;
  created_at = some_value (pg.to_timestamptz env.now);
  edited_at = some_value (pg.to_timestamptz env.now);
}

unfoldable pub insert_message :
    CreateChatMessageParams → Postgres → Env → Database → Query ChatMessage
insert_message p pg env db =
    let row = new_message p pg env in
    if not (is_message_category p.message_type)
    then aborts invalid_enum_label
    else if not (p.event_id.valid && p.user_id.valid)
    then aborts not_null_violation
    else if exists_where (same_message row) db.chat_messages
    then aborts unique_violation
    else if exists_where (same_moment row) db.chat_messages
    then aborts unique_violation
    else if not (exists_where (message_event row) db.events)
    then aborts foreign_key_violation
    else if not (exists_where (message_user row) db.users)
    then aborts foreign_key_violation
    else commits row (record db { chat_messages = row ∷ db.chat_messages })

unfoldable pub create_chat_message : CreateChatMessageParams → M DbError ChatMessage
create_chat_message p = statement (insert_message p)

pub record DeleteChatMessageParams : Type 0 where
  pub message_id : Uuid
  pub user_id : Uuid

abbrev pub is_message_by : DeleteChatMessageParams → ChatMessage → Bool
is_message_by p m = uuid_eq m.message_id p.message_id && uuid_eq m.user_id p.user_id

-- ON DELETE CASCADE from chat_messages to message_likes.
unfoldable pub delete_message_row :
    DeleteChatMessageParams → Postgres → Env → Database → Query (Unit {0})
delete_message_row p pg env db = commits tt (record db {
  chat_messages = select (λ m. not (is_message_by p m)) db.chat_messages;
  message_likes = cascade (is_message_by p) like_message db.chat_messages db.message_likes;
})

unfoldable pub delete_chat_message : DeleteChatMessageParams → M DbError (Unit {0})
delete_chat_message p = statement (delete_message_row p)

pub record GetEventMessagesParams : Type 0 where
  pub event_id : Uuid
  pub user_id : Uuid

pub record GetEventMessagesRow : Type 0 where
  pub message_id : Uuid
  pub event_id : Uuid
  pub user_id : Uuid
  pub content : Bytes
  pub message_type : MessageCategoryType
  pub status : MessageStatusType
  pub created_at : Nullable Time
  pub edited_at : Nullable Time
  pub number_of_likes : ℕ
  pub is_liked_by_user : Bool

unfoldable pub message_row : Uuid → Database → ChatMessage → GetEventMessagesRow
message_row user db m = record {
  message_id = m.message_id;
  event_id = m.event_id;
  user_id = m.user_id;
  content = m.content;
  message_type = m.message_type;
  status = m.status;
  created_at = m.created_at;
  edited_at = m.edited_at;
  number_of_likes = length (select (λ l. like_message l m) db.message_likes);
  is_liked_by_user =
      exists_where (λ l. like_message l m && uuid_eq l.user_id user) db.message_likes;
}

-- The order of ORDER BY cm.created_at. The column is never NULL: it defaults to NOW().
abbrev pub message_before : ChatMessage → ChatMessage → Bool
message_before a b = not_after a.created_at.value b.created_at.value

unfoldable pub messages_of_event : Uuid → Database → List ChatMessage
messages_of_event event db =
    order_by message_before (select (λ m. uuid_eq m.event_id event) db.chat_messages)

unfoldable pub select_messages :
    GetEventMessagesParams → Postgres → Env → Database → Query (List GetEventMessagesRow)
select_messages p pg env db =
    commits (map (message_row p.user_id db) (messages_of_event p.event_id db)) db

unfoldable pub get_event_messages : GetEventMessagesParams → M DbError (List GetEventMessagesRow)
get_event_messages p = statement (select_messages p)

pub record LikeMessageParams : Type 0 where
  pub message_id : Uuid
  pub user_id : Uuid

unfoldable pub new_like : LikeMessageParams → Postgres → Env → MessageLike
new_like p pg env = record {
  message_id = p.message_id;
  user_id = p.user_id;
  created_at = some_value (pg.to_timestamptz env.now);
}

-- ON CONFLICT DO NOTHING
unfoldable pub insert_like : LikeMessageParams → Postgres → Env → Database → Query (Unit {0})
insert_like p pg env db =
    let row = new_like p pg env in
    if not (p.message_id.valid && p.user_id.valid)
    then aborts not_null_violation
    else if exists_where (same_like row) db.message_likes
    then commits tt db
    else if not (exists_where (like_message row) db.chat_messages)
    then aborts foreign_key_violation
    else if not (exists_where (like_user row) db.users)
    then aborts foreign_key_violation
    else commits tt (record db { message_likes = row ∷ db.message_likes })

unfoldable pub like_chat_message : LikeMessageParams → M DbError (Unit {0})
like_chat_message p = statement (insert_like p)

pub record UnlikeMessageParams : Type 0 where
  pub message_id : Uuid
  pub user_id : Uuid

abbrev pub is_like_by : UnlikeMessageParams → MessageLike → Bool
is_like_by p l = uuid_eq l.message_id p.message_id && uuid_eq l.user_id p.user_id

unfoldable pub delete_like : UnlikeMessageParams → Postgres → Env → Database → Query (Unit {0})
delete_like p pg env db =
    commits tt (record db { message_likes = select (λ l. not (is_like_by p l)) db.message_likes })

unfoldable pub unlike_message : UnlikeMessageParams → M DbError (Unit {0})
unlike_message p = statement (delete_like p)
