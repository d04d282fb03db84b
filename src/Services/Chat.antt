-- ===== src/Services/Chat.antt =====
-- internal/services/chat_service.go: the unary handlers, over any repository. Hub holds the
-- subscribers.
pub mod Hub
pub mod Cleanup
pub mod Stream
pub mod Messages
pub mod Likes
use based_backend.Prelude.{String, List, [], ◌∷◌, map, Bool, true, false, ◌||◌, some}
use based_backend.Prelude.Int.{pos, to_int32}
use based_backend.Types.{Bytes}
use based_backend.World.{World, M, Outcome, returns, fails, pure, throw, or_fail, ◌>>=◌, ◌>>◌}
use based_backend.Proto.Messages.{Message, CreateMessageRequest}
use based_backend.Sqlc.Models.{ChatMessage}
use based_backend.Sqlc.Chat.{CreateChatMessageParams, GetEventMessagesRow}
use based_backend.Repositories.{ChatRepository}
use based_backend.Services.Status.{Status, Code, Context, error, errorf, get_user_id_from_context}
use based_backend.Services.Convert.{
  convert_uuid, convert_pb_message_type_to_sql, convert_sql_message_type_to_pb,
  convert_sql_message_status_to_pb,
}
use Hub.{Step, ends, panics, broadcast_message}

abbrev pub is_empty : Bytes → Bool
is_empty [] = true
is_empty (b ∷ bs) = false

-- `if missing { return nil, status.Error(codes.InvalidArgument, message) }`
abbrev pub require : Bool → String → M Status (Unit {0})
require true message = throw (error Code.invalid_argument message)
require false message = pure tt

abbrev pub after_step : Step → World → Outcome Status (Unit {0})
after_step (ends h) w = returns tt (record w { hub = h })
after_step (panics h) w = fails (error Code.internal "Internal server error") (record w { hub = h })

-- s.broadcastMessage(msg). A panic would be caught by the recovery interceptor of
-- cmd/server/main.go, which answers with this error.
unfoldable pub broadcast : Message → M Status (Unit {0})
broadcast msg w = after_step (broadcast_message msg w.hub) w

abbrev create_message_params : Bytes → CreateMessageRequest → CreateChatMessageParams
create_message_params id req = record {
  event_id = convert_uuid req.event_id;
  user_id = convert_uuid id;
  content = req.content;
  message_type = convert_pb_message_type_to_sql req.message_type;
}

-- The message that CreateMessage builds: the fields of likes keep their zero values.
unfoldable pub created_message : ChatMessage → Message
created_message msg = record {
  message_id = msg.message_id.value;
  event_id = msg.event_id.value;
  sender_id = msg.user_id.value;
  created_at = some (msg.created_at.value);
  content = msg.content;
  status = convert_sql_message_status_to_pb msg.status;
  message_type = convert_sql_message_type_to_pb msg.message_type;
  number_of_likes = pos 0;
  is_liked_by_user = false;
}

-- The message that GetMessages and StreamMessages build from a row.
unfoldable pub row_message : GetEventMessagesRow → Message
row_message msg = record {
  message_id = msg.message_id.value;
  event_id = msg.event_id.value;
  sender_id = msg.user_id.value;
  content = msg.content;
  created_at = some (msg.created_at.value);
  status = convert_sql_message_status_to_pb msg.status;
  message_type = convert_sql_message_type_to_pb msg.message_type;
  number_of_likes = to_int32 msg.number_of_likes;
  is_liked_by_user = msg.is_liked_by_user;
}

module _ (repo : ChatRepository) where
  unfoldable pub create_message : Context → CreateMessageRequest → M Status Message
  create_message ctx req = do
    id ← get_user_id_from_context ctx
    require (is_empty req.event_id || is_empty id || is_empty req.content)
        "event_id, user_id, and content are required"
    msg ←
        or_fail (repo.create_message (create_message_params id req))
          (errorf Code.internal "failed to create message")
    broadcast (created_message msg)
    pure (created_message msg)

  unfoldable pub get_messages : Context → Bytes → M Status (List Message)
  get_messages ctx event_id = do
    id ← get_user_id_from_context ctx
    require (is_empty event_id || is_empty id) "event_id and user_id are required"
    messages ←
        or_fail
          (repo.get_event_messages
            (record { event_id = convert_uuid event_id; user_id = convert_uuid id }))
          (errorf Code.not_found "failed to get messages")
    pure (map row_message messages)

  unfoldable pub like_message : Context → Bytes → M Status (Unit {0})
  like_message ctx message_id = do
    id ← get_user_id_from_context ctx
    require (is_empty message_id || is_empty id) "message_id and user_id are required"
    or_fail
        (repo.like_message
          (record { message_id = convert_uuid message_id; user_id = convert_uuid id }))
        (errorf Code.internal "failed to like message")

  unfoldable pub unlike_message : Context → Bytes → M Status (Unit {0})
  unlike_message ctx message_id = do
    id ← get_user_id_from_context ctx
    require (is_empty message_id || is_empty id) "message_id and user_id are required"
    or_fail
        (repo.unlike_message
          (record { message_id = convert_uuid message_id; user_id = convert_uuid id }))
        (errorf Code.internal "failed to unlike message")

  -- DeleteMesssage: the third s keeps it from being the DeleteMessage of pb.ChatServiceServer.
  unfoldable pub delete_messsage : Context → Bytes → M Status (Unit {0})
  delete_messsage ctx message_id = do
    id ← get_user_id_from_context ctx
    require (is_empty message_id || is_empty id) "message_id and user_id are required"
    or_fail
        (repo.delete_messsage
          (record { message_id = convert_uuid message_id; user_id = convert_uuid id }))
        (errorf Code.internal "failed to delete message")
