-- ===== src/Services/Chat/Stream.antt =====
-- StreamMessages of internal/services/chat_service.go. Up to its loops it is a sequence of actions; the
-- two loops are a step relation, since other goroutines work on the subscribers between two rounds.
pub mod Feed
pub mod InOrder
pub mod Opening
use based_backend.Prelude.{ℕ, List, [], ◌∷◌, ◌++◌, map, true, false, ◌||◌, Option, none, some, ◌≡◌}
use based_backend.Types.{Bytes, Time}
use based_backend.World.{M, pure, or_fail, returns, ◌>>=◌, ◌>>◌}
use based_backend.Proto.Messages.{Message}
use based_backend.Repositories.{ChatRepository}
use based_backend.Services.Status.{
  Status, Code, Context, error, errorf, get_user_id_from_context, transport,
}
use based_backend.Services.Convert.{convert_uuid}
use based_backend.Services.Chat.{is_empty, require, row_message}
use based_backend.Services.Chat.Hub.{Subscriber, Hub, ends, add_subscriber, put}
use based_backend.Services.Chat.Hub.Runs.{Action, perform}

-- `&subscriber{…}`
unfoldable pub new_subscriber : Bytes → Bytes → Time → Subscriber
new_subscriber event_id user_id now = record {
  event_id = event_id;
  user_id = user_id;
  messages = [];
  messages_closed = false;
  done_closed = false;
  created_at = now;
}

abbrev pub register_subscriber : Bytes → Subscriber → M Status ℕ
register_subscriber event_id sub w =
    returns w.hub.next (record w { hub = add_subscriber event_id sub w.hub })

-- The checks and s.addSubscriber: the user id, and the pointer of the new subscriber.
unfoldable pub open_stream : Context → Bytes → Time → M Status (Bytes × ℕ)
open_stream ctx event_id now = do
  id ← get_user_id_from_context ctx
  require (is_empty event_id || is_empty id) "event_id and user_id are required"
  p ← register_subscriber event_id (new_subscriber event_id id now)
  pure (id, p)

-- The messages that the first loop sends.
pub load_history : ChatRepository → Bytes → Bytes → M Status (List Message)
load_history repo event_id id = do
  rows ←
      or_fail
        (repo.get_event_messages
          (record { event_id = convert_uuid event_id; user_id = convert_uuid id }))
        (errorf Code.internal "failed to get messages")
  pure (map row_message rows)

-- Where the handler stands: in the first loop, with the messages that it has left, in the second one, or
-- behind its return with a status. Then only the deferred s.removeSubscriber is left, which is an
-- action on the subscribers.
pub data Phase : Type 0 where
  replaying : List Message → Phase
  live : Phase
  ended : Status → Phase

-- `sent` is what stream.Send has taken; none is a nil message, which a closed channel gives.
pub record System : Type 0 where
  pub hub : Hub
  pub sent : List (Option Message)
  pub phase : Phase

abbrev pub cancelled_by_client : Status
cancelled_by_client = error Code.canceled "client cancelled the stream"

abbrev pub cancelled_by_server : Status
cancelled_by_server = error Code.canceled "server cancelled the stream"

abbrev pub failed_to_send : Bytes → Status
failed_to_send e = record {
  code = Code.internal;
  message = "failed to send message";
  cause = some (transport e);
}

-- `<-sub.messages` on a buffer that is not empty, of which `rest` is left.
abbrev pub receive : ℕ → List Message → Hub → Hub
receive p rest h = put p (record (h.heap p) { messages = rest }) h

-- A round of the stream whose subscriber is `p`, or an action of another goroutine. A select takes any
-- case that is ready.
pub data Moves (p : ℕ) : System → System → Type 0 where
  replay :
      (s : System) (m : Message) (ms : List Message)
      → s.phase ≡ replaying (m ∷ ms)
      → Moves p s (record s { sent = s.sent ++ some m ∷ []; phase = replaying ms })
  replay_fails :
      (s : System) (m : Message) (ms : List Message) (e : Bytes)
      → s.phase ≡ replaying (m ∷ ms)
      → Moves p s (record s { phase = ended (failed_to_send e) })
  replayed : (s : System) → s.phase ≡ replaying [] → Moves p s (record s { phase = live })
  context_done :
      (s : System) → s.phase ≡ live → Moves p s (record s { phase = ended cancelled_by_client })
  sub_done :
      (s : System)
      → s.phase ≡ live
      → (s.hub.heap p).done_closed ≡ true
      → Moves p s (record s { phase = ended cancelled_by_server })
  receives :
      (s : System) (m : Message) (ms : List Message)
      → s.phase ≡ live
      → (s.hub.heap p).messages ≡ m ∷ ms
      → Moves p s (record s { hub = receive p ms s.hub; sent = s.sent ++ some m ∷ [] })
  receives_nil :
      (s : System)
      → s.phase ≡ live
      → (s.hub.heap p).messages ≡ []
      → (s.hub.heap p).messages_closed ≡ true
      → Moves p s (record s { sent = s.sent ++ none ∷ [] })
  receive_fails :
      (s : System) (m : Message) (ms : List Message) (e : Bytes)
      → s.phase ≡ live
      → (s.hub.heap p).messages ≡ m ∷ ms
      → Moves p s (record s { hub = receive p ms s.hub; phase = ended (failed_to_send e) })
  receive_nil_fails :
      (s : System) (e : Bytes)
      → s.phase ≡ live
      → (s.hub.heap p).messages ≡ []
      → (s.hub.heap p).messages_closed ≡ true
      → Moves p s (record s { phase = ended (failed_to_send e) })
  others :
      (s : System) (a : Action) (h : Hub)
      → perform a s.hub ≡ ends h
      → Moves p s (record s { hub = h })
