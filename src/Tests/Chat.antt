-- ===== src/Tests/Chat.antt =====
-- Runs of the handlers and of the subscribers of internal/services/chat_service.go.
use based_backend.Prelude.{select, ◌≡◌, refl, true, false, none, List, [], ◌∷◌, arith}
use based_backend.Prelude.Sorting.{Sorted}
use based_backend.Prelude.Int.{pos}
use based_backend.Services.Chat.Hub.Sound.{IsSound}
use based_backend.Services.Chat.Hub.Runs.{Action, perform_all, perform_all-IsSound}
use based_backend.Services.Chat.Messages.{Tells, get_messages-all}
use based_backend.Prelude.Membership.{AllPairs}
use based_backend.Services.Chat.Likes.{
  like_message-liked, like_message-again, unlike_message-like_message,
}
use based_backend.Services.Chat.Hub.{Hub, ends}
use based_backend.Services.Status.{Status}
use based_backend.Services.Convert.{convert_uuid}
use based_backend.Sqlc.Statement.{advance}
use based_backend.Sqlc.Chat.{message_row, message_before}
use based_backend.Proto.Messages.{Message}
use based_backend.Proto.Enums.{MessageStatus, MessageType}
use based_backend.Types.{codes, uuid_eq}
use based_backend.Repositories.{new_chat_repository}
use mathlib.Core.List.{Perm}
use based_backend.World.{World, Outcome, returns, after}
use based_backend.Services.Chat.Hub.{member}
use based_backend.Tests.{
  moment, everything, ada_id, bob_id, party_id, hello_id, hello, start, context_of, nobody,
  no_subscribers,
}
use based_backend.Sqlc.Models.{ChatMessage}
use based_backend.Services.Chat as ChatService

get_messages-all_example :
    (ms : List ChatMessage) × (answers : List Message) × (ChatService.get_messages
        new_chat_repository
        (context_of ada_id)
        party_id
        start
      ≡ returns answers (advance start start.db))
    × AllPairs (Tells (convert_uuid ada_id) start.db) ms answers
    × Sorted message_before ms
    × Perm ms (select (λ m. uuid_eq m.event_id (convert_uuid party_id)) start.db.chat_messages)
get_messages-all_example =
    get_messages-all (context_of ada_id) ada_id party_id start refl refl refl refl

abbrev like : World → Outcome Status (Unit {0})
like = ChatService.like_message new_chat_repository (context_of ada_id) hello_id

like_message-again_example : (after (like (after (like start)))).db ≡ (after (like start)).db
unfolding everything
like_message-again_example =
    like_message-again (context_of ada_id) ada_id hello_id refl refl refl start (after (like start))
      refl

like_message-liked_example :
    (message_row (convert_uuid ada_id) (after (like start)).db hello).is_liked_by_user ≡ true
unfolding everything
like_message-liked_example =
    like_message-liked (context_of ada_id) ada_id hello_id refl refl refl start (after (like start))
      hello refl refl

unlike_message-like_message_example :
    (after (
      ChatService.unlike_message new_chat_repository
        (context_of ada_id)
        hello_id
        (after (like start)))).db.message_likes
    ≡ start.db.message_likes
unfolding everything
unlike_message-like_message_example =
    unlike_message-like_message (context_of ada_id) ada_id hello_id refl refl refl start
      (after (like start)) refl refl refl

pub no_subscribers-IsSound : IsSound no_subscribers
unfolding member
no_subscribers-IsSound = record {
  opened = λ k p r. absurd cc;
  below = λ k p r. absurd cc;
  once = λ k. tt;
  apart = λ k l p r r'. absurd cc;
  bounded = λ p. ground arith;
}

abbrev pub greeting : Message
greeting = record {
  message_id = hello_id;
  event_id = party_id;
  sender_id = bob_id;
  created_at = none;
  content = codes "hello";
  status = MessageStatus.sent;
  message_type = MessageType.text;
  number_of_likes = pos 0;
  is_liked_by_user = false;
}

abbrev actions : List Action
actions =
    Action.register party_id nobody (refl, refl, refl)
    ∷ Action.publish greeting
    ∷ Action.unregister party_id 0
    ∷ Action.clean (moment 700000000000) (party_id ∷ [])
    ∷ Action.publish greeting
    ∷ []

perform_all-IsSound_example : (g : Hub) × (perform_all actions no_subscribers ≡ ends g) × IsSound g
perform_all-IsSound_example = perform_all-IsSound actions no_subscribers no_subscribers-IsSound
