-- ===== src/Tests/Streams.antt =====
-- Runs of the subscribers under a stream and under the cleanup.
use based_backend.Proto.Messages.{Message}
use based_backend.Services.Chat.Stream.Opening.{opened, open_stream-in_order}
use based_backend.World.{Outcome, returns, after}
use based_backend.Services.Status.{Status, get_user_id_from_context}
use based_backend.Services.Chat.Stream.{open_stream, replaying, replay, replayed}
use based_backend.Prelude.{List, ◌++◌, some}
use based_backend.Services.Chat.Stream.InOrder.{feed}
use based_backend.Tests.{start, context_of}
use based_backend.Prelude.{
  ℕ, ◌≡◌, ◌↔◌, refl, [], ◌∷◌, ◌++◌, true, false, some, Bool-cases, inl, inr,
}
use based_backend.Types.{Bytes, bytes_eq, Time}
use based_backend.Services.Chat.Hub.{
  Subscriber, Hub, Step, ends, panics, then_do, member, add_subscriber, remove_subscriber, offer,
  offer_all, broadcast_message,
}
use based_backend.Services.Chat.Hub.Sound.{IsSound, Registered}
use based_backend.Services.Chat.Hub.Runs.{publish, perform, add_subscriber-IsSound}
use based_backend.Services.Chat.Cleanup.{
  is_active, sweep_loaded, overwritten, cleanup_inactive_subscribers,
}
use based_backend.Services.Chat.Cleanup.Tick.{visits, cleanup_inactive_subscribers-expires}
use based_backend.Services.Chat.Cleanup.Race.{sweep-remove_subscriber}
use based_backend.Services.Chat.Stream.{
  new_subscriber, System, live, receive, Moves, others, receives,
}
use based_backend.Services.Chat.Stream.Feed.{Feeds}
use based_backend.Services.Chat.Stream.InOrder.{
  Run, stops, moves, view, delivered, todo, is_ongoing, incoming,
}
use based_backend.Tests.{party_id, ada_id, bob_id, no_subscribers, moment, start, context_of}
use based_backend.Tests.Chat.{no_subscribers-IsSound, greeting}

abbrev adas : Subscriber
adas = new_subscriber party_id ada_id (moment 0)

-- Ada alone, for the party.
abbrev listening : Hub
listening = add_subscriber party_id adas no_subscribers

listening-IsSound : IsSound listening
unfolding new_subscriber
listening-IsSound =
    add_subscriber-IsSound party_id adas no_subscribers (refl, refl, refl) no_subscribers-IsSound

-- Ten minutes later.
abbrev later : Time
later = moment 600000000000

listening-visited : (k : Bytes) (q : ℕ) → Registered listening k q → visits (party_id ∷ []) k ≡ true
unfolding add_subscriber member visits
listening-visited k q r = elim (Bool-cases (bytes_eq k party_id)) [
  | inl e ↦ rw e refl
  | inr e ↦ absurd (let clash : false ≡ true = rw e at r in cc)
]

cleanup_inactive_subscribers-expires_example :
    (g : Hub) × (cleanup_inactive_subscribers later (party_id ∷ []) listening ≡ ends g)
    × IsSound g
    × ((k : Bytes) (q : ℕ)
        → Registered g k q
          ↔ (Registered listening k q × (is_active later (listening.heap q) ≡ true)))
cleanup_inactive_subscribers-expires_example =
    cleanup_inactive_subscribers-expires later (party_id ∷ []) listening listening-IsSound
      listening-visited

-- Bob listens, too. Ada's stream ends just after a cleanup has loaded both.
abbrev bobs : Subscriber
bobs = new_subscriber party_id bob_id (moment 0)

abbrev both_listening : Hub
both_listening = add_subscriber party_id bobs listening

both_listening-IsSound : IsSound both_listening
unfolding new_subscriber
both_listening-IsSound =
    add_subscriber-IsSound party_id bobs listening (refl, refl, refl) listening-IsSound

sweep-remove_subscriber_example :
    (g : Hub) × (then_do
        (remove_subscriber party_id 0 both_listening)
        (sweep_loaded later party_id (some (overwritten 0 (0 ∷ 1 ∷ []))))
      ≡ panics g)
unfolding add_subscriber member is_active bytes_eq new_subscriber
sweep-remove_subscriber_example =
    sweep-remove_subscriber later party_id 0 1 (0 ∷ []) both_listening both_listening-IsSound refl
      refl refl

abbrev hub_of : Step → Hub
hub_of (ends h) = h
hub_of (panics h) = h

-- Ada opens a stream, Bob's greeting is broadcast, and the stream sends its history and the greeting.
abbrev opening : Outcome Status (Bytes × ℕ)
opening = open_stream (context_of ada_id) party_id (moment 0) start

abbrev streaming : System
streaming = opened (after opening) (greeting ∷ [])

abbrev greeted : System
greeted = record streaming { hub = hub_of (perform (publish greeting) streaming.hub) }

abbrev replaying_done : System
replaying_done = record greeted { sent = some greeting ∷ []; phase = replaying [] }

abbrev listening_on : System
listening_on = record replaying_done { phase = live }

abbrev answered : System
answered = record listening_on {
  hub = receive 0 [] listening_on.hub;
  sent = some greeting ∷ some greeting ∷ [];
}

-- What these moves unfold.
streams : Unit {0}
unfolding add_subscriber offer offer_all broadcast_message perform bytes_eq new_subscriber
    open_stream get_user_id_from_context
streams = tt

opens : opening ≡ returns (ada_id, 0) (after opening)
unfolding streams
opens = refl

broadcast : Moves 0 streaming greeted
unfolding streams
broadcast = others streaming (publish greeting) greeted.hub refl

send_history : Moves 0 greeted replaying_done
unfolding streams
send_history = replay greeted greeting [] refl

go_live : Moves 0 replaying_done listening_on
unfolding streams
go_live = replayed replaying_done refl

send_greeting : Moves 0 listening_on answered
unfolding streams
send_greeting = receives listening_on greeting [] refl refl

abbrev arrived : List Message
arrived =
    ((([] ++ incoming broadcast) ++ incoming send_history) ++ incoming go_live)
    ++ incoming send_greeting

run : Run 0 streaming arrived answered
run =
    moves listening_on answered _
      (moves replaying_done listening_on _
        (moves greeted replaying_done _ (moves streaming greeted [] stops broadcast) send_history)
        go_live)
      send_greeting

no_hub-IsSound : IsSound start.hub
no_hub-IsSound = no_subscribers-IsSound

open_stream-in_order_example :
    Registered (after opening).hub party_id 0
    × Feeds (feed [] (greeting ∷ [])) arrived (view 0 answered)
    × (delivered answered.sent ++ (todo answered.phase ++ (answered.hub.heap 0).messages)
        ≡ (greeting ∷ []) ++ arrived)
unfolding is_ongoing
open_stream-in_order_example =
    open_stream-in_order (context_of ada_id) party_id ada_id (moment 0) 0 start (after opening)
      (greeting ∷ []) arrived answered no_hub-IsSound opens run refl
