-- ===== src/Services/Chat/Stream/Opening.antt =====
-- StreamMessages of internal/services/chat_service.go from its first line on.
use mathlib.Core.Path.{subst}
use mathlib.Core.List.{append-nil}
use based_backend.Prelude.{
  ℕ, ◌<◌, ◌≡◌, refl, sym, ap, ◌∙◌, List, [], ◌∷◌, ◌++◌, Bool, true, false, ◌==◌, ◌||◌, Option, none,
  some, arith, String,
}
use based_backend.Types.{Bytes, Time, bytes_eq_refl}
use based_backend.World.{World, returns}
use based_backend.World.Returns.{continue-returns}
use based_backend.Proto.Messages.{Message}
use based_backend.Services.Status.{Context, get_user_id_from_context, user_id_or_fail}
use based_backend.Services.Chat.{require, is_empty}
use based_backend.Services.Chat.Hub.{Hub, add_subscriber, member, loaded}
use based_backend.Services.Chat.Hub.Sound.{IsSound, Registered}
use based_backend.Services.Chat.Hub.Runs.{add_subscriber-IsSound}
use based_backend.Services.Chat.Stream.{replaying, System, new_subscriber, open_stream}
use based_backend.Services.Chat.Stream.Feed.{Feeds}
use based_backend.Services.Chat.Stream.InOrder.{
  delivered, todo, is_ongoing, view, feed, Run, run-in_order,
}

user_id_or_fail-same :
    (o : Option Bytes) (id : Bytes) (w v : World) → user_id_or_fail o w ≡ returns id v → w ≡ v
user_id_or_fail-same none id w v h = absurd cc
user_id_or_fail-same (some i) id w v h = cc

require-same :
    (missing : Bool) (message : String) (u : Unit {0}) (w v : World)
    → require missing message w ≡ returns u v
    → w ≡ v
require-same true message u w v h = absurd cc
require-same false message u w v h = cc

-- A subscriber has been added, and nothing else has changed.
record IsOpened (event_id id : Bytes) (now : Time) (p : ℕ) (w w' : World) : Type 0 where
  pointer : p ≡ w.hub.next
  hub : w'.hub ≡ add_subscriber event_id (new_subscriber event_id id now) w.hub

open_stream-IsOpened :
    (ctx : Context) (event_id : Bytes) (now : Time) (id : Bytes) (p : ℕ) (w w' : World)
    → open_stream ctx event_id now w ≡ returns (id, p) w'
    → IsOpened event_id id now p w w'
unfolding open_stream get_user_id_from_context
open_stream-IsOpened ctx event_id now id p w w' h =
    let (i, v, e, h1) = continue-returns _ (user_id_or_fail ctx.user_id w) (id, p) w' h in
    let (u, v', e', h2) =
      continue-returns _
        (require (is_empty event_id || is_empty i) "event_id and user_id are required" v) (id, p) w'
        h1 in
    let same : w ≡ v' = user_id_or_fail-same ctx.user_id i w v e ∙ require-same _ _ u v v' e' in
    let same_id : i ≡ id = cc in
    let pointer : v'.hub.next ≡ p = cc in
    let added : World = record v' {
      hub = add_subscriber event_id (new_subscriber event_id i now) v'.hub;
    } in
    let world : added ≡ w' = cc in
    record {
      pointer = sym pointer ∙ sym (ap (λ (x : World). x.hub.next) same);
      hub =
          sym (ap (λ (x : World). x.hub) world)
          ∙ ap (λ x. add_subscriber event_id (new_subscriber event_id x now) v'.hub) same_id
          ∙ ap (λ (x : World). add_subscriber event_id (new_subscriber event_id id now) x.hub)
              (sym same);
    }

member-last : (p : ℕ) (ps : List ℕ) → member p (ps ++ p ∷ []) ≡ true
unfolding member
member-last p [] = ground arith
member-last p (q ∷ ps) = ground (arith, member-last p ps)

-- The stream that has just been opened, with the history that it is going to send.
abbrev pub opened : World → List Message → System
opened w history = record { hub = w.hub; sent = []; phase = replaying history }

-- What holds of the hub with a new subscriber.
record IsReady (event_id : Bytes) (p : ℕ) (h : Hub) : Type 0 where
  sound : IsSound h
  registered : Registered h event_id p
  allocated : p < h.next
  buffer : (h.heap p).messages ≡ []

add_subscriber-IsReady :
    (event_id id : Bytes) (now : Time) (h : Hub)
    → IsSound h
    → IsReady event_id h.next (add_subscriber event_id (new_subscriber event_id id now) h)
unfolding add_subscriber new_subscriber
add_subscriber-IsReady event_id id now h s =
    let self : (h.next == h.next) ≡ true = ground arith in
    record {
      sound =
          add_subscriber-IsSound event_id (new_subscriber event_id id now) h (refl, refl, refl) s;
      registered =
          rw (bytes_eq_refl event_id) (member-last h.next (loaded (h.subscribers event_id)));
      allocated = omega arith;
      buffer = rw self refl;
    }

-- When a call of StreamMessages has passed its checks, from sound subscribers, it has a registered
-- subscriber. From there on, in every interleaving with registrations, removals, broadcasts and ticks of
-- the cleanup, each of which runs to its end, a stream that has not ended refines a queue that holds the
-- history at first: what it has sent, the nil messages of a closed channel aside, with the history that
-- is left and what is in its buffer, is the history with the broadcasts that have reached the buffer
-- since it was opened behind it. None is lost, doubled or moved.
pub open_stream-in_order :
    (ctx : Context) (event_id id : Bytes) (now : Time) (p : ℕ) (w w' : World)
    (history ms : List Message) (t : System)
    → IsSound w.hub
    → open_stream ctx event_id now w ≡ returns (id, p) w'
    → Run p (opened w' history) ms t
    → is_ongoing t.phase ≡ true
    → Registered w'.hub event_id p
      × Feeds (feed [] history) ms (view p t)
      × (delivered t.sent ++ (todo t.phase ++ (t.hub.heap p).messages) ≡ history ++ ms)
unfolding view delivered todo
open_stream-in_order ctx event_id id now p w w' history ms t s h r o =
    let opening = open_stream-IsOpened ctx event_id now id p w w' h in
    let ready : IsReady event_id p w'.hub =
      subst (λ x. IsReady event_id x w'.hub) (sym opening.pointer)
        (subst (IsReady event_id w.hub.next) (sym opening.hub)
          (add_subscriber-IsReady event_id id now w.hub s)) in
    let (feeds, order) = run-in_order p (opened w' history) t ms ready.sound ready.allocated r o in
    let queue : history ++ (w'.hub.heap p).messages ≡ history =
      ap (λ x. history ++ x) ready.buffer ∙ append-nil history in
    (
      ready.registered,
      subst (λ x. Feeds (feed [] x) ms (view p t)) queue feeds,
      order ∙ ap (λ x. x ++ ms) queue,
    )
