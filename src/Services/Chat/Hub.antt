-- ===== src/Services/Chat/Hub.antt =====
-- The subscribers of internal/services/chat_service.go: `chatService.subscribers`, the `subscriber`
-- objects, and addSubscriber, removeSubscriber, broadcastMessage. Each of the three holds the mutex
-- to its end, so it is one step here. A `*subscriber` is a number; the map and the heap are functions.
pub mod Sound
pub mod Removal
pub mod Runs
pub mod Buffers
use based_backend.Prelude.{
  ℕ, suc, List, [], ◌∷◌, ◌++◌, Bool, true, false, ◌||◌, Option, none, some, ◌==◌, ltb, length,
  if◌then◌else◌,
}
use based_backend.Types.{Bytes, Time, bytes_eq}
use based_backend.Proto.Messages.{Message}

-- `messages` is what the channel buffers; the flags tell whether a channel has been closed.
pub record Subscriber : Type 0 where
  pub event_id : Bytes
  pub user_id : Bytes
  pub messages : List Message
  pub messages_closed : Bool
  pub done_closed : Bool
  pub created_at : Time

-- make(chan *pb.Message, 100)
abbrev pub capacity : ℕ
capacity = 100

-- `pending` holds the calls `go s.removeSubscriber(…)` that have not run yet.
pub record Hub : Type 0 where
  pub subscribers : Bytes → Option (List ℕ)
  pub heap : ℕ → Subscriber
  pub next : ℕ
  pub pending : List (Bytes × ℕ)

-- A step ends, or its goroutine panics: on a send to a closed channel or a second close.
pub data Step : Type 0 where
  ends : Hub → Step
  panics : Hub → Step

abbrev pub then_do : Step → (Hub → Step) → Step
then_do (ends h) f = f h
then_do (panics h) f = panics h

abbrev store : Bytes → Option (List ℕ) → Hub → Hub
store key subs h = record h { subscribers = λ k. if bytes_eq k key then subs else h.subscribers k }

abbrev pub put : ℕ → Subscriber → Hub → Hub
put p s h = record h { heap = λ q. if q == p then s else h.heap q }

abbrev pub loaded : Option (List ℕ) → List ℕ
loaded none = []
loaded (some subs) = subs

-- `&subscriber{…}` allocates, and addSubscriber stores the pointer.
unfoldable pub add_subscriber : Bytes → Subscriber → Hub → Hub
add_subscriber key s h =
    let h' = put h.next s h in
    store key (some (loaded (h.subscribers key) ++ h.next ∷ [])) (record h' { next = suc h.next })

-- close(sub.done); close(sub.messages)
unfoldable pub close_channels : ℕ → Hub → Step
close_channels p h =
    let s = h.heap p in
    if s.done_closed || s.messages_closed
    then panics h
    else ends (put p (record s { done_closed = true; messages_closed = true }) h)

unfoldable pub member : ℕ → List ℕ → Bool
member p [] = false
member p (q ∷ qs) = if q == p then true else member p qs

-- append(subs[:i], subs[i+1:]...) at the first match
pub remove : ℕ → List ℕ → List ℕ
remove p [] = []
remove p (q ∷ qs) = if q == p then qs else q ∷ remove p qs

-- Delete an empty list, store any other.
abbrev pub store_or_delete : Bytes → List ℕ → Hub → Hub
store_or_delete key [] h = store key none h
store_or_delete key (p ∷ ps) h = store key (some (p ∷ ps)) h

pub remove_subscriber : Bytes → ℕ → Hub → Step
remove_subscriber key p h = elim (h.subscribers key) [
  | none ↦ ends h
  | some subs ↦
      if member p subs
      then then_do (close_channels p h) (λ h'. ends (store_or_delete key (remove p subs) h'))
      else ends (store_or_delete key subs h)
]

-- One round of the loop of broadcastMessage.
unfoldable pub offer : Message → ℕ → Hub → Step
offer msg p h =
    let s = h.heap p in
    if s.messages_closed
    then panics h
    else if ltb (length s.messages) capacity
    then ends (put p (record s { messages = s.messages ++ msg ∷ [] }) h)
    else ends (record h { pending = h.pending ++ (msg.event_id, p) ∷ [] })

unfoldable pub offer_all : Message → List ℕ → Hub → Step
offer_all msg [] h = ends h
offer_all msg (p ∷ ps) h = then_do (offer msg p h) (offer_all msg ps)

unfoldable pub broadcast_message : Message → Hub → Step
broadcast_message msg h = offer_all msg (loaded (h.subscribers msg.event_id)) h
