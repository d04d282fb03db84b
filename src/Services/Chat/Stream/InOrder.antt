-- ===== src/Services/Chat/Stream/InOrder.antt =====
-- A stream of internal/services/chat_service.go is a queue: its client gets the history, and then every
-- message that was broadcast while it was registered and had room, once and in order.
use mathlib.Core.Path.{subst}
use mathlib.Core.List.{append_assoc, append-nil}
use based_backend.Prelude.{
  ℕ, ◌≤◌, ◌<◌, ◌≡◌, refl, sym, ap, ◌∙◌, List, [], ◌∷◌, ◌++◌, Bool, true, false, ◌==◌, Option, none,
  some, length, arith,
}
use based_backend.Proto.Messages.{Message}
use based_backend.Services.Chat.Hub.{Hub, ends, capacity}
use based_backend.Services.Chat.Hub.Sound.{IsSound, shorter-IsSound}
use based_backend.Services.Chat.Hub.Runs.{perform-IsSound}
use based_backend.Services.Chat.Hub.Buffers.{arrivals, perform-Grown}
use based_backend.Services.Chat.Stream.{
  Phase, replaying, live, ended, System, receive, Moves, replay, replay_fails, replayed,
  context_done, sub_done, receives, receives_nil, receive_fails, receive_nil_fails, others,
}
use based_backend.Services.Chat.Stream.Feed.{Feed, Feeds, rests, delivers, accepts, Feeds-in_order}

unfoldable pub delivered : List (Option Message) → List Message
delivered [] = []
delivered (none ∷ ms) = delivered ms
delivered (some m ∷ ms) = m ∷ delivered ms

unfoldable pub todo : Phase → List Message
todo (replaying ms) = ms
todo live = []
todo (ended why) = []

unfoldable pub is_ongoing : Phase → Bool
is_ongoing (replaying ms) = true
is_ongoing live = true
is_ongoing (ended why) = false

-- The stream as a queue: what its client has, and what waits.
unfoldable pub view : ℕ → System → Feed
view p s = record { read = delivered s.sent; queue = todo s.phase ++ (s.hub.heap p).messages }

-- What a move puts into the buffer.
pub incoming : {p : ℕ} {s t : System} → Moves p s t → List Message
incoming {p} (others s a h e) = arrivals a p s.hub
incoming _ = []

-- Moves of the stream of `p` and of others, with what has come into its buffer.
pub data Run (p : ℕ) (s : System) : List Message → System → Type 0 where
  stops : Run p s [] s
  moves :
      (t u : System) (ms : List Message)
      → Run p s ms t
      → (m : Moves p t u) → Run p s (ms ++ incoming m) u

record IsFit (p : ℕ) (s : System) : Type 0 where
  sound : IsSound s.hub
  allocated : p < s.hub.next

receive-IsFit :
    (p : ℕ) (m : Message) (ms : List Message) (s : System)
    → (s.hub.heap p).messages ≡ m ∷ ms
    → IsFit p s
    → IsSound (receive p ms s.hub)
receive-IsFit p m ms s e f =
    let b : length (m ∷ ms) ≤ capacity = subst (λ x. length x ≤ capacity) e (f.sound.bounded p) in
    shorter-IsSound p ms s.hub (omega (arith, b)) f.sound

Moves-IsFit : (p : ℕ) (s t : System) → Moves p s t → IsFit p s → IsFit p t
Moves-IsFit p _ _ (replay s m ms e) f = record { sound = f.sound; allocated = f.allocated }
Moves-IsFit p _ _ (replay_fails s m ms why e) f = record {
  sound = f.sound;
  allocated = f.allocated;
}
Moves-IsFit p _ _ (replayed s e) f = record { sound = f.sound; allocated = f.allocated }
Moves-IsFit p _ _ (context_done s e) f = record { sound = f.sound; allocated = f.allocated }
Moves-IsFit p _ _ (sub_done s e d) f = record { sound = f.sound; allocated = f.allocated }
Moves-IsFit p _ _ (receives s m ms e b) f = record {
  sound = receive-IsFit p m ms s b f;
  allocated = f.allocated;
}
Moves-IsFit p _ _ (receives_nil s e b c) f = record { sound = f.sound; allocated = f.allocated }
Moves-IsFit p _ _ (receive_fails s m ms why e b) f = record {
  sound = receive-IsFit p m ms s b f;
  allocated = f.allocated;
}
Moves-IsFit p _ _ (receive_nil_fails s why e b c) f = record {
  sound = f.sound;
  allocated = f.allocated;
}
Moves-IsFit p _ _ (others s a h e) f =
    let (g, e', sound) = perform-IsSound a s.hub f.sound in
    let same : ends g ≡ ends h = sym e' ∙ e in
    let eq : g ≡ h = cc in
    record {
      sound = subst IsSound eq sound;
      allocated = (perform-Grown a p s.hub h f.sound f.allocated e).allocated;
    }

delivered-append :
    (ms : List (Option Message)) (m : Message)
    → delivered (ms ++ some m ∷ []) ≡ delivered ms ++ m ∷ []
unfolding delivered
delivered-append [] m = refl
delivered-append (none ∷ ms) m = delivered-append ms m
delivered-append (some n ∷ ms) m = ap (λ x. n ∷ x) (delivered-append ms m)

delivered-none : (ms : List (Option Message)) → delivered (ms ++ none ∷ []) ≡ delivered ms
unfolding delivered
delivered-none [] = refl
delivered-none (none ∷ ms) = delivered-none ms
delivered-none (some n ∷ ms) = ap (λ x. n ∷ x) (delivered-none ms)

-- An ended stream stays ended.
is_ongoing-before :
    (p : ℕ) (s t : System) → Moves p s t → is_ongoing t.phase ≡ true → is_ongoing s.phase ≡ true
unfolding is_ongoing
is_ongoing-before p _ _ (replay s m ms e) o = ap is_ongoing e
is_ongoing-before p _ _ (replay_fails s m ms why e) o = ap is_ongoing e
is_ongoing-before p _ _ (replayed s e) o = ap is_ongoing e
is_ongoing-before p _ _ (context_done s e) o = ap is_ongoing e
is_ongoing-before p _ _ (sub_done s e d) o = ap is_ongoing e
is_ongoing-before p _ _ (receives s m ms e b) o = ap is_ongoing e
is_ongoing-before p _ _ (receives_nil s e b c) o = ap is_ongoing e
is_ongoing-before p _ _ (receive_fails s m ms why e b) o = ap is_ongoing e
is_ongoing-before p _ _ (receive_nil_fails s why e b c) o = ap is_ongoing e
is_ongoing-before p _ _ (others s a h e) o = o

abbrev pub feed : List Message → List Message → Feed
feed read queue = record { read = read; queue = queue }

Feeds-to :
    (f : Feed) (ms : List Message) (r r' q q' : List Message)
    → r ≡ r'
    → q ≡ q'
    → Feeds f ms (feed r q)
    → Feeds f (ms ++ []) (feed r' q')
Feeds-to f ms r r' q q' e e' h =
    subst (λ x. Feeds f x (feed r' q')) (sym (append-nil ms))
      (subst (λ x. Feeds f ms (feed r' x)) e' (subst (λ x. Feeds f ms (feed x q)) e h))

receive-rest : (p : ℕ) (ms : List Message) (h : Hub) → ((receive p ms h).heap p).messages ≡ ms
receive-rest p ms h = let self : (p == p) ≡ true = ground arith in rw self refl

-- A move that the stream survives is a step of the queue, or none.
view-Moves :
    (f : Feed) (p : ℕ) (s t : System) (ms : List Message) (m : Moves p s t)
    → IsFit p s
    → is_ongoing t.phase ≡ true
    → Feeds f ms (view p s)
    → Feeds f (ms ++ incoming m) (view p t)
unfolding view incoming todo is_ongoing
view-Moves f p _ _ ms (replay s m rest e) fit o h =
    let buffer = (s.hub.heap p).messages in
    Feeds-to f ms _ _ _ _ (sym (delivered-append s.sent m)) refl
      (delivers f (view p s) ms m (rest ++ buffer) h (ap (λ x. todo x ++ buffer) e))
view-Moves f p _ _ ms (replay_fails s m rest why e) fit o h = absurd cc
view-Moves f p _ _ ms (replayed s e) fit o h =
    Feeds-to f ms _ _ _ _ refl (ap (λ x. todo x ++ (s.hub.heap p).messages) e) h
view-Moves f p _ _ ms (context_done s e) fit o h = absurd cc
view-Moves f p _ _ ms (sub_done s e d) fit o h = absurd cc
view-Moves f p _ _ ms (receives s m rest e b) fit o h =
    let waits : todo s.phase ++ (s.hub.heap p).messages ≡ m ∷ rest =
      ap (λ x. todo x ++ (s.hub.heap p).messages) e ∙ b in
    Feeds-to f ms _ _ _ _ (sym (delivered-append s.sent m))
      (sym (
        ap (λ x. todo x ++ ((receive p rest s.hub).heap p).messages) e ∙ receive-rest p rest s.hub))
      (delivers f (view p s) ms m rest h waits)
view-Moves f p _ _ ms (receives_nil s e b c) fit o h =
    Feeds-to f ms _ _ _ _ (sym (delivered-none s.sent)) refl h
view-Moves f p _ _ ms (receive_fails s m rest why e b) fit o h = absurd cc
view-Moves f p _ _ ms (receive_nil_fails s why e b c) fit o h = absurd cc
view-Moves f p _ _ ms (others s a g e) fit o h =
    let grown = (perform-Grown a p s.hub g fit.sound fit.allocated e).messages in
    subst (λ x. Feeds f (ms ++ arrivals a p s.hub) (feed (delivered s.sent) x))
      (append_assoc (todo s.phase) (s.hub.heap p).messages (arrivals a p s.hub)
        ∙ ap (λ x. todo s.phase ++ x) (sym grown))
      (accepts f (view p s) ms (arrivals a p s.hub) h)

run-IsFit : (p : ℕ) (s t : System) (ms : List Message) → Run p s ms t → IsFit p s → IsFit p t
run-IsFit p s _ _ stops f = f
run-IsFit p s _ _ (moves t u ms r m) f = Moves-IsFit p t u m (run-IsFit p s t ms r f)

run-Feeds :
    (p : ℕ) (s t : System) (ms : List Message)
    → Run p s ms t
    → IsFit p s
    → is_ongoing t.phase ≡ true
    → Feeds (view p s) ms (view p t)
run-Feeds p s _ _ stops f o = rests (view p s)
run-Feeds p s _ _ (moves t u ms r m) f o =
    view-Moves (view p s) p t u ms m (run-IsFit p s t ms r f) o
      (run-Feeds p s t ms r f (is_ongoing-before p t u m o))

-- A stream that has not ended refines a queue, from sound subscribers on: nothing is lost, doubled or
-- moved.
pub run-in_order :
    (p : ℕ) (s t : System) (ms : List Message)
    → IsSound s.hub
    → p < s.hub.next
    → Run p s ms t
    → is_ongoing t.phase ≡ true
    → Feeds (view p s) ms (view p t)
      × (delivered t.sent ++ (todo t.phase ++ (t.hub.heap p).messages)
          ≡ delivered s.sent ++ (todo s.phase ++ (s.hub.heap p).messages) ++ ms)
unfolding view
run-in_order p s t ms sound b r o =
    let feeds = run-Feeds p s t ms r (record { sound = sound; allocated = b }) o in
    (feeds, Feeds-in_order (view p s) (view p t) ms feeds)
