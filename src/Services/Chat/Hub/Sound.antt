-- ===== src/Services/Chat/Hub/Sound.antt =====
-- The subscribers of internal/services/chat_service.go under any sequence of addSubscriber,
-- removeSubscriber and broadcastMessage: no goroutine panics, and no buffer overflows.
use mathlib.Core.Path.{subst}
use based_backend.Services.Chat.Hub.{member, capacity, put}
use based_backend.Services.Chat.Hub.{
  Hub, Step, loaded, offer, ends, panics, Subscriber, then_do, offer_all, broadcast_message,
}
use based_backend.Proto.Messages.{Message}
use based_backend.Types.{Bytes, bytes_eq}
use based_backend.Prelude.{
  ◌≤◌, ◌<◌, ltb, ◌==◌, Bool-cases, length, ℕ, ◌≡◌, refl, ◌∙◌, inl, inr, true, false, List, [], ◌∷◌,
  ==_iff, length-append, sym, ap, ◌++◌, arith, if◌then◌else◌, Bool,
}

abbrev pub NoRepeat : List ℕ → Type 0
NoRepeat [] = Unit {0}
NoRepeat (p ∷ ps) = (member p ps ≡ false) × NoRepeat ps

-- The subscriber `p` is registered under a key.
abbrev pub Registered : Hub → Bytes → ℕ → Type 0
Registered h key p = member p (loaded (h.subscribers key)) ≡ true

-- Registered subscribers have open channels, are registered once, and no buffer holds more than the
-- channel's capacity.
pub record IsSound (h : Hub) : Type 0 where
  pub opened :
      (key : Bytes) (p : ℕ)
      → Registered h key p
      → ((h.heap p).messages_closed ≡ false) × ((h.heap p).done_closed ≡ false)
  pub below : (key : Bytes) (p : ℕ) → Registered h key p → p < h.next
  pub once : (key : Bytes) → NoRepeat (loaded (h.subscribers key))
  pub apart :
      (k key : Bytes) (p : ℕ) → Registered h k p → Registered h key p → bytes_eq k key ≡ true
  pub bounded : (p : ℕ) → length (h.heap p).messages ≤ capacity

-- `g` has the registrations and the flags of `h`.
record Alike (h g : Hub) : Type 0 where
  subscribers : g.subscribers ≡ h.subscribers
  next : g.next ≡ h.next
  messages_closed : (p : ℕ) → (g.heap p).messages_closed ≡ (h.heap p).messages_closed
  done_closed : (p : ℕ) → (g.heap p).done_closed ≡ (h.heap p).done_closed

Alike-refl : (h : Hub) → Alike h h
Alike-refl h = record {
  subscribers = refl;
  next = refl;
  messages_closed = λ p. refl;
  done_closed = λ p. refl;
}

Alike-trans : (h g f : Hub) → Alike h g → Alike g f → Alike h f
Alike-trans h g f a b = record {
  subscribers = b.subscribers ∙ a.subscribers;
  next = b.next ∙ a.next;
  messages_closed = λ p. b.messages_closed p ∙ a.messages_closed p;
  done_closed = λ p. b.done_closed p ∙ a.done_closed p;
}

Alike-again : (h : Hub) {pending : List (Bytes × ℕ)} → Alike h (record h { pending = pending })
Alike-again h = record {
  subscribers = refl;
  next = refl;
  messages_closed = λ p. refl;
  done_closed = λ p. refl;
}

abbrev pub Bounded : Hub → Type 0
Bounded h = (p : ℕ) → length (h.heap p).messages ≤ capacity

abbrev Offered : Hub → Step → Type 0
Offered h (ends g) = Alike h g × Bounded g
Offered h (panics g) = ⊥

Alike-Registered :
    (h g : Hub) → Alike h g → (key : Bytes) (p : ℕ) → Registered g key p → Registered h key p
Alike-Registered h g a key p r = ap (λ f. member p (loaded (f key))) (sym a.subscribers) ∙ r

Alike-IsSound : (h g : Hub) → Alike h g → Bounded g → IsSound h → IsSound g
Alike-IsSound h g a b s = record {
  opened = λ key p r.
      let (m, d) = s.opened key p (Alike-Registered h g a key p r) in
      (a.messages_closed p ∙ m, a.done_closed p ∙ d);
  below = λ key p r. rw a.next (s.below key p (Alike-Registered h g a key p r));
  once = λ key. subst (λ f. NoRepeat (loaded (f key))) (sym a.subscribers) (s.once key);
  apart = λ k key p r r'.
      s.apart k key p (Alike-Registered h g a k p r) (Alike-Registered h g a key p r');
  bounded = b;
}

pub put-same :
    {A : Type 0} (f : Subscriber → A) (p : ℕ) (s : Subscriber) (h : Hub) (q : ℕ)
    → f s ≡ f (h.heap p)
    → f ((put p s h).heap q) ≡ f (h.heap q)
put-same f p s h q same = elim (Bool-cases (q == p)) [
  | inl e ↦ let eq : q ≡ p = (==_iff q p).0 e in rw e (same ∙ ap (λ x. f (h.heap x)) (sym eq))
  | inr e ↦ rw e refl
]

pub put-Bounded :
    (p : ℕ) (s : Subscriber) (h : Hub)
    → length s.messages ≤ capacity
    → Bounded h
    → Bounded (put p s h)
put-Bounded p s h small b q = elim (Bool-cases (q == p)) [ inl e ↦ rw e small | inr e ↦ rw e (b q) ]

-- Taking messages out of a buffer.
pub shorter-IsSound :
    (p : ℕ) (rest : List Message) (h : Hub)
    → length rest ≤ capacity
    → IsSound h
    → IsSound (put p (record (h.heap p) { messages = rest }) h)
shorter-IsSound p rest h small s =
    let t = record (h.heap p) { messages = rest } in
    Alike-IsSound h (put p t h)
      (record {
        subscribers = refl;
        next = refl;
        messages_closed = λ q. put-same (λ x. x.messages_closed) p t h q refl;
        done_closed = λ q. put-same (λ x. x.done_closed) p t h q refl;
      })
      (put-Bounded p t h small s.bounded) s

if_open-Offered :
    (closed room : Bool) (h : Hub) (s t : Step)
    → closed ≡ false
    → (room ≡ true → Offered h s)
    → Offered h t
    → Offered h (if closed then panics h else if room then s else t)
if_open-Offered true room h s t e k l = ground arith
if_open-Offered false true h s t e k l = k refl
if_open-Offered false false h s t e k l = l

offer-Offered :
    (msg : Message) (p : ℕ) (h : Hub)
    → (h.heap p).messages_closed ≡ false
    → Bounded h
    → Offered h (offer msg p h)
unfolding offer
offer-Offered msg p h o b =
    let s = record (h.heap p) { messages = (h.heap p).messages ++ msg ∷ [] } in
    if_open-Offered _ (ltb (length (h.heap p).messages) capacity) h (ends (put p s h))
      (ends (record h { pending = h.pending ++ (msg.event_id, p) ∷ [] })) o
      (λ room. (
        record {
          subscribers = refl;
          next = refl;
          messages_closed = λ q. put-same (λ x. x.messages_closed) p s h q refl;
          done_closed = λ q. put-same (λ x. x.done_closed) p s h q refl;
        },
        put-Bounded p s h (rw (length-append (h.heap p).messages (msg ∷ [])) (ground arith)) b,
      ))
      (Alike-again h, b)

AllOpen : Hub → List ℕ → Type 0
AllOpen h ps = (p : ℕ) → member p ps ≡ true → (h.heap p).messages_closed ≡ false

then_do-Offered :
    (h : Hub) (s : Step) (f : Hub → Step)
    → Offered h s
    → ((g : Hub) → Alike h g → Bounded g → Offered g (f g))
    → Offered h (then_do s f)
then_do-Offered h (ends g) f (a, b) k = widen g a (f g) (k g a b)
  where
    widen : (g : Hub) → Alike h g → (s : Step) → Offered g s → Offered h s
    widen g a (ends e) (c, b) = (Alike-trans h g e a c, b)
    widen g a (panics e) c = c
then_do-Offered h (panics g) f o k = o

offer_all-Offered :
    (msg : Message) (ps : List ℕ) (h : Hub)
    → AllOpen h ps
    → Bounded h
    → Offered h (offer_all msg ps h)
unfolding offer_all AllOpen member
offer_all-Offered msg [] h o b = (Alike-refl h, b)
offer_all-Offered msg (p ∷ ps) h o b =
    then_do-Offered h (offer msg p h) (offer_all msg ps)
      (offer-Offered msg p h (o p (rw (self p) refl)) b)
      λ g a b'. offer_all-Offered msg ps g (λ q m. a.messages_closed q ∙ o q (later q p ps m)) b'
  where
    self : (p : ℕ) → (p == p) ≡ true
    self p = ground arith

    later : (q p : ℕ) (ps : List ℕ) → member q ps ≡ true → member q (p ∷ ps) ≡ true
    later q p ps m = ground arith

-- A broadcast never panics, and keeps the subscribers sound.
pub broadcast_message-IsSound :
    (msg : Message) (h : Hub)
    → IsSound h
    → (g : Hub) × (broadcast_message msg h ≡ ends g) × IsSound g
unfolding broadcast_message AllOpen
broadcast_message-IsSound msg h s = go (broadcast_message msg h) (
    offer_all-Offered msg (loaded (h.subscribers msg.event_id)) h
      (λ p m. (s.opened msg.event_id p m).0) s.bounded)
  where
    go : (t : Step) → Offered h t → (g : Hub) × (t ≡ ends g) × IsSound g
    go (ends g) (a, b) = (g, refl, Alike-IsSound h g a b s)
    go (panics g) o = absurd o
