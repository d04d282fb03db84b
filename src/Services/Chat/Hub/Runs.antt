-- ===== src/Services/Chat/Hub/Runs.antt =====
-- Sequences of addSubscriber, removeSubscriber, broadcastMessage and ticks of
-- cleanupInactiveSubscribers of internal/services/chat_service.go.
use based_backend.Services.Chat.Hub.Sound.{
  NoRepeat, Registered, IsSound, put-Bounded, broadcast_message-IsSound,
}
use based_backend.Services.Chat.Hub.Removal.{remove_subscriber-IsSound}
use based_backend.Proto.Messages.{Message}
use based_backend.Services.Chat.Cleanup.{cleanup_inactive_subscribers}
use based_backend.Services.Chat.Cleanup.Tick.{cleanup_inactive_subscribers-IsCleaned}
use based_backend.Types.{Bytes, Time, bytes_eq, bytes_eq_refl, eq_of_bytes_eq}
use mathlib.Core.Path.{subst}
use based_backend.Services.Chat.Hub.{
  member, loaded, Subscriber, Hub, Step, then_do, add_subscriber, remove_subscriber,
  broadcast_message, ends,
}
use based_backend.Prelude.{
  ◌<◌, ℕ, ◌≡◌, refl, ◌⊎◌, true, false, List, [], ◌∷◌, ◌++◌, arith, ◌==◌, Bool-cases, suc, sym, ◌∙◌,
  inl, inr, Bool,
}

member-append :
    (q p : ℕ) (ps : List ℕ) → member q (ps ++ p ∷ []) ≡ true → (member q ps ≡ true) ⊎ (q ≡ p)
unfolding member
member-append q p [] m = ground arith
member-append q p (r ∷ ps) m = ground (arith, member-append q p ps)

append-NoRepeat :
    (p : ℕ) (ps : List ℕ) → member p ps ≡ false → NoRepeat ps → NoRepeat (ps ++ p ∷ [])
unfolding member
append-NoRepeat p [] m n = (refl, tt)
append-NoRepeat p (r ∷ ps) m n =
    let differs : (r == p) ≡ false = ground arith in
    let absent : member p ps ≡ false = ground arith in
    (not_last r p ps differs n.0, append-NoRepeat p ps absent n.1)
  where
    not_last :
        (r p : ℕ) (ps : List ℕ)
        → (r == p) ≡ false
        → member r ps ≡ false
        → member r (ps ++ p ∷ []) ≡ false
    not_last r p ps d a = elim (Bool-cases (member r (ps ++ p ∷ []))) [
      | inl e ↦ elim (member-append r p ps e) [ inl f ↦ ground arith | inr f ↦ ground arith ]
      | inr e ↦ e
    ]

-- A new subscriber: open channels, and an empty buffer.
abbrev IsNew : Subscriber → Type 0
IsNew s = (s.messages ≡ []) × (s.messages_closed ≡ false) × (s.done_closed ≡ false)

module _ (key : Bytes) (new : Subscriber) (h : Hub) (n : IsNew new) (s : IsSound h) where
  abbrev added : Hub
  added = add_subscriber key new h

  added-Registered :
      (k : Bytes) (q : ℕ)
      → Registered added k q
      → (Registered h k q) ⊎ ((q ≡ h.next) × (bytes_eq k key ≡ true))
  unfolding add_subscriber
  added-Registered k q r = elim (Bool-cases (bytes_eq k key)) [
    | inl e ↦ elim (member-append q h.next (loaded (h.subscribers key)) (rw e at r)) [
      | inl m ↦ inl (subst (λ x. Registered h x q) (sym (eq_of_bytes_eq k key e)) m)
      | inr eq ↦ inr (eq, e)
    ]
    | inr e ↦ inl (rw e at r)
  ]

  old_differs : (k : Bytes) (q : ℕ) → Registered h k q → (q == h.next) ≡ false
  old_differs k q r = let b = s.below k q r in ground arith

  added-flag :
      (f : Subscriber → Bool) (k : Bytes) (q : ℕ)
      → ((p : ℕ) → Registered h k p → f (h.heap p) ≡ false)
      → f new ≡ false
      → Registered added k q
      → f (added.heap q) ≡ false
  unfolding add_subscriber
  added-flag f k q old fresh r = elim (added-Registered k q r) [
    | inl r' ↦ rw (old_differs k q r') (old q r')
    | inr (eq, e) ↦ let same : (q == h.next) ≡ true = ground arith in rw same fresh
  ]

  next_absent : member h.next (loaded (h.subscribers key)) ≡ false
  next_absent = elim (Bool-cases (member h.next (loaded (h.subscribers key)))) [
    | inl m ↦ let b = s.below key h.next m in ground arith
    | inr m ↦ m
  ]

  added-once : (k : Bytes) → NoRepeat (loaded (added.subscribers k))
  unfolding add_subscriber
  added-once k = elim (Bool-cases (bytes_eq k key)) [
    | inl e ↦ rw e (append-NoRepeat h.next _ next_absent (s.once key))
    | inr e ↦ rw e (s.once k)
  ]

  added-apart :
      (k l : Bytes) (q : ℕ) → Registered added k q → Registered added l q → bytes_eq k l ≡ true
  added-apart k l q r r' = elim (added-Registered k q r) [
    | inl o ↦ elim (added-Registered l q r') [
      | inl o' ↦ s.apart k l q o o'
      | inr (eq, e) ↦ let b = s.below k q o in ground arith
    ]
    | inr (eq, e) ↦ elim (added-Registered l q r') [
      | inl o ↦ let b = s.below l q o in ground arith
      | inr (eq', e') ↦ same_key (eq_of_bytes_eq k key e) (eq_of_bytes_eq l key e')
    ]
  ]
    where
      same_key : {k l : Bytes} → k ≡ key → l ≡ key → bytes_eq k l ≡ true
      same_key {k} {l} e e' = subst (λ x. bytes_eq k x ≡ true) (e ∙ sym e') (bytes_eq_refl k)

  added-below : (k : Bytes) (q : ℕ) → Registered added k q → q < suc h.next
  added-below k q r = elim (added-Registered k q r) [
    | inl o ↦ let b = s.below k q o in ground arith
    | inr (eq, e) ↦ ground arith
  ]

  pub add_subscriber-IsSound : IsSound added
  unfolding add_subscriber
  add_subscriber-IsSound = record {
    opened = λ k q r. (
      added-flag (λ x. x.messages_closed) k q (λ p o. (s.opened k p o).0) n.1 r,
      added-flag (λ x. x.done_closed) k q (λ p o. (s.opened k p o).1) n.2 r,
    );
    below = added-below;
    once = added-once;
    apart = added-apart;
    bounded = put-Bounded h.next new h (rw (n.0) (ground arith)) s.bounded;
  }

-- What the goroutines of the service do to the subscribers, one after another. A tick of the cleanup,
-- with the keys that its Range visits, is an action if it is left alone.
pub data Action : Type 0 where
  register : (key : Bytes) (s : Subscriber) → IsNew s → Action
  unregister : Bytes → ℕ → Action
  publish : Message → Action
  clean : Time → List Bytes → Action

unfoldable pub perform : Action → Hub → Step
perform (register key s new) h = ends (add_subscriber key s h)
perform (unregister key p) h = remove_subscriber key p h
perform (publish msg) h = broadcast_message msg h
perform (clean now keys) h = cleanup_inactive_subscribers now keys h

pub perform_all : List Action → Hub → Step
perform_all [] h = ends h
perform_all (a ∷ as') h = then_do (perform a h) (perform_all as')

pub perform-IsSound :
    (a : Action) (h : Hub) → IsSound h → (g : Hub) × (perform a h ≡ ends g) × IsSound g
unfolding perform
perform-IsSound (register key new n) h s = (_, refl, add_subscriber-IsSound key new h n s)
perform-IsSound (unregister key p) h s = remove_subscriber-IsSound key p h s
perform-IsSound (publish msg) h s = broadcast_message-IsSound msg h s
perform-IsSound (clean now keys) h s =
    let (g, e, c) = cleanup_inactive_subscribers-IsCleaned now keys h s in (g, e, c.sound)

-- From subscribers with open channels, no double registration and at most 100 buffered messages
-- each, no sequence of registrations of new subscribers, removals, broadcasts and ticks of the
-- cleanup, each run to its end before the next, makes a goroutine panic, by a send to a closed channel
-- or a second close, and every sequence ends with such subscribers.
pub perform_all-IsSound :
    (as' : List Action) (h : Hub) → IsSound h → (g : Hub) × (perform_all as' h ≡ ends g) × IsSound g
unfolding perform_all
perform_all-IsSound [] h s = (h, refl, s)
perform_all-IsSound (a ∷ as') h s =
    let (g, e, t) = perform-IsSound a h s in
    let (f, e', t') = perform_all-IsSound as' g t in (f, rw e e', t')
