-- ===== src/Services/Chat/Hub/Buffers.antt =====
-- What an action on the subscribers of internal/services/chat_service.go adds to a buffer.
use mathlib.Core.Path.{subst}
use mathlib.Core.List.{append-nil}
use based_backend.Prelude.{
  ℕ, ◌<◌, ◌≡◌, refl, sym, ap, ◌∙◌, List, [], ◌∷◌, ◌++◌, Bool, true, false, ◌&&◌, ◌||◌, ◌⊎◌, ◌==◌,
  ltb, length, if◌then◌else◌, Bool-cases, Option-cases, inl, inr, arith, ==_iff,
}
use based_backend.Services.Chat.Cleanup.Tick.{cleanup_inactive_subscribers-IsCleaned}
use based_backend.Types.{Bytes}
use based_backend.Proto.Messages.{Message}
use based_backend.Services.Chat.Hub.{
  Subscriber, Hub, Step, ends, panics, then_do, member, put, loaded, capacity, close_channels,
  remove, store_or_delete, add_subscriber, remove_subscriber, offer, offer_all, broadcast_message,
}
use based_backend.Services.Chat.Hub.Sound.{NoRepeat, IsSound, put-same}
use based_backend.Services.Chat.Hub.Removal.{store_or_delete-heap, store_or_delete-next}
use based_backend.Services.Chat.Hub.Runs.{Action, register, unregister, publish, clean, perform}

abbrev has_room : ℕ → Hub → Bool
has_room p h = ltb (length (h.heap p).messages) capacity

-- A broadcast reaches the registered subscribers of its event whose buffer has room.
pub arrivals : Action → ℕ → Hub → List Message
arrivals (register key s new) p h = []
arrivals (unregister key q) p h = []
arrivals (clean now keys) p h = []
arrivals (publish msg) p h =
    if member p (loaded (h.subscribers msg.event_id)) && has_room p h then msg ∷ [] else []

then_do-ends :
    (s : Step) (f : Hub → Step) (g : Hub)
    → then_do s f ≡ ends g
    → (h : Hub) × (s ≡ ends h) × (f h ≡ ends g)
then_do-ends (ends h) f g e = (h, refl, e)
then_do-ends (panics h) f g e = absurd cc

-- `g` differs from `h` for `p` by what has come into its buffer.
pub record Grown (p : ℕ) (new : List Message) (h g : Hub) : Type 0 where
  pub messages : (g.heap p).messages ≡ (h.heap p).messages ++ new
  pub allocated : p < g.next

Grown-ends :
    (p : ℕ) (new : List Message) (h f g : Hub) → ends f ≡ ends g → Grown p new h f → Grown p new h g
Grown-ends p new h f g e k = let same : f ≡ g = cc in subst (Grown p new h) same k

add_subscriber-Grown :
    (key : Bytes) (s : Subscriber) (p : ℕ) (h : Hub)
    → p < h.next
    → Grown p [] h (add_subscriber key s h)
unfolding add_subscriber
add_subscriber-Grown key s p h b =
    let e : (p == h.next) ≡ false = ground arith in
    record { messages = rw e (sym (append-nil _)); allocated = omega (arith, b) }

close_channels-Grown :
    (q p : ℕ) (h g : Hub) → p < h.next → close_channels q h ≡ ends g → Grown p [] h g
unfolding close_channels
close_channels-Grown q p h g b e =
    let t = h.heap q in
    elim (Bool-cases (t.done_closed || t.messages_closed)) [
      | inl shut ↦ absurd (let e' : panics h ≡ ends g = rw shut at e in cc)
      | inr unclosed ↦
          let t' = record t { done_closed = true; messages_closed = true } in
          let e' : ends (put q t' h) ≡ ends g = rw unclosed at e in
          Grown-ends p [] h (put q t' h) g e' (record {
            messages = put-same (λ s. s.messages) q t' h p refl ∙ sym (append-nil _);
            allocated = b;
          })
    ]

store_or_delete-Grown :
    (key : Bytes) (subs : List ℕ) (p : ℕ) (new : List Message) (h g : Hub)
    → Grown p new h g
    → Grown p new h (store_or_delete key subs g)
store_or_delete-Grown key subs p new h g k = record {
  messages = rw (store_or_delete-heap key subs g) k.messages;
  allocated = rw (store_or_delete-next key subs g) k.allocated;
}

remove_subscriber-Grown :
    (key : Bytes) (q p : ℕ) (h g : Hub)
    → p < h.next
    → remove_subscriber key q h ≡ ends g
    → Grown p [] h g
unfolding remove_subscriber
remove_subscriber-Grown key q p h g b e =
    let still : Grown p [] h h = record { messages = sym (append-nil _); allocated = b } in
    elim (Option-cases (h.subscribers key)) [
      | inl unset ↦ Grown-ends p [] h h g (rw (unset, remove_subscriber) at e) still
      | inr (subs, at) ↦ elim (Bool-cases (member q subs)) [
        | inl m ↦
            let (f, shut, e') =
              then_do-ends (close_channels q h)
                (λ h'. ends (store_or_delete key (remove q subs) h')) g
                (rw (at, m, remove_subscriber) at e) in
            Grown-ends p [] h _ g e' (
              store_or_delete-Grown key (remove q subs) p [] h f
                (close_channels-Grown q p h f b shut))
        | inr m ↦
            Grown-ends p [] h _ g (rw (at, m, remove_subscriber) at e)
              (store_or_delete-Grown key subs p [] h h still)
      ]
    ]

Grown-then_nil :
    (p : ℕ) (new : List Message) (h f g : Hub) → Grown p new h f → Grown p [] f g → Grown p new h g
Grown-then_nil p new h f g a b = record {
  messages = b.messages ∙ append-nil _ ∙ a.messages;
  allocated = b.allocated;
}

Grown-nil_then :
    (p : ℕ) (new : List Message) (h f g : Hub) → Grown p [] h f → Grown p new f g → Grown p new h g
Grown-nil_then p new h f g a b = record {
  messages = b.messages ∙ ap (λ x. x ++ new) (a.messages ∙ append-nil _);
  allocated = b.allocated;
}

if_open-ends :
    (shut room : Bool) (h g : Hub) (s t : Step)
    → (if shut then panics h else if room then s else t) ≡ ends g
    → ((room ≡ true) × (s ≡ ends g)) ⊎ ((room ≡ false) × (t ≡ ends g))
if_open-ends true room h g s t e = absurd cc
if_open-ends false true h g s t e = inl (refl, e)
if_open-ends false false h g s t e = inr (refl, e)

-- An offer ends in one of two ways.
abbrev with_message : Message → ℕ → Hub → Hub
with_message msg q h = put q (record (h.heap q) { messages = (h.heap q).messages ++ msg ∷ [] }) h

abbrev with_removal : Message → ℕ → Hub → Hub
with_removal msg q h = record h { pending = h.pending ++ (msg.event_id, q) ∷ [] }

offer-ends :
    (msg : Message) (q : ℕ) (h g : Hub)
    → offer msg q h ≡ ends g
    → ((has_room q h ≡ true) × (ends (with_message msg q h) ≡ ends g))
      ⊎ ((has_room q h ≡ false) × (ends (with_removal msg q h) ≡ ends g))
unfolding offer
offer-ends msg q h g e =
    if_open-ends (h.heap q).messages_closed (has_room q h) h g (ends (with_message msg q h))
      (ends (with_removal msg q h)) e

offer_self :
    (msg : Message) (p : ℕ) (h g : Hub)
    → p < h.next
    → offer msg p h ≡ ends g
    → Grown p (if has_room p h then msg ∷ [] else []) h g
offer_self msg p h g b e = elim (offer-ends msg p h g e) [
  | inl (room, e') ↦
      let self : (p == p) ≡ true = ground arith in
      rw room (
        Grown-ends p (msg ∷ []) h (with_message msg p h) g e'
          (record { messages = rw self refl; allocated = b }))
  | inr (full, e') ↦ rw full (
      Grown-ends p [] h (with_removal msg p h) g e'
        (record { messages = sym (append-nil _); allocated = b }))
]

offer_other :
    (msg : Message) (q p : ℕ) (h g : Hub)
    → (q == p) ≡ false
    → p < h.next
    → offer msg q h ≡ ends g
    → Grown p [] h g
offer_other msg q p h g differs b e =
    let differs' : (p == q) ≡ false = ground arith in
    elim (offer-ends msg q h g e) [
      | inl (room, e') ↦
          Grown-ends p [] h (with_message msg q h) g e'
            (record { messages = rw differs' (sym (append-nil _)); allocated = b })
      | inr (full, e') ↦
          Grown-ends p [] h (with_removal msg q h) g e'
            (record { messages = sym (append-nil _); allocated = b })
    ]

offer_all-Grown :
    (msg : Message) (p : ℕ) (ps : List ℕ) (h g : Hub)
    → NoRepeat ps
    → p < h.next
    → offer_all msg ps h ≡ ends g
    → Grown p (if member p ps && has_room p h then msg ∷ [] else []) h g
unfolding offer_all member
offer_all-Grown msg p [] h g n b e =
    Grown-ends p [] h h g e (record { messages = sym (append-nil _); allocated = b })
offer_all-Grown msg p (q ∷ ps) h g n b e =
    let (f, offered, e') = then_do-ends (offer msg q h) (offer_all msg ps) g e in
    elim (Bool-cases (q == p)) [
      | inl same ↦
          let eq : q ≡ p = (==_iff q p).0 same in
          let absent : member p ps ≡ false = ap (λ x. member x ps) (sym eq) ∙ n.0 in
          let first = offer_self msg p h f b (ap (λ x. offer msg x h) (sym eq) ∙ offered) in
          let rest : Grown p [] f g =
            rw absent at (offer_all-Grown msg p ps f g n.1 first.allocated e') in
          rw same (Grown-then_nil p _ h f g first rest)
      | inr differs ↦
          let first = offer_other msg q p h f differs b offered in
          let rest = offer_all-Grown msg p ps f g n.1 first.allocated e' in
          let room : has_room p f ≡ has_room p h =
            ap (λ x. ltb (length x) capacity) (first.messages ∙ append-nil _) in
          rw differs (Grown-nil_then p _ h f g first (rw room at rest))
    ]

-- An action leaves the buffer of an allocated subscriber as it is, or adds what arrives behind it.
pub perform-Grown :
    (a : Action) (p : ℕ) (h g : Hub)
    → IsSound h
    → p < h.next
    → perform a h ≡ ends g
    → Grown p (arrivals a p h) h g
unfolding perform arrivals broadcast_message
perform-Grown (register key s new) p h g i b e =
    Grown-ends p [] h _ g e (add_subscriber-Grown key s p h b)
perform-Grown (unregister key q) p h g i b e = remove_subscriber-Grown key q p h g b e
perform-Grown (clean now keys) p h g i b e =
    let (f, e', c) = cleanup_inactive_subscribers-IsCleaned now keys h i in
    Grown-ends p [] h f g (sym e' ∙ e)
      (record { messages = c.messages p ∙ sym (append-nil _); allocated = rw c.next b })
perform-Grown (publish msg) p h g i b e = offer_all-Grown msg p _ h g (i.once msg.event_id) b e
