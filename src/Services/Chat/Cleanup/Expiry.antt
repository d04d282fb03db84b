-- ===== src/Services/Chat/Cleanup/Expiry.antt =====
-- Whom a tick of cleanupInactiveSubscribers of internal/services/chat_service.go leaves registered.
use mathlib.Core.Path.{subst}
use based_backend.Prelude.{
  ℕ, ◌≡◌, refl, sym, ap, ◌∙◌, List, [], ◌∷◌, true, false, not, ◌&&◌, ◌==◌, ◌⊎◌, some, Bool-cases,
  inl, inr, arith, ==_iff, if◌then◌else◌, length,
}
use based_backend.Types.{Bytes, Time, bytes_eq, eq_of_bytes_eq}
use based_backend.Services.Chat.Hub.{Subscriber, Hub, ends, member, loaded, store_or_delete}
use based_backend.Services.Chat.Hub.Sound.{NoRepeat, Registered, IsSound}
use based_backend.Services.Chat.Hub.Removal.{
  fewer-IsSound, store_or_delete-loaded, store_or_delete-heap, store_or_delete-next,
}
use based_backend.Services.Chat.Cleanup.{is_active, sweep_loaded}
use based_backend.Services.Chat.Cleanup.Alone.{kept, fate, shut, AllOpen, swept, sweep-ends}

member-kept :
    (now : Time) (heap : ℕ → Subscriber) (q : ℕ) (ps : List ℕ)
    → member q (kept now heap ps) ≡ true
    → (member q ps ≡ true) × (is_active now (heap q) ≡ true)
unfolding kept member
member-kept now heap q [] m = absurd cc
member-kept now heap q (p ∷ ps) m = elim (Bool-cases (is_active now (heap p))) [
  | inl young ↦ elim (Bool-cases (p == q)) [
    | inl e ↦
        let eq : p ≡ q = (==_iff p q).0 e in
        (rw e refl, subst (λ x. is_active now (heap x) ≡ true) eq young)
    | inr e ↦
        let (there, active) = member-kept now heap q ps (rw e at (rw young at m)) in
        (rw e there, active)
  ]
  | inr old ↦
      let (there, active) = member-kept now heap q ps (rw old at m) in (ground arith, active)
]

kept-member :
    (now : Time) (heap : ℕ → Subscriber) (q : ℕ) (ps : List ℕ)
    → member q ps ≡ true
    → is_active now (heap q) ≡ true
    → member q (kept now heap ps) ≡ true
unfolding kept member
kept-member now heap q [] m a = m
kept-member now heap q (p ∷ ps) m a = elim (Bool-cases (is_active now (heap p))) [
  | inl young ↦ rw young (elim (Bool-cases (p == q)) [
    | inl e ↦ rw e refl
    | inr e ↦ rw e (kept-member now heap q ps (rw e at m) a)
  ])
  | inr old ↦ rw old (elim (Bool-cases (p == q)) [
    | inl e ↦
        let eq : p ≡ q = (==_iff p q).0 e in
        absurd (let clash = sym a ∙ ap (λ x. is_active now (heap x)) (sym eq) ∙ old in cc)
    | inr e ↦ kept-member now heap q ps (rw e at m) a
  ])
]

kept-NoRepeat :
    (now : Time) (heap : ℕ → Subscriber) (ps : List ℕ) → NoRepeat ps → NoRepeat (kept now heap ps)
unfolding kept
kept-NoRepeat now heap [] n = n
kept-NoRepeat now heap (p ∷ ps) n = elim (Bool-cases (is_active now (heap p))) [
  | inl young ↦
      rw young (absent (Bool-cases (member p (kept now heap ps))), kept-NoRepeat now heap ps n.1)
  | inr old ↦ rw old (kept-NoRepeat now heap ps n.1)
]
  where
    absent :
        (member p (kept now heap ps) ≡ true) ⊎ (member p (kept now heap ps) ≡ false)
        → member p (kept now heap ps) ≡ false
    absent (inl m) =
        let (there, _) = member-kept now heap p ps m in absurd (let clash = sym there ∙ n.0 in cc)
    absent (inr m) = m

fate-keeps :
    {A : Type 0} (f : Subscriber → A) (now : Time) (ps : List ℕ) (heap : ℕ → Subscriber) (q : ℕ)
    → f (shut (heap q)) ≡ f (heap q)
    → f (fate now ps heap q) ≡ f (heap q)
unfolding fate
fate-keeps f now ps heap q same = elim (Bool-cases (member q ps && not (is_active now (heap q)))) [
  | inl e ↦ rw e same
  | inr e ↦ rw e refl
]

-- A registered subscriber of the key is left as it is, if it stays registered.
module _ (now : Time) (key : Bytes) (subs : List ℕ) (h : Hub) (at : h.subscribers key ≡ some subs)
    (s : IsSound h) where
  abbrev pub after_sweep : Hub
  after_sweep = store_or_delete key (kept now h.heap subs) (swept now subs h)

  subs-NoRepeat : NoRepeat subs
  subs-NoRepeat = rw at at (s.once key)

  subs-AllOpen : AllOpen subs h.heap
  unfolding AllOpen
  subs-AllOpen p m = s.opened key p (rw at m)

  pub sweep_loaded-ends : sweep_loaded now key (h.subscribers key) h ≡ ends after_sweep
  unfolding sweep_loaded
  sweep_loaded-ends = rw at (sweep-ends now key subs [] h subs-NoRepeat subs-AllOpen)

  shape :
      (k : Bytes)
      → loaded (after_sweep.subscribers k)
        ≡ (if bytes_eq k key then kept now h.heap subs else loaded (h.subscribers k))
  unfolding swept
  shape k = store_or_delete-loaded key (kept now h.heap subs) (swept now subs h) k

  after_sweep-heap : (q : ℕ) → after_sweep.heap q ≡ fate now subs h.heap q
  unfolding swept
  after_sweep-heap q = rw (store_or_delete-heap key (kept now h.heap subs) (swept now subs h)) refl

  -- Who is registered after the sweep was before, and is young if it is of the key.
  pub stays :
      (k : Bytes) (q : ℕ)
      → Registered after_sweep k q
      → Registered h k q × (bytes_eq k key ≡ true → is_active now (h.heap q) ≡ true)
  stays k q r = elim (Bool-cases (bytes_eq k key)) [
    | inl e ↦
        let (m, young) = member-kept now h.heap q subs (rw e at (rw (shape k) at r)) in
        (subst (λ x. Registered h x q) (sym (eq_of_bytes_eq k key e)) (rw at m), λ _. young)
    | inr e ↦ (rw e at (rw (shape k) at r), λ same. absurd (let clash = sym same ∙ e in cc))
  ]

  pub stays_back :
      (k : Bytes) (q : ℕ)
      → Registered h k q
      → (bytes_eq k key ≡ true → is_active now (h.heap q) ≡ true)
      → Registered after_sweep k q
  stays_back k q r young = elim (Bool-cases (bytes_eq k key)) [
    | inl e ↦
        let r' : Registered h key q = subst (λ x. Registered h x q) (eq_of_bytes_eq k key e) r in
        rw (shape k, e) (kept-member now h.heap q subs (rw at at r') (young e))
    | inr e ↦ rw (shape k, e) r
  ]

  untouched : (k : Bytes) (q : ℕ) → Registered after_sweep k q → fate now subs h.heap q ≡ h.heap q
  unfolding fate
  untouched k q r =
      let (r', young) = stays k q r in
      elim (Bool-cases (member q subs)) [
        | inl m ↦ let active = young (s.apart k key q r' (rw at m)) in rw (m, active) refl
        | inr m ↦ rw m refl
      ]

  pub after_sweep-IsSound : IsSound after_sweep
  unfolding swept
  after_sweep-IsSound =
      fewer-IsSound h after_sweep key (kept now h.heap subs) shape
        (λ q m. let (there, _) = member-kept now h.heap q subs m in rw at there)
        (kept-NoRepeat now h.heap subs subs-NoRepeat)
        (λ k q r.
          let same = after_sweep-heap q ∙ untouched k q r in
          (ap (λ x. x.messages_closed) same, ap (λ x. x.done_closed) same))
        (store_or_delete-next key (kept now h.heap subs) (swept now subs h))
        (λ q.
          let same =
            ap (λ x. length x.messages) (after_sweep-heap q)
            ∙ fate-keeps (λ x. length x.messages) now subs h.heap q refl in
          rw same (s.bounded q))
        s

  pub after_sweep-is_active :
      (q : ℕ) → is_active now (after_sweep.heap q) ≡ is_active now (h.heap q)
  unfolding is_active
  after_sweep-is_active q =
      ap (is_active now) (after_sweep-heap q) ∙ fate-keeps (is_active now) now subs h.heap q refl

  pub after_sweep-messages : (q : ℕ) → (after_sweep.heap q).messages ≡ (h.heap q).messages
  after_sweep-messages q =
      ap (λ x. x.messages) (after_sweep-heap q)
      ∙ fate-keeps (λ x. x.messages) now subs h.heap q refl

  pub after_sweep-next : after_sweep.next ≡ h.next
  unfolding swept
  after_sweep-next = store_or_delete-next key (kept now h.heap subs) (swept now subs h)
