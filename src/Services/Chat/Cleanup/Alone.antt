-- ===== src/Services/Chat/Cleanup/Alone.antt =====
-- A tick of cleanupInactiveSubscribers of internal/services/chat_service.go that is left alone: it
-- keeps the subscribers sound, and unregisters those that are too old.
use mathlib.Core.Path.{subst}
use mathlib.Core.List.{append_assoc, append-nil}
use based_backend.Prelude.{
  ℕ, ◌≡◌, refl, sym, ap, ◌∙◌, List, [], ◌∷◌, ◌++◌, true, false, not, ◌&&◌, ◌==◌, Bool-cases, inl,
  inr, arith, ==_iff, if◌then◌else◌,
}
use based_backend.Types.{Bytes, Time}
use based_backend.Services.Chat.Hub.{
  Subscriber, Hub, ends, member, put, close_channels, store_or_delete,
}
use based_backend.Services.Chat.Hub.Sound.{NoRepeat, put-same}
use based_backend.Services.Chat.Cleanup.{is_active, sweep}

abbrev pub shut : Subscriber → Subscriber
shut s = record s { done_closed = true; messages_closed = true }

-- The subscribers of the list that stay.
unfoldable pub kept : Time → (ℕ → Subscriber) → List ℕ → List ℕ
kept now heap [] = []
kept now heap (p ∷ ps) =
    let rest = kept now heap ps in if is_active now (heap p) then p ∷ rest else rest

-- What becomes of the subscribers of the list.
unfoldable pub fate : Time → List ℕ → (ℕ → Subscriber) → ℕ → Subscriber
fate now ps heap q = if member q ps && not (is_active now (heap q)) then shut (heap q) else heap q

unfoldable pub AllOpen : List ℕ → (ℕ → Subscriber) → Type 0
AllOpen ps heap =
    (p : ℕ)
    → member p ps ≡ true
    → ((heap p).messages_closed ≡ false) × ((heap p).done_closed ≡ false)

fate-active :
    (now : Time) (p : ℕ) (ps : List ℕ) (heap : ℕ → Subscriber) (q : ℕ)
    → is_active now (heap p) ≡ true
    → fate now (p ∷ ps) heap q ≡ fate now ps heap q
unfolding fate member
fate-active now p ps heap q a = elim (Bool-cases (p == q)) [
  | inl e ↦
      let eq : p ≡ q = (==_iff p q).0 e in
      let a' : is_active now (heap q) ≡ true = ap (λ x. is_active now (heap x)) (sym eq) ∙ a in
      rw a' ground arith
  | inr e ↦ rw e refl
]

fate-shut :
    (now : Time) (p : ℕ) (ps : List ℕ) (h : Hub) (q : ℕ)
    → member p ps ≡ false
    → is_active now (h.heap p) ≡ false
    → fate now (p ∷ ps) h.heap q ≡ fate now ps (put p (shut (h.heap p)) h).heap q
unfolding fate member is_active
fate-shut now p ps h q absent old = elim (Bool-cases (p == q)) [
  | inl e ↦
      let self : (p == p) ≡ true = ground arith in
      subst (λ x. fate now (p ∷ ps) h.heap x ≡ fate now ps (put p (shut (h.heap p)) h).heap x)
        ((==_iff p q).0 e) (rw (self, absent, old) refl)
  | inr e ↦ let e' : (q == p) ≡ false = ground arith in rw (e, e') refl
]

kept-put :
    (now : Time) (p : ℕ) (ps : List ℕ) (h : Hub)
    → kept now (put p (shut (h.heap p)) h).heap ps ≡ kept now h.heap ps
unfolding kept is_active
kept-put now p [] h = refl
kept-put now p (q ∷ ps) h =
    let same = put-same (is_active now) p (shut (h.heap p)) h q refl in
    rw (same, kept-put now p ps h) refl

unfoldable pub swept : Time → List ℕ → Hub → Hub
swept now ps h = record h { heap = fate now ps h.heap }

close_channels-put :
    (p : ℕ) (h : Hub)
    → (h.heap p).messages_closed ≡ false
    → (h.heap p).done_closed ≡ false
    → close_channels p h ≡ ends (put p (shut (h.heap p)) h)
unfolding close_channels
close_channels-put p h m d = rw (close_channels, m, d) refl

AllOpen-put :
    (p : ℕ) (ps : List ℕ) (h : Hub) (s : Subscriber)
    → member p ps ≡ false
    → AllOpen (p ∷ ps) h.heap
    → AllOpen ps (put p s h).heap
unfolding AllOpen member
AllOpen-put p ps h s absent o q m = elim (Bool-cases (q == p)) [
  | inl e ↦
      let clash : true ≡ false = sym m ∙ ap (λ x. member x ps) ((==_iff q p).0 e) ∙ absent in
      absurd cc
  | inr e ↦ let e' : (p == q) ≡ false = ground arith in rw e (o q (rw e' m))
]

AllOpen-head :
    (p : ℕ) (ps : List ℕ) (heap : ℕ → Subscriber)
    → AllOpen (p ∷ ps) heap
    → ((heap p).messages_closed ≡ false) × ((heap p).done_closed ≡ false)
unfolding AllOpen member
AllOpen-head p ps heap o = let self : (p == p) ≡ true = ground arith in o p (rw self refl)

AllOpen-tail :
    (p : ℕ) (ps : List ℕ) (heap : ℕ → Subscriber) → AllOpen (p ∷ ps) heap → AllOpen ps heap
unfolding AllOpen member
AllOpen-tail p ps heap o q m = o q (ground arith)

sweep-nothing :
    (now : Time) (key : Bytes) (active : List ℕ) (h : Hub)
    → sweep now key [] active h
      ≡ ends (store_or_delete key (active ++ kept now h.heap []) (swept now [] h))
unfolding sweep kept swept fate member
sweep-nothing now key active h = rw (append-nil active) refl

-- The loop, from any point on.
pub sweep-ends :
    (now : Time) (key : Bytes) (ps active : List ℕ) (h : Hub)
    → NoRepeat ps
    → AllOpen ps h.heap
    → sweep now key ps active h
      ≡ ends (store_or_delete key (active ++ kept now h.heap ps) (swept now ps h))
unfolding sweep kept swept
sweep-ends now key [] active h n o = sweep-nothing now key active h
sweep-ends now key (p ∷ ps) active h n o = elim (Bool-cases (is_active now (h.heap p))) [
  | inl young ↦ rw young (
      sweep-ends now key ps (active ++ p ∷ []) h n.1 (AllOpen-tail p ps h.heap o) ∙ λ i. ends (
        store_or_delete key (append_assoc active (p ∷ []) (kept now h.heap ps) i)
          (record h { heap = λ q. sym (fate-active now p ps h.heap q young) i })))
  | inr old ↦
      let (m, d) = AllOpen-head p ps h.heap o in
      rw (old, close_channels-put p h m d)
        (sweep-ends now key ps active (put p (shut (h.heap p)) h) n.1 (AllOpen-put p ps h _ n.0 o)
          ∙ λ i. ends (
              store_or_delete key (active ++ kept-put now p ps h i)
                (record h { heap = λ q. sym (fate-shut now p ps h q n.0 old) i })))
]
