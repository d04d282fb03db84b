-- ===== src/Services/Chat/Cleanup/Race.antt =====
-- A tick of cleanupInactiveSubscribers of internal/services/chat_service.go between whose read of a key
-- and its loop another goroutine removes a subscriber.
use mathlib.Core.Path.{subst}
use based_backend.Prelude.{
  ℕ, ◌≡◌, refl, List, [], ◌∷◌, ◌++◌, true, false, ◌==◌, ◌||◌, not, ◌⊎◌, some, Bool-cases, inl, inr,
  arith, ==_iff, sym, ap, ◌∙◌,
}
use based_backend.Prelude.Int.{leb_sum}
use based_backend.Types.{Bytes, Time}
use based_backend.Services.Chat.Hub.{
  Hub, ends, panics, then_do, member, put, close_channels, remove_subscriber,
}
use based_backend.Services.Chat.Hub.Sound.{IsSound}
use based_backend.Services.Chat.Hub.Removal.{remove_subscriber-closes}
use based_backend.Services.Chat.Cleanup.{is_active, sweep, sweep_loaded, moved_left, overwritten}

-- A subscriber whose channels are closed, and which is too old.
record IsSpent (now : Time) (p : ℕ) (h : Hub) : Type 0 where
  closed : (h.heap p).messages_closed ≡ true
  old : is_active now (h.heap p) ≡ false

close_channels-IsSpent :
    (now : Time) (p q : ℕ) (h : Hub)
    → IsSpent now p h
    → (close_channels q h ≡ panics h)
      ⊎ ((g : Hub) × (close_channels q h ≡ ends g) × ((q == p) ≡ false) × IsSpent now p g)
unfolding close_channels
close_channels-IsSpent now p q h s =
    let t = h.heap q in
    elim (Bool-cases (t.done_closed || t.messages_closed)) [
      | inl e ↦ inl (rw (close_channels, e) refl)
      | inr e ↦
          let shut = record t { done_closed = true; messages_closed = true } in
          let unclosed : t.messages_closed ≡ false = ground arith in
          let differs : (p == q) ≡ false = elim (Bool-cases (p == q)) [
            | inl same ↦
                let eq : p ≡ q = (==_iff p q).0 same in
                let clash : true ≡ false =
                  sym s.closed ∙ ap (λ x. (h.heap x).messages_closed) eq ∙ unclosed in
                absurd cc
            | inr d ↦ d
          ] in
          inr (
            put q shut h,
            rw (close_channels, e) refl,
            ground arith,
            record { closed = rw differs s.closed; old = rw differs s.old },
          )
    ]

sweep-IsSpent :
    (now : Time) (key : Bytes) (p : ℕ) (subs active : List ℕ) (h : Hub)
    → member p subs ≡ true
    → IsSpent now p h
    → (g : Hub) × (sweep now key subs active h ≡ panics g)
unfolding sweep member
sweep-IsSpent now key p [] active h m s = absurd cc
sweep-IsSpent now key p (q ∷ ps) active h m s = elim (Bool-cases (is_active now (h.heap q))) [
  | inl young ↦ rw young (sweep-IsSpent now key p ps (active ++ q ∷ []) h (later young) s)
  | inr old ↦ elim (close_channels-IsSpent now p q h s) [
    | inl e ↦ (h, rw (old, e) refl)
    | inr (g, e, d, t) ↦
        let m' : member p ps ≡ true = rw d at m in
        rw (old, e) (sweep-IsSpent now key p ps active g m' t)
  ]
]
  where
    later : is_active now (h.heap q) ≡ true → member p ps ≡ true
    later young = elim (Bool-cases (q == p)) [
      | inl e ↦
          let eq : q ≡ p = (==_iff q p).0 e in
          let clash : true ≡ false = sym young ∙ ap (λ x. is_active now (h.heap x)) eq ∙ s.old in
          absurd cc
      | inr d ↦ rw d at m
    ]

member-last : (p : ℕ) (ps : List ℕ) → member p (ps ++ p ∷ []) ≡ true
unfolding member
member-last p [] = ground arith
member-last p (q ∷ ps) = ground (arith, member-last p ps)

-- Closing a channel of one subscriber leaves every age.
close_channels-ages :
    (now : Time) (r : ℕ) (h : Hub)
    → (close_channels r h ≡ panics h)
      ⊎ ((g : Hub) × (close_channels r h ≡ ends g)
          × ((g.heap r).messages_closed ≡ true)
          × ((q : ℕ) → is_active now (g.heap q) ≡ is_active now (h.heap q)))
unfolding close_channels is_active
close_channels-ages now r h =
    let t = h.heap r in
    elim (Bool-cases (t.done_closed || t.messages_closed)) [
      | inl e ↦ inl (rw (close_channels, e) refl)
      | inr e ↦
          let shut = record t { done_closed = true; messages_closed = true } in
          let self : (r == r) ≡ true = ground arith in
          inr (
            put r shut h,
            rw (close_channels, e) refl,
            rw self refl,
            λ q. elim (Bool-cases (q == r)) [
              | inl same ↦ rw same (ap (λ x. is_active now (h.heap x)) (sym ((==_iff q r).0 same)))
              | inr differs ↦ rw differs refl
            ],
          )
    ]

-- A subscriber that is too old and stands in the slice twice is closed twice.
sweep-twice :
    (now : Time) (key : Bytes) (q : ℕ) (xs active : List ℕ) (h : Hub)
    → member q xs ≡ true
    → is_active now (h.heap q) ≡ false
    → (g : Hub) × (sweep now key (xs ++ q ∷ []) active h ≡ panics g)
unfolding sweep member
sweep-twice now key q [] active h m old = absurd cc
sweep-twice now key q (r ∷ rs) active h m old = elim (Bool-cases (is_active now (h.heap r))) [
  | inl young ↦ rw young (
      sweep-twice now key q rs (active ++ r ∷ []) h
        (elim (Bool-cases (r == q)) [
          | inl e ↦
              let eq : r ≡ q = (==_iff r q).0 e in
              let clash : true ≡ false = sym young ∙ ap (λ x. is_active now (h.heap x)) eq ∙ old in
              absurd cc
          | inr d ↦ rw d at m
        ])
        old)
  | inr spent ↦ elim (close_channels-ages now r h) [
    | inl e ↦ (h, rw (spent, e) refl)
    | inr (g, e, closed, ages) ↦ elim (Bool-cases (r == q)) [
      | inl same ↦
          let eq : r ≡ q = (==_iff r q).0 same in
          rw (spent, e)
            (sweep-IsSpent now key q (rs ++ q ∷ []) active g (member-last q rs) (record {
              closed = subst (λ x. (g.heap x).messages_closed ≡ true) eq closed;
              old = ages q ∙ old;
            }))
      | inr d ↦ rw (spent, e) (sweep-twice now key q rs active g (rw d at m) (ages q ∙ old))
    ]
  ]
]

moved_left-last : (r q : ℕ) (rs : List ℕ) → moved_left r (rs ++ q ∷ []) ≡ (rs ++ q ∷ []) ++ q ∷ []
unfolding moved_left
moved_left-last r q [] = refl
moved_left-last r q (s ∷ rs) = ap (◌∷◌ s) (moved_left-last s q rs)

-- A slice whose array has been overwritten ends with what was its last element, which stands in it once
-- more, unless it is the one that has been removed.
overwritten-last :
    (p q : ℕ) (front : List ℕ)
    → member p (front ++ q ∷ []) ≡ true
    → (xs : List ℕ) × (overwritten p (front ++ q ∷ []) ≡ xs ++ q ∷ [])
      × ((p ≡ q) ⊎ (member q xs ≡ true))
unfolding overwritten moved_left member
overwritten-last p q [] m = elim (Bool-cases (q == p)) [
  | inl e ↦ ([], rw e refl, inl (sym ((==_iff q p).0 e)))
  | inr d ↦ let clash : false ≡ true = rw d at m in absurd cc
]
overwritten-last p q (r ∷ rs) m = elim (Bool-cases (r == p)) [
  | inl e ↦ (rs ++ q ∷ [], rw e (moved_left-last r q rs), inr (member-last q rs))
  | inr d ↦
      let (xs, same, twice) = overwritten-last p q rs (rw d at m) in
      (
        r ∷ xs,
        rw d (ap (◌∷◌ r) same),
        elim twice [ inl e ↦ inl e | inr t ↦ inr (ground (arith, t)) ],
      )
]

-- The lock is missing: if, from sound subscribers, a registered one is removed, as its stream ends, between
-- the moment at which the cleanup has loaded the slice of its key and the loop over it, and the last
-- subscriber of the key is too old, the cleanup panics by closing a channel a second time, since the
-- removal overwrites the array of the slice.
pub sweep-remove_subscriber :
    (now : Time) (key : Bytes) (p q : ℕ) (front : List ℕ) (h : Hub)
    → IsSound h
    → h.subscribers key ≡ some (front ++ q ∷ [])
    → member p (front ++ q ∷ []) ≡ true
    → is_active now (h.heap q) ≡ false
    → (g : Hub) × (then_do
          (remove_subscriber key p h)
          (sweep_loaded now key (some (overwritten p (front ++ q ∷ []))))
        ≡ panics g)
unfolding sweep_loaded is_active
sweep-remove_subscriber now key p q front h s e m old =
    let (g, removed, closed, same) = remove_subscriber-closes key p (front ++ q ∷ []) h s e m in
    let (xs, slice, twice) = overwritten-last p q front m in
    let aged : is_active now (g.heap q) ≡ false =
      ap (λ t. not (leb_sum 600000000000 t.nanoseconds now.nanoseconds)) (same q) ∙ old in
    let panic : (f : Hub) × (sweep now key (xs ++ q ∷ []) [] g ≡ panics f) = elim twice [
      | inl eq ↦
          sweep-IsSpent now key q (xs ++ q ∷ []) [] g (member-last q xs) (record {
            closed = subst (λ x. (g.heap x).messages_closed ≡ true) eq closed;
            old = aged;
          })
      | inr t ↦ sweep-twice now key q xs [] g t aged
    ] in
    (panic.0, rw (removed, slice) panic.1)
