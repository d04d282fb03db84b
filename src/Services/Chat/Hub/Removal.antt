-- ===== src/Services/Chat/Hub/Removal.antt =====
-- removeSubscriber of internal/services/chat_service.go keeps the subscribers sound.
use based_backend.Services.Chat.Hub.Sound.{NoRepeat, Registered, IsSound, Bounded, put-Bounded}
use based_backend.Types.{Bytes, bytes_eq, eq_of_bytes_eq}
use mathlib.Core.Path.{subst}
use based_backend.Services.Chat.Hub.{
  member, put, remove, Subscriber, Hub, loaded, close_channels, store_or_delete, ends,
  remove_subscriber,
}
use based_backend.Prelude.{
  ◌==◌, if◌then◌else◌, Bool-cases, ℕ, ◌≡◌, refl, sym, ap, ◌∙◌, inl, inr, true, false, some, List,
  [], ◌∷◌, arith, ==_iff, Option-cases, Bool,
}

member_of-remove : (q p : ℕ) (ps : List ℕ) → member q (remove p ps) ≡ true → member q ps ≡ true
unfolding member remove
member_of-remove q p [] m = m
member_of-remove q p (r ∷ ps) m = ground (arith, member_of-remove q p ps)

not-member-remove : (p : ℕ) (ps : List ℕ) → NoRepeat ps → member p (remove p ps) ≡ false
unfolding member remove
not-member-remove p [] n = refl
not-member-remove p (r ∷ ps) n = ground (arith, not-member-remove p ps)

remove-NoRepeat : (p : ℕ) (ps : List ℕ) → NoRepeat ps → NoRepeat (remove p ps)
unfolding remove
remove-NoRepeat p [] n = n
remove-NoRepeat p (r ∷ ps) n = elim (Bool-cases (r == p)) [
  | inl e ↦ rw e n.1
  | inr e ↦ rw e (absent r p ps n.0, remove-NoRepeat p ps n.1)
]
  where
    absent : (r p : ℕ) (ps : List ℕ) → member r ps ≡ false → member r (remove p ps) ≡ false
    absent r p ps m = elim (Bool-cases (member r (remove p ps))) [
      | inl e ↦ ground (arith, member_of-remove r p ps e)
      | inr e ↦ e
    ]

pub store_or_delete-loaded :
    (key : Bytes) (ps : List ℕ) (h : Hub) (k : Bytes)
    → loaded ((store_or_delete key ps h).subscribers k)
      ≡ (if bytes_eq k key then ps else loaded (h.subscribers k))
store_or_delete-loaded key [] h k = elim (Bool-cases (bytes_eq k key)) [
  | inl e ↦ rw e refl
  | inr e ↦ rw e refl
]
store_or_delete-loaded key (p ∷ ps) h k = elim (Bool-cases (bytes_eq k key)) [
  | inl e ↦ rw e refl
  | inr e ↦ rw e refl
]

pub store_or_delete-heap :
    (key : Bytes) (ps : List ℕ) (h : Hub) → (store_or_delete key ps h).heap ≡ h.heap
store_or_delete-heap key [] h = refl
store_or_delete-heap key (p ∷ ps) h = refl

pub store_or_delete-next :
    (key : Bytes) (ps : List ℕ) (h : Hub) → (store_or_delete key ps h).next ≡ h.next
store_or_delete-next key [] h = refl
store_or_delete-next key (p ∷ ps) h = refl

-- `g` has fewer registrations than `h`, and the flags of those that stay.
module _ (h g : Hub) (key : Bytes) (rest : List ℕ)
    (shape : (k : Bytes)
      → loaded (g.subscribers k) ≡ (if bytes_eq k key then rest else loaded (h.subscribers k)))
    (fewer : (q : ℕ) → member q rest ≡ true → Registered h key q) (no_repeat : NoRepeat rest) where
  fewer-Registered : (k : Bytes) (q : ℕ) → Registered g k q → Registered h k q
  fewer-Registered k q r = elim (Bool-cases (bytes_eq k key)) [
    | inl e ↦
        let r' : member q rest ≡ true = rw e at (rw (shape k) at r) in
        subst (λ x. Registered h x q) (sym (eq_of_bytes_eq k key e)) (fewer q r')
    | inr e ↦ rw e at (rw (shape k) at r)
  ]

  pub fewer-IsSound :
      ((k : Bytes) (q : ℕ)
        → Registered g k q
        → ((g.heap q).messages_closed ≡ (h.heap q).messages_closed)
          × ((g.heap q).done_closed ≡ (h.heap q).done_closed))
      → g.next ≡ h.next
      → Bounded g
      → IsSound h
      → IsSound g
  fewer-IsSound flags next b s = record {
    opened = λ k q r.
        let (m, d) = s.opened k q (fewer-Registered k q r) in
        let (m', d') = flags k q r in (m' ∙ m, d' ∙ d);
    below = λ k q r. rw next (s.below k q (fewer-Registered k q r));
    once = λ k. elim (Bool-cases (bytes_eq k key)) [
      | inl e ↦ rw (shape k, e) no_repeat
      | inr e ↦ rw (shape k, e) (s.once k)
    ];
    apart = λ k l q r r'. s.apart k l q (fewer-Registered k q r) (fewer-Registered l q r');
    bounded = b;
  }

-- The step that takes one registered subscriber out.
module _ (key : Bytes) (p : ℕ) (h : Hub) (subs : List ℕ) (at : h.subscribers key ≡ some subs)
    (there : member p subs ≡ true) (s : IsSound h) where
  abbrev closed : Subscriber
  closed = record (h.heap p) { done_closed = true; messages_closed = true }

  abbrev removed : Hub
  removed = store_or_delete key (remove p subs) (put p closed h)

  registered : (q : ℕ) → member q subs ≡ true → Registered h key q
  registered q m = rw at m

  subs-NoRepeat : NoRepeat subs
  subs-NoRepeat = rw at at (s.once key)

  close_channels-ends : close_channels p h ≡ ends (put p closed h)
  unfolding close_channels
  close_channels-ends =
      let (m, d) = s.opened key p (registered p there) in rw (close_channels, m, d) refl

  removed-shape :
      (k : Bytes)
      → loaded (removed.subscribers k)
        ≡ (if bytes_eq k key then remove p subs else loaded (h.subscribers k))
  removed-shape k = store_or_delete-loaded key (remove p subs) (put p closed h) k

  removed-absent : (k : Bytes) → Registered removed k p → ⊥
  removed-absent k r = elim (Bool-cases (bytes_eq k key)) [
    | inl e ↦
        let r' : member p (remove p subs) ≡ true = rw e at (rw (removed-shape k) at r) in
        let n = not-member-remove p subs subs-NoRepeat in ground arith
    | inr e ↦
        let r' : Registered h k p = rw e at (rw (removed-shape k) at r) in
        let a = s.apart k key p r' (registered p there) in ground arith
  ]

  removed-flag :
      (f : Subscriber → Bool) (k : Bytes) (q : ℕ)
      → Registered removed k q
      → f (removed.heap q) ≡ f (h.heap q)
  removed-flag f k q r = elim (Bool-cases (q == p)) [
    | inl e ↦
        let eq : q ≡ p = (==_iff q p).0 e in
        absurd (removed-absent k (subst (λ x. Registered removed k x) eq r))
    | inr e ↦ rw (store_or_delete-heap key (remove p subs) (put p closed h), e) refl
  ]

  removed-IsSound : IsSound removed
  removed-IsSound =
      fewer-IsSound h removed key (remove p subs) removed-shape
        (λ q m. registered q (member_of-remove q p subs m)) (remove-NoRepeat p subs subs-NoRepeat)
        (λ k q r.
          (removed-flag (λ x. x.messages_closed) k q r, removed-flag (λ x. x.done_closed) k q r))
        (store_or_delete-next key (remove p subs) (put p closed h))
        (λ q.
          rw (store_or_delete-heap key (remove p subs) (put p closed h))
            (put-Bounded p closed h (s.bounded p) s.bounded q))
        s

-- Storing the same list again changes nothing.
rewritten :
    (key : Bytes) (h : Hub) (subs : List ℕ)
    → h.subscribers key ≡ some subs
    → IsSound h
    → IsSound (store_or_delete key subs h)
rewritten key h subs e s =
    fewer-IsSound h (store_or_delete key subs h) key subs (store_or_delete-loaded key subs h)
      (λ q m. rw e m) (rw e at (s.once key))
      (λ k q r. rw (store_or_delete-heap key subs h) (refl, refl)) (store_or_delete-next key subs h)
      (rw (store_or_delete-heap key subs h) s.bounded) s

-- A removal never panics, and keeps the subscribers sound.
pub remove_subscriber-IsSound :
    (key : Bytes) (p : ℕ) (h : Hub)
    → IsSound h
    → (g : Hub) × (remove_subscriber key p h ≡ ends g) × IsSound g
unfolding remove_subscriber
remove_subscriber-IsSound key p h s = elim (Option-cases (h.subscribers key)) [
  | inl e ↦ (h, rw (remove_subscriber, e) refl, s)
  | inr (subs, e) ↦ elim (Bool-cases (member p subs)) [
    | inl m ↦ (
      store_or_delete key (remove p subs) (put p (closed key p h subs e m s) h),
      rw (remove_subscriber, e, m, close_channels-ends key p h subs e m s) refl,
      removed-IsSound key p h subs e m s,
    )
    | inr m ↦
        (store_or_delete key subs h, rw (remove_subscriber, e, m) refl, rewritten key h subs e s)
  ]
]

-- A removal of a registered subscriber closes its channels, and leaves every age.
pub remove_subscriber-closes :
    (key : Bytes) (p : ℕ) (subs : List ℕ) (h : Hub)
    → IsSound h
    → h.subscribers key ≡ some subs
    → member p subs ≡ true
    → (g : Hub) × (remove_subscriber key p h ≡ ends g)
      × ((g.heap p).messages_closed ≡ true)
      × ((q : ℕ) → (g.heap q).created_at ≡ (h.heap q).created_at)
unfolding remove_subscriber
remove_subscriber-closes key p subs h s e m =
    let out = put p (closed key p h subs e m s) h in
    let self : (p == p) ≡ true = ground arith in
    (
      store_or_delete key (remove p subs) out,
      rw (remove_subscriber, e, m, close_channels-ends key p h subs e m s) refl,
      rw (store_or_delete-heap key (remove p subs) out, self) refl,
      λ q. elim (Bool-cases (q == p)) [
        | inl same ↦
            rw (store_or_delete-heap key (remove p subs) out, same)
              (ap (λ x. (h.heap x).created_at) (sym ((==_iff q p).0 same)))
        | inr differs ↦ rw (store_or_delete-heap key (remove p subs) out, differs) refl
      ],
    )
