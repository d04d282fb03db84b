-- ===== src/Services/Chat/Cleanup/Tick.antt =====
-- A whole tick of cleanupInactiveSubscribers of internal/services/chat_service.go.
use mathlib.Core.Path.{subst}
use based_backend.Prelude.{
  ℕ, ◌≡◌, refl, sym, ◌∙◌, List, [], ◌∷◌, Bool, true, false, ◌↔◌, none, Bool-cases, Option-cases,
  inl, inr, arith, if◌then◌else◌,
}
use based_backend.Types.{Bytes, Time, bytes_eq, eq_of_bytes_eq}
use based_backend.Services.Chat.Hub.{Hub, ends, member}
use based_backend.Services.Chat.Hub.Sound.{Registered, IsSound}
use based_backend.Services.Chat.Cleanup.{is_active, sweep_loaded, cleanup_inactive_subscribers}
use based_backend.Services.Chat.Cleanup.Expiry.{
  after_sweep, sweep_loaded-ends, stays, stays_back, after_sweep-IsSound, after_sweep-is_active,
  after_sweep-messages, after_sweep-next,
}

unfoldable pub visits : List Bytes → Bytes → Bool
visits [] k = false
visits (key ∷ keys) k = if bytes_eq k key then true else visits keys k

-- `g` is sound and has the registrations of `h`, less those of the keys that were too old.
pub record IsCleaned (now : Time) (keys : List Bytes) (h g : Hub) : Type 0 where
  pub sound : IsSound g
  pub messages : (q : ℕ) → (g.heap q).messages ≡ (h.heap q).messages
  pub next : g.next ≡ h.next
  pub ages : (q : ℕ) → is_active now (g.heap q) ≡ is_active now (h.heap q)
  pub was :
      (k : Bytes) (q : ℕ)
      → Registered g k q
      → Registered h k q × (visits keys k ≡ true → is_active now (h.heap q) ≡ true)
  pub stays :
      (k : Bytes) (q : ℕ)
      → Registered h k q
      → (visits keys k ≡ true → is_active now (h.heap q) ≡ true)
      → Registered g k q

IsCleaned-nil : (now : Time) (h : Hub) → IsSound h → IsCleaned now [] h h
unfolding visits
IsCleaned-nil now h s = record {
  sound = s;
  messages = λ q. refl;
  next = refl;
  ages = λ q. refl;
  was = λ k q r. (r, λ v. absurd cc);
  stays = λ k q r v. r;
}

IsCleaned-trans :
    (now : Time) (key : Bytes) (keys : List Bytes) (h g f : Hub)
    → IsCleaned now (key ∷ []) h g
    → IsCleaned now keys g f
    → IsCleaned now (key ∷ keys) h f
unfolding visits
IsCleaned-trans now key keys h g f a b = record {
  sound = b.sound;
  messages = λ q. b.messages q ∙ a.messages q;
  next = b.next ∙ a.next;
  ages = λ q. b.ages q ∙ a.ages q;
  was = λ k q r.
      let (r1, later) = b.was k q r in
      let (r2, first) = a.was k q r1 in
      (
        r2,
        λ v. elim (Bool-cases (bytes_eq k key)) [
          | inl e ↦ first (rw e refl)
          | inr e ↦ sym (a.ages q) ∙ later (rw e at v)
        ],
      );
  stays = λ k q r young.
      b.stays k q
        (a.stays k q r (λ v. young (elim (Bool-cases (bytes_eq k key)) [
          | inl e ↦ rw e refl
          | inr e ↦ absurd (let v' = rw e at v in cc)
        ])))
        (λ v.
          a.ages q
          ∙ young (elim (Bool-cases (bytes_eq k key)) [ inl e ↦ rw e refl | inr e ↦ rw e v ]));
}

nobody_there :
    (now : Time) (key : Bytes) (h : Hub)
    → h.subscribers key ≡ none
    → (k : Bytes) (q : ℕ) → Registered h k q
    → visits (key ∷ []) k ≡ true
    → ⊥
unfolding visits member
nobody_there now key h e k q r v = elim (Bool-cases (bytes_eq k key)) [
  | inl same ↦
      let r' = subst (λ x. Registered h x q) (eq_of_bytes_eq k key same) r in
      let clash : false ≡ true = rw e at r' in absurd cc
  | inr differs ↦ absurd (let v' = rw differs at v in cc)
]

sweep_loaded-IsCleaned :
    (now : Time) (key : Bytes) (h : Hub)
    → IsSound h
    → (g : Hub) × (sweep_loaded now key (h.subscribers key) h ≡ ends g)
      × IsCleaned now (key ∷ []) h g
unfolding sweep_loaded visits member
sweep_loaded-IsCleaned now key h s = elim (Option-cases (h.subscribers key)) [
  | inl none_there ↦ (
    h,
    rw (none_there) refl,
    record {
      sound = s;
      messages = λ q. refl;
      next = refl;
      ages = λ q. refl;
      was = λ k q r. (r, λ v. absurd (nobody_there now key h none_there k q r v));
      stays = λ k q r v. r;
    },
  )
  | inr (subs, at) ↦ (
    after_sweep now key subs h at s,
    sweep_loaded-ends now key subs h at s,
    record {
      sound = after_sweep-IsSound now key subs h at s;
      messages = after_sweep-messages now key subs h at s;
      next = after_sweep-next now key subs h at s;
      ages = after_sweep-is_active now key subs h at s;
      was = λ k q r.
          let (r', young) = stays now key subs h at s k q r in (r', λ v. young (ground arith));
      stays = λ k q r young. stays_back now key subs h at s k q r (λ e. young (rw e refl));
    },
  )
]

pub cleanup_inactive_subscribers-IsCleaned :
    (now : Time) (keys : List Bytes) (h : Hub)
    → IsSound h
    → (g : Hub) × (cleanup_inactive_subscribers now keys h ≡ ends g) × IsCleaned now keys h g
unfolding cleanup_inactive_subscribers
cleanup_inactive_subscribers-IsCleaned now [] h s = (h, refl, IsCleaned-nil now h s)
cleanup_inactive_subscribers-IsCleaned now (key ∷ keys) h s =
    let (g, e, a) = sweep_loaded-IsCleaned now key h s in
    let (f, e', b) = cleanup_inactive_subscribers-IsCleaned now keys g a.sound in
    (f, rw (e, e') refl, IsCleaned-trans now key keys h g f a b)

-- A tick of the cleanup that is left alone, from sound subscribers, and whose Range visits every key that
-- has subscribers, does not panic, and keeps the subscribers sound. Those that are registered then are
-- those that were before and are less than ten minutes old.
pub cleanup_inactive_subscribers-expires :
    (now : Time) (keys : List Bytes) (h : Hub)
    → IsSound h
    → ((k : Bytes) (q : ℕ) → Registered h k q → visits keys k ≡ true)
    → (g : Hub) × (cleanup_inactive_subscribers now keys h ≡ ends g)
      × IsSound g
      × ((k : Bytes) (q : ℕ)
          → Registered g k q ↔ (Registered h k q × (is_active now (h.heap q) ≡ true)))
cleanup_inactive_subscribers-expires now keys h s all =
    let (g, e, c) = cleanup_inactive_subscribers-IsCleaned now keys h s in
    (
      g,
      e,
      c.sound,
      λ k q. (
        λ r. let (r', young) = c.was k q r in (r', young (all k q r')),
        λ (r, young). c.stays k q r (λ _. young),
      ),
    )
