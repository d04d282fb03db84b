-- ===== src/Prelude/Membership.antt =====
-- What the elements of a list keep under `select`, `map`, `order_by` and `take`, and two lists element
-- by element.
use Prim.Native.Nat.{ℕ, zero, suc}
use mathlib.Core.Path.{◌≡◌, refl, sym, ap, ◌∙◌}
use mathlib.Core.Logic.{◌⊎◌, inl, inr}
use mathlib.Core.Bool.{Bool, true}
use mathlib.Core.List.{List, [], ◌∷◌, map}
use native.Mathlib.Omega.{arith}
use based_backend.Prelude.Tests.{Bool-cases}
use based_backend.Prelude.Lists.{All, All-map, length, take}
use based_backend.Prelude.Rows.{In, select, insert_by, order_by}

-- The lists are of one length, and their elements are related in turn.
abbrev pub AllPairs : {A B : Type 0} → (A → B → Type 0) → List A → List B → Type 0
AllPairs R [] [] = Unit {0}
AllPairs R (x ∷ xs) (y ∷ ys) = R x y × AllPairs R xs ys
AllPairs R _ _ = ⊥

module _ {A : Type 0} where
  pub All-select : (q : A → Bool) (rs : List A) → All (λ r. In r rs × (q r ≡ true)) (select q rs)
  All-select q [] = tt
  All-select q (r ∷ rs) =
      let rest = All-map (λ x h. (inr h.0, h.1)) (select q rs) (All-select q rs) in
      elim (Bool-cases (q r)) [ inl e ↦ rw e ((inl refl, e), rest) | inr e ↦ rw e rest ]

  pub In-select : (q : A → Bool) (x : A) (rs : List A) → In x rs → q x ≡ true → In x (select q rs)
  In-select q x [] i h = elim i [ ]
  In-select q x (r ∷ rs) (inl e) h = let here : q r ≡ true = ap q e ∙ h in rw here (inl e)
  In-select q x (r ∷ rs) (inr i) h =
      let rest = In-select q x rs i h in
      elim (Bool-cases (q r)) [ inl e ↦ rw e (inr rest) | inr e ↦ rw e rest ]

  In-insert_first : (before : A → A → Bool) (x : A) (rs : List A) → In x (insert_by before x rs)
  In-insert_first before x [] = inl refl
  In-insert_first before x (r ∷ rs) = elim (Bool-cases (before x r)) [
    | inl e ↦ rw e (inl refl)
    | inr e ↦ rw e (inr (In-insert_first before x rs))
  ]

  In-insert_later :
      (before : A → A → Bool) (x y : A) (rs : List A) → In y rs → In y (insert_by before x rs)
  In-insert_later before x y [] i = elim i [ ]
  In-insert_later before x y (r ∷ rs) i = elim (Bool-cases (before x r)) [
    | inl e ↦ rw e (inr i)
    | inr e ↦ rw e (elim i [ inl h ↦ inl h | inr h ↦ inr (In-insert_later before x y rs h) ])
  ]

  pub In-order_by :
      (before : A → A → Bool) (y : A) (rs : List A) → In y rs → In y (order_by before rs)
  In-order_by before y [] i = elim i [ ]
  In-order_by before y (r ∷ rs) (inl e) = rw (sym e) (In-insert_first before r (order_by before rs))
  In-order_by before y (r ∷ rs) (inr i) =
      In-insert_later before r y (order_by before rs) (In-order_by before y rs i)

  All-insert :
      (P : A → Type 0) (before : A → A → Bool) (x : A) (rs : List A)
      → P x
      → All P rs
      → All P (insert_by before x rs)
  All-insert P before x [] h a = (h, tt)
  All-insert P before x (r ∷ rs) h a = ground (arith, All-insert P before x rs)

  pub All-order_by :
      (P : A → Type 0) (before : A → A → Bool) (rs : List A) → All P rs → All P (order_by before rs)
  All-order_by P before [] a = tt
  All-order_by P before (r ∷ rs) a = All-insert P before r _ a.0 (All-order_by P before rs a.1)

  pub All-take : (P : A → Type 0) (n : ℕ) (rs : List A) → All P rs → All P (take n rs)
  All-take P zero rs a = tt
  All-take P (suc n) [] a = tt
  All-take P (suc n) (r ∷ rs) a = (a.0, All-take P n rs a.1)

  -- As many are taken as allowed, or all are.
  pub take_cases : (n : ℕ) (rs : List A) → (length (take n rs) ≡ n) ⊎ (take n rs ≡ rs)
  take_cases zero rs = inl refl
  take_cases (suc n) [] = inr refl
  take_cases (suc n) (r ∷ rs) = elim (take_cases n rs) [
    | inl e ↦ inl (ap suc e)
    | inr e ↦ inr (ap (◌∷◌ r) e)
  ]

  pub All-In : (rs : List A) → All (λ r. In r rs) rs
  All-In [] = tt
  All-In (r ∷ rs) = (inl refl, All-map (λ x i. inr i) rs (All-In rs))

module _ {A B : Type 0} where
  pub All-of_map :
      (P : B → Type 0) (f : A → B) (rs : List A) → All (λ r. P (f r)) rs → All P (map f rs)
  All-of_map P f [] a = tt
  All-of_map P f (r ∷ rs) a = (a.0, All-of_map P f rs a.1)

  pub In-map : (f : A → B) (x : A) (rs : List A) → In x rs → In (f x) (map f rs)
  In-map f x [] i = elim i [ ]
  In-map f x (r ∷ rs) (inl e) = inl (ap f e)
  In-map f x (r ∷ rs) (inr i) = inr (In-map f x rs i)
