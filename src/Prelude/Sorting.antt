-- ===== src/Prelude/Sorting.antt =====
-- `order_by` puts the rows in order and keeps them all.
use mathlib.Core.Path.{◌≡◌}
use mathlib.Core.Bool.{Bool, true, false}
use mathlib.Core.List.{List, [], ◌∷◌, Perm}
use mathlib.Core.List.Perm
use mathlib.Core.Logic.{◌⊎◌, inl, inr}
use native.Mathlib.Omega.{arith}
use based_backend.Prelude.Tests.{Bool-cases}
use based_backend.Prelude.Lists.{All, All-map}
use based_backend.Prelude.Rows.{insert_by, order_by}

module _ {ℓ} {A : Type ℓ} where
  -- Each row may stand before all that follow it.
  abbrev pub Sorted : (A → A → Bool) → List A → Type ℓ
  Sorted before [] = Unit
  Sorted before (x ∷ xs) = All (λ y. before x y ≡ true) xs × Sorted before xs

  insert_by-Perm :
      (before : A → A → Bool) (x : A) (xs : List A) → Perm (insert_by before x xs) (x ∷ xs)
  insert_by-Perm before x [] = Perm.refl _
  insert_by-Perm before x (y ∷ xs) = elim (Bool-cases (before x y)) [
    | inl e ↦ rw e (Perm.refl _)
    | inr e ↦ rw e (Perm.trans (Perm.cons y (insert_by-Perm before x xs)) (Perm.swap x y xs))
  ]

  pub order_by-Perm : (before : A → A → Bool) (xs : List A) → Perm (order_by before xs) xs
  order_by-Perm before [] = Perm.refl _
  order_by-Perm before (x ∷ xs) =
      Perm.trans (insert_by-Perm before x _) (Perm.cons x (order_by-Perm before xs))

  module _ (before : A → A → Bool) (total : (a b : A) → (before a b ≡ true) ⊎ (before b a ≡ true))
      (transitive : (a b c : A) → before a b ≡ true → before b c ≡ true → before a c ≡ true) where
    All-insert_by :
        (P : A → Type 0) (x : A) (xs : List A) → P x → All P xs → All P (insert_by before x xs)
    All-insert_by P x [] h a = (h, tt)
    All-insert_by P x (y ∷ xs) h a = ground (arith, All-insert_by P x xs)

    before_flip : (x y : A) → before x y ≡ false → before y x ≡ true
    before_flip x y e = elim (total x y) [ inl h ↦ ground arith | inr h ↦ h ]

    insert_by-Sorted :
        (x : A) (xs : List A) → Sorted before xs → Sorted before (insert_by before x xs)
    insert_by-Sorted x [] s = (tt, tt)
    insert_by-Sorted x (y ∷ xs) s = elim (Bool-cases (before x y)) [
      | inl e ↦ rw e ((e, All-map (λ z h. transitive x y z e h) xs s.0), s)
      | inr e ↦ rw e (
        All-insert_by (λ z. before y z ≡ true) x xs (before_flip x y e) s.0,
        insert_by-Sorted x xs s.1,
      )
    ]

    pub order_by-Sorted : (xs : List A) → Sorted before (order_by before xs)
    order_by-Sorted [] = tt
    order_by-Sorted (x ∷ xs) = insert_by-Sorted x _ (order_by-Sorted xs)
