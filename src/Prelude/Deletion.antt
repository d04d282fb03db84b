-- ===== src/Prelude/Deletion.antt =====
-- What a cascade takes away, and which rows a condition finds.
use mathlib.Core.Path.{◌≡◌, refl}
use mathlib.Core.Bool.{Bool, true, false}
use mathlib.Core.List.{List, [], ◌∷◌}
use mathlib.Core.Option.{none, some}
use mathlib.Core.Logic.{inl, inr}
use native.Mathlib.Omega.{arith}
use based_backend.Prelude.Tests.{Option-cases}
use based_backend.Prelude.Rows.{exists_where, find_where, refers_to_deleted, cascade}

module _ {ℓ} {A : Type ℓ} where
  pub exists_where_mono :
      (p q : A → Bool) (rs : List A)
      → ((r : A) → p r ≡ true → q r ≡ true)
      → exists_where p rs ≡ true
      → exists_where q rs ≡ true
  exists_where_mono p q [] h e = e
  exists_where_mono p q (r ∷ rs) h e = ground (arith, h r, exists_where_mono p q rs h)

  pub not_found : (p : A → Bool) (rs : List A) → exists_where p rs ≡ false → find_where p rs ≡ none
  not_found p [] h = refl
  not_found p (r ∷ rs) h = ground (arith, not_found p rs)

  pub found_of_exists :
      (p : A → Bool) (rs : List A) → exists_where p rs ≡ true → (a : A) × (find_where p rs ≡ some a)
  found_of_exists p [] h = ground arith
  found_of_exists p (r ∷ rs) h = elim (Option-cases (find_where p (r ∷ rs))) [
    | inl e ↦ absurd (ground (arith, none_found p (r ∷ rs) e))
    | inr f ↦ f
  ]
    where
      none_found : (p : A → Bool) (rs : List A) → find_where p rs ≡ none → exists_where p rs ≡ false
      none_found p [] e = refl
      none_found p (r ∷ rs) e = ground (arith, none_found p rs)

module _ {ℓ κ} {A : Type ℓ} {B : Type κ} where
  -- The rows that refer to a deleted parent are gone.
  pub exists_where-cascade :
      (q : B → Bool) (gone : A → Bool) (ref : B → A → Bool) (ys : List A) (xs : List B)
      → ((x : B) → q x ≡ true → refers_to_deleted gone ref ys x ≡ true)
      → exists_where q (cascade gone ref ys xs) ≡ false
  exists_where-cascade q gone ref ys [] h = refl
  exists_where-cascade q gone ref ys (x ∷ xs) h =
      ground (arith, h x, exists_where-cascade q gone ref ys xs h)
