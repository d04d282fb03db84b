-- ===== src/Prelude/RowLaws.antt =====
-- What selecting, deleting with cascade, inserting and updating do to keys and references.
use mathlib.Core.Path.{◌≡◌, refl}
use mathlib.Core.Bool.{Bool, true, false, not, ◌&&◌}
use mathlib.Core.List.{List, [], ◌∷◌}
use mathlib.Core.Option.{some}
use mathlib.Core.Logic.{inl, inr}
use based_backend.Prelude.Tests.{Bool-cases}
use native.Mathlib.Omega.{arith}
use based_backend.Prelude.Lists.{All}
use based_backend.Prelude.Rows.{
  select, exists_where, find_where, update_where, Distinct, Refers, cascade, In,
}

module _ {ℓ} {A : Type ℓ} where
  pub exists_where-select :
      (p q : A → Bool) (rs : List A)
      → exists_where p rs ≡ false
      → exists_where p (select q rs) ≡ false
  exists_where-select p q [] h = refl
  exists_where-select p q (r ∷ rs) h = ground (arith, exists_where-select p q rs)

  pub Distinct-select :
      (same : A → A → Bool) (q : A → Bool) (rs : List A)
      → Distinct same rs
      → Distinct same (select q rs)
  Distinct-select same q [] h = tt
  Distinct-select same q (r ∷ rs) h =
      ground (arith, Distinct-select same q rs, exists_where-select (same r) q rs)

  pub All-select {κ} :
      (P : A → Type κ) (q : A → Bool) (rs : List A) → All P rs → All P (select q rs)
  All-select P q [] h = tt
  All-select P q (r ∷ rs) h = ground (arith, All-select P q rs)

  -- A row that meets `p` and stays is found among the rows that stay.
  pub exists_where-stays :
      (p gone : A → Bool) (rs : List A)
      → exists_where p rs ≡ true
      → exists_where (λ r. gone r && p r) rs ≡ false
      → exists_where p (select (λ r. not (gone r)) rs) ≡ true
  exists_where-stays p gone [] h g = h
  exists_where-stays p gone (r ∷ rs) h g = ground (arith, exists_where-stays p gone rs)

  pub exists_where-update :
      (p q : A → Bool) (f : A → A) (rs : List A)
      → ((r : A) → p (f r) ≡ p r)
      → exists_where p (update_where q f rs) ≡ exists_where p rs
  exists_where-update p q f [] same = refl
  exists_where-update p q f (r ∷ rs) same =
      ground (arith, same r, exists_where-update p q f rs same)

module _ {ℓ κ} {A : Type ℓ} {B : Type κ} where
  pub Refers-select :
      (ref : A → B → Bool) (q : A → Bool) (xs : List A) (ys : List B)
      → Refers ref xs ys
      → Refers ref (select q xs) ys
  Refers-select ref q [] ys h = tt
  Refers-select ref q (x ∷ xs) ys h = ground (arith, Refers-select ref q xs ys)

  -- A new parent takes nothing away.
  pub Refers-grow :
      (ref : A → B → Bool) (xs : List A) (y : B) (ys : List B)
      → Refers ref xs ys
      → Refers ref xs (y ∷ ys)
  Refers-grow ref [] y ys h = tt
  Refers-grow ref (x ∷ xs) y ys h = ground (arith, Refers-grow ref xs y ys)

  -- What the cascade leaves still refers to what the deletion leaves.
  pub Refers-cascade :
      (ref : A → B → Bool) (gone : B → Bool) (xs : List A) (ys : List B)
      → Refers ref xs ys
      → Refers ref (cascade gone ref ys xs) (select (λ y. not (gone y)) ys)
  Refers-cascade ref gone [] ys h = tt
  Refers-cascade ref gone (x ∷ xs) ys h =
      ground (arith, Refers-cascade ref gone xs ys, exists_where-stays (ref x) gone ys h.0)

  pub Refers-update :
      (ref : A → B → Bool) (q : B → Bool) (f : B → B) (xs : List A) (ys : List B)
      → ((x : A) (y : B) → ref x (f y) ≡ ref x y)
      → Refers ref xs ys
      → Refers ref xs (update_where q f ys)
  Refers-update ref q f [] ys same h = tt
  Refers-update ref q f (x ∷ xs) ys same h =
      ground (arith, Refers-update ref q f xs ys same, exists_where-update (ref x) q f ys (same x))

  pub Refers-update_child :
      (ref : A → B → Bool) (q : A → Bool) (f : A → A) (xs : List A) (ys : List B)
      → ((x : A) → ref (f x) ≡ ref x)
      → Refers ref xs ys
      → Refers ref (update_where q f xs) ys
  Refers-update_child ref q f [] ys same h = tt
  Refers-update_child ref q f (x ∷ xs) ys same h =
      ground (arith, same x, Refers-update_child ref q f xs ys same)

module _ {ℓ} {A : Type ℓ} where
  pub Distinct-update :
      (key : A → A → Bool) (q : A → Bool) (f : A → A) (rs : List A)
      → ((a b : A) → key a (f b) ≡ key a b)
      → ((a : A) → key (f a) ≡ key a)
      → Distinct key rs
      → Distinct key (update_where q f rs)
  Distinct-update key q f [] right left h = tt
  Distinct-update key q f (r ∷ rs) right left h = ground (
    arith,
    left r,
    exists_where-update (key r) q f rs (right r),
    Distinct-update key q f rs right left,
  )

  pub All-update :
      (P : A → Bool) (q : A → Bool) (f : A → A) (rs : List A)
      → ((r : A) → q r ≡ true → P (f r) ≡ true)
      → All (λ r. P r ≡ true) rs
      → All (λ r. P r ≡ true) (update_where q f rs)
  All-update P q f [] ok h = tt
  All-update P q f (r ∷ rs) ok h = ground (arith, ok r, All-update P q f rs ok)

module _ {ℓ} {A : Type ℓ} where
  pub exists_where-congr :
      (p q : A → Bool) (rs : List A) → ((r : A) → p r ≡ q r) → exists_where p rs ≡ exists_where q rs
  exists_where-congr p q [] e = refl
  exists_where-congr p q (r ∷ rs) e = ground (arith, e r, exists_where-congr p q rs e)

  pub exists_where_of_found :
      (p : A → Bool) (rs : List A) (a : A) → find_where p rs ≡ some a → exists_where p rs ≡ true
  exists_where_of_found p [] a h = ground arith
  exists_where_of_found p (r ∷ rs) a h = ground (arith, exists_where_of_found p rs a)

  pub found_meets : (p : A → Bool) (rs : List A) (a : A) → find_where p rs ≡ some a → p a ≡ true
  found_meets p [] a h = ground arith
  found_meets p (r ∷ rs) a h = ground (arith, found_meets p rs a)

module _ {A : Type 0} where
  pub In-select : (q : A → Bool) (x : A) (rs : List A) → q x ≡ true → In x rs → In x (select q rs)
  In-select q x [] h i = elim i [ ]
  In-select q x (r ∷ rs) h (inl e) = rw (e, h) (inl refl)
  In-select q x (r ∷ rs) h (inr i) = elim (Bool-cases (q r)) [
    | inl e ↦ rw e (inr (In-select q x rs h i))
    | inr e ↦ rw e (In-select q x rs h i)
  ]

  pub In-update :
      (q : A → Bool) (f : A → A) (x : A) (rs : List A)
      → q x ≡ false
      → In x rs
      → In x (update_where q f rs)
  In-update q f x [] h i = elim i [ ]
  In-update q f x (r ∷ rs) h (inl e) = inl (rw (e, h))
  In-update q f x (r ∷ rs) h (inr i) = inr (In-update q f x rs h i)

module _ {ℓ} {A : Type ℓ} where
  -- Deleting rows that are not there changes nothing.
  pub select_nothing :
      (p : A → Bool) (rs : List A) → exists_where p rs ≡ false → select (λ r. not (p r)) rs ≡ rs
  select_nothing p [] h = refl
  select_nothing p (r ∷ rs) h = ground (arith, select_nothing p rs)

  pub exists_where_and :
      (p q : A → Bool) (rs : List A)
      → exists_where p rs ≡ false
      → exists_where (λ r. p r && q r) rs ≡ false
  exists_where_and p q [] h = refl
  exists_where_and p q (r ∷ rs) h = ground (arith, exists_where_and p q rs)

  pub exists_where-select-not :
      (p : A → Bool) (rs : List A) → exists_where p (select (λ r. not (p r)) rs) ≡ false
  exists_where-select-not p [] = refl
  exists_where-select-not p (r ∷ rs) = ground (arith, exists_where-select-not p rs)

module _ {ℓ κ} {A : Type ℓ} {B : Type κ} where
  pub cascade_nothing :
      (gone : B → Bool) (ref : A → B → Bool) (ys : List B) (xs : List A)
      → exists_where gone ys ≡ false
      → cascade gone ref ys xs ≡ xs
  cascade_nothing gone ref ys [] h = refl
  cascade_nothing gone ref ys (x ∷ xs) h =
      ground (arith, exists_where_and gone (ref x) ys h, cascade_nothing gone ref ys xs h)
