-- ===== src/Prelude/Rows.antt =====
-- Rows of a table under a Boolean condition: what SQL's WHERE, EXISTS, COUNT and ORDER BY need.
use Prim.Native.Nat.{ℕ, suc}
use mathlib.Core.Path.{◌≡◌}
use mathlib.Core.Logic.{◌⊎◌}
use mathlib.Core.Bool.{Bool, true, false, not, ◌&&◌}
use mathlib.Core.Option.{Option, none, some}
use mathlib.Core.List.{List, [], ◌∷◌}
use based_backend.Prelude.Tests.{if◌then◌else◌}

module _ {ℓ} {A : Type ℓ} where
  -- The rows that meet a condition.
  abbrev pub select : (A → Bool) → List A → List A
  select p [] = []
  select p (r ∷ rs) = let rest = select p rs in if p r then r ∷ rest else rest

  abbrev pub exists_where : (A → Bool) → List A → Bool
  exists_where p [] = false
  exists_where p (r ∷ rs) = if p r then true else exists_where p rs

  abbrev pub find_where : (A → Bool) → List A → Option A
  find_where p [] = none
  find_where p (r ∷ rs) = if p r then some r else find_where p rs

  -- COUNT(DISTINCT …): rows that are the same count once.
  abbrev pub count_distinct : (A → A → Bool) → List A → ℕ
  count_distinct same [] = 0
  count_distinct same (r ∷ rs) =
      let rest = count_distinct same rs in if exists_where (same r) rs then rest else suc rest

  -- The rows that meet a condition, changed by a function.
  abbrev pub update_where : (A → Bool) → (A → A) → List A → List A
  update_where p f [] = []
  update_where p f (r ∷ rs) = (if p r then f r else r) ∷ update_where p f rs

  -- ORDER BY, with `before a b` for "a may stand before b".
  abbrev pub insert_by : (A → A → Bool) → A → List A → List A
  insert_by before a [] = a ∷ []
  insert_by before a (r ∷ rs) =
      let rest = insert_by before a rs in if before a r then a ∷ r ∷ rs else r ∷ rest

  abbrev pub order_by : (A → A → Bool) → List A → List A
  order_by before [] = []
  order_by before (r ∷ rs) = insert_by before r (order_by before rs)

  -- No row is the same as a later one.
  abbrev pub Distinct : (A → A → Bool) → List A → Type 0
  Distinct same [] = Unit {0}
  Distinct same (r ∷ rs) = (exists_where (same r) rs ≡ false) × Distinct same rs

-- Every row refers to a row of the other table.
abbrev pub Refers {ℓ κ} : {A : Type ℓ} {B : Type κ} → (A → B → Bool) → List A → List B → Type 0
Refers ref [] ys = Unit {0}
Refers ref (x ∷ xs) ys = (exists_where (ref x) ys ≡ true) × Refers ref xs ys

-- Whether the row refers to one of the parents that meet the condition.
abbrev pub refers_to_deleted {ℓ κ} :
    {A : Type ℓ} {B : Type κ} → (A → Bool) → (B → A → Bool) → List A → B → Bool
refers_to_deleted p ref parents x = exists_where (λ r. p r && ref x r) parents

-- ON DELETE CASCADE: the rows that stay when the parents that meet the condition go.
abbrev pub cascade {ℓ κ} :
    {A : Type ℓ} {B : Type κ} → (A → Bool) → (B → A → Bool) → List A → List B → List B
cascade p ref parents = select (λ x. not (refers_to_deleted p ref parents x))

-- The row stands in the table.
abbrev pub In : {A : Type 0} → A → List A → Type 0
In x [] = ⊥
In x (r ∷ rs) = (r ≡ x) ⊎ In x rs
