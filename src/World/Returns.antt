-- ===== src/World/Returns.antt =====
-- What a success of an action says about its parts.
use based_backend.Prelude.{◌≡◌, refl}
use based_backend.World.{World, Outcome, returns, fails, M, continue, recode}

pub recode-returns :
    {E F A : Type 0} (f : E → F) (o : Outcome E A) (a : A) (w : World)
    → recode f o ≡ returns a w
    → o ≡ returns a w
recode-returns f (returns b v) a w h = cc
recode-returns f (fails e v) a w h = absurd cc

pub continue-returns :
    {E A B : Type 0} (f : A → M E B) (o : Outcome E A) (b : B) (w : World)
    → continue f o ≡ returns b w
    → (a : A) × (v : World) × (o ≡ returns a v) × (f a v ≡ returns b w)
continue-returns f (returns a v) b w h = (a, v, refl, h)
continue-returns f (fails e v) b w h = absurd cc

module _ {E A : Type 0} where
  unfoldable pub success : A → World → Outcome E A
  success = returns

  pub result_of : (a b : A) (v w : World) → returns a v ≡ success b w → a ≡ b
  unfolding success
  result_of a b v w h = cc

  pub world_of : (a b : A) (v w : World) → returns a v ≡ success b w → v ≡ w
  unfolding success
  world_of a b v w h = cc
