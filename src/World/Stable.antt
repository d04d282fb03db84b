-- ===== src/World/Stable.antt =====
-- Predicates on worlds that an action keeps, whether it returns or fails.
use based_backend.World.{
  World, Outcome, returns, fails, M, pure, throw, after, or_fail, recode, continue, ◌>>=◌,
}

pub record Stable {E A : Type 0} (R : World → Type 0) (m : M E A) : Type 0 where
  pub at : (w : World) → R w → R (after (m w))

module _ {R : World → Type 0} where
  module _ {E A : Type 0} where
    pub Stable-pure : (a : A) → Stable {E = E} R (pure a)
    Stable-pure a = record { at = λ w r. r }

    pub Stable-throw : (e : E) → Stable {A = A} R (throw e)
    Stable-throw e = record { at = λ w r. r }

  pub Stable-or_fail :
      {E F A : Type 0} (m : M E A) (f : E → F) → Stable R m → Stable R (or_fail m f)
  Stable-or_fail {E} {F} {A} m f k = record { at = λ w r. go (m w) (k.at w r) }
    where
      go : (o : Outcome E A) → R (after o) → R (after (recode f o))
      go (returns a w) r = r
      go (fails e w) r = r

  pub Stable-bind :
      {E A B : Type 0} (m : M E A) (f : A → M E B)
      → Stable R m
      → ((a : A) → Stable R (f a))
      → Stable R (m >>= f)
  Stable-bind {E} {A} {B} m f k l = record { at = λ w r. go (m w) (k.at w r) }
    where
      go : (o : Outcome E A) → R (after o) → R (after (continue f o))
      go (returns a w) r = (l a).at w r
      go (fails e w) r = r
