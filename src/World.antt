-- ===== src/World.antt =====
-- The state of the server process and of what it talks to, and actions on it. A handler reads and
-- writes the database and the chat service's subscribers, and returns a value or an error.
pub mod Returns
pub mod Stable
use based_backend.Prelude.{ℕ}
use based_backend.Services.Chat.Hub.{Hub}
use based_backend.Services.Auth.Keys.{KeyStore}
use based_backend.Sqlc.Database.{Database, Postgres, Env}

-- The `tick`-th statement meets `env tick`.
pub record World : Type 0 where
  pub db : Database
  pub postgres : Postgres
  pub env : ℕ → Env
  pub tick : ℕ
  pub hub : Hub
  pub auth : KeyStore

-- The result of an action: a value or an error, beside the world that it leaves.
pub data Outcome (E A : Type 0) : Type 0 where
  returns : A → World → Outcome E A
  fails : E → World → Outcome E A

abbrev pub M : Type 0 → Type 0 → Type 0
M E A = World → Outcome E A

module _ {E A : Type 0} where
  abbrev pub pure : A → M E A
  pure a w = returns a w

  abbrev pub throw : E → M E A
  throw e w = fails e w

  abbrev pub after : Outcome E A → World
  after (returns a w) = w
  after (fails e w) = w

abbrev pub continue : {E A B : Type 0} → (A → M E B) → Outcome E A → Outcome E B
continue f (returns a w) = f a w
continue f (fails e w) = fails e w

infixl 5 ◌>>=◌ ◌>>◌
abbrev pub ◌>>=◌ : {E A B : Type 0} → M E A → (A → M E B) → M E B
◌>>=◌ m f w = continue f (m w)

abbrev pub ◌>>◌ : {E A B : Type 0} → M E A → M E B → M E B
m >> k = m >>= λ _. k

abbrev pub recode : {E F A : Type 0} → (E → F) → Outcome E A → Outcome F A
recode f (returns a w) = returns a w
recode f (fails e w) = fails (f e) w

-- `if err != nil { return …, f(err) }`
abbrev pub or_fail : {E F A : Type 0} → M E A → (E → F) → M F A
or_fail m f w = recode f (m w)
