-- ===== src/Config/Loading.antt =====
-- What LoadConfig makes of the environment.
use mathlib.Core.List.{cons-ne-nil}
use based_backend.Prelude.{
  ℕ, ◌*◌, ◌^◌, ◌≤◌, ◌<◌, ◌≡◌, ◌≢◌, refl, [], ◌∷◌, Option, none, some, arith, Option-cases, inl, inr,
}
use based_backend.Prelude.Int.{
  ℤ, pos, to_int32_small, to_int64_small, bits64_small, InInt32, InInt64, to_int32_bound,
  to_int64_bound,
}
use based_backend.Types.{Bytes, codes}
use based_backend.Config.{
  Config, Process, Loaded, loaded, rejected, no_working_directory, invalid_value, as_int32, minutes,
  or_default, getenv_or, number_setting, and_then, directory, config_of, load_config, atoi,
}
use based_backend.Config.Atoi.{itoa, atoi-itoa}

or_default-ne-nil : (d : Bytes) (v : Option Bytes) → d ≢ [] → or_default d v ≢ []
or_default-ne-nil d none h = h
or_default-ne-nil d (some []) h = h
or_default-ne-nil d (some (c ∷ s)) h = cons-ne-nil c s

as_int32-small : (n : ℕ) → n < 2 ^ 31 → as_int32 (pos n) ≡ pos n
as_int32-small n h = rw (bits64_small n (omega arith)) (to_int32_small n h)

minutes-small : (n : ℕ) → n ≤ 153722867 → minutes (pos n) ≡ pos (n * 60000000000)
minutes-small n h =
    rw (bits64_small n (omega arith)) (to_int64_small (n * 60000000000) (omega arith))

number_setting-itoa :
    (p : Process) (name : Bytes) (d z : ℤ) (f : ℤ → ℤ)
    → InInt64 z
    → p.lookup_env name ≡ some (itoa z)
    → number_setting p name d f ≡ loaded (f z)
unfolding number_setting
number_setting-itoa p name d z f h e = rw e rw (atoi-itoa z h) refl

-- The settings of an operator arrive: if the working directory is known, MAX_POOL_CONNS is the decimal
-- print of a number below 2 ^ 31, and MAX_CONN_LIFETIME_MINS that of at most 153722867 minutes, then
-- LoadConfig succeeds with these numbers, the minutes as nanoseconds.
pub load_config-of_settings :
    (p : Process) (d : Bytes) (conns mins : ℕ)
    → p.working_directory ≡ some d
    → conns < 2 ^ 31
    → p.lookup_env (codes "MAX_POOL_CONNS") ≡ some (itoa (pos conns))
    → mins ≤ 153722867
    → p.lookup_env (codes "MAX_CONN_LIFETIME_MINS") ≡ some (itoa (pos mins))
    → (c : Config) × (load_config p ≡ loaded c)
      × (c.max_pool_conns ≡ pos conns)
      × (c.max_conn_lifetime_mins ≡ pos (mins * 60000000000))
unfolding load_config config_of
load_config-of_settings p d conns mins wd b set k set' =
    rw
      (
        number_setting-itoa p _ (pos 25) (pos conns) as_int32 (omega arith) set,
        number_setting-itoa p _ (pos (10 * 60000000000)) (pos mins) minutes (omega arith) set',
        wd,
      )
      (_, refl, as_int32-small conns b, minutes-small mins k)

-- No address, name or credential of a configuration is empty, and its numbers fit their types.
pub record IsComplete (c : Config) : Type 0 where
  pub database_port : c.database_port ≢ []
  pub database_host : c.database_host ≢ []
  pub database_user : c.database_user ≢ []
  pub database_password : c.database_password ≢ []
  pub database_name : c.database_name ≢ []
  pub grpc_port : c.grpc_port ≢ []
  pub max_pool_conns : InInt32 c.max_pool_conns
  pub max_conn_lifetime_mins : InInt64 c.max_conn_lifetime_mins
  pub keycloak_host : c.keycloak_host ≢ []
  pub keycloak_port : c.keycloak_port ≢ []
  pub keycloak_realm : c.keycloak_realm ≢ []
  pub keycloak_client_id : c.keycloak_client_id ≢ []
  pub keycloak_client_secret : c.keycloak_client_secret ≢ []

-- What each end of LoadConfig says of the environment.
pub Explained : Process → Loaded Config → Type 0
Explained p (loaded c) = IsComplete c
Explained p (rejected no_working_directory) = p.working_directory ≡ none
Explained p (rejected (invalid_value name)) =
    (value : Bytes) × (p.lookup_env name ≡ some value) × (atoi value ≡ none)

getenv_or-ne-nil : (p : Process) (name : Bytes) (c : ℕ) (s : Bytes) → getenv_or p name (c ∷ s) ≢ []
unfolding getenv_or
getenv_or-ne-nil p name c s = or_default-ne-nil (c ∷ s) _ (cons-ne-nil c s)

config_of-IsComplete :
    (p : Process) (d : Bytes) (x y : ℤ) → InInt32 x → InInt64 y → IsComplete (config_of p d x y)
unfolding config_of
config_of-IsComplete p d x y h k = record {
  database_port = getenv_or-ne-nil p _ _ _;
  database_host = getenv_or-ne-nil p _ _ _;
  database_user = getenv_or-ne-nil p _ _ _;
  database_password = getenv_or-ne-nil p _ _ _;
  database_name = getenv_or-ne-nil p _ _ _;
  grpc_port = getenv_or-ne-nil p _ _ _;
  max_pool_conns = h;
  max_conn_lifetime_mins = k;
  keycloak_host = getenv_or-ne-nil p _ _ _;
  keycloak_port = getenv_or-ne-nil p _ _ _;
  keycloak_realm = getenv_or-ne-nil p _ _ _;
  keycloak_client_id = getenv_or-ne-nil p _ _ _;
  keycloak_client_secret = getenv_or-ne-nil p _ _ _;
}

and_then-directory :
    (p : Process) (o : Option Bytes) (k : Bytes → Loaded Config)
    → p.working_directory ≡ o
    → ((d : Bytes) → Explained p (k d))
    → Explained p (and_then (directory o) k)
unfolding Explained
and_then-directory p none k h next = h
and_then-directory p (some d) k h next = next d

and_then-number_setting :
    (p : Process) (name : Bytes) (d : ℤ) (f : ℤ → ℤ) (In : ℤ → Type 0) (k : ℤ → Loaded Config)
    → In d
    → ((z : ℤ) → In (f z))
    → ((z : ℤ) → In z → Explained p (k z))
    → Explained p (and_then (number_setting p name d f) k)
unfolding number_setting Explained
and_then-number_setting p name d f In k at_default at_value next =
    elim (Option-cases (p.lookup_env name)) [
      | inl unset ↦ rw unset (next d at_default)
      | inr (value, set) ↦ rw set (elim (Option-cases (atoi value)) [
        | inl refused ↦ rw refused (value, set, refused)
        | inr (z, read) ↦ rw read (next (f z) (at_value z))
      ])
    ]

-- LoadConfig ends in one of three ways, in every environment. It gives a configuration in which no
-- address, name or credential is empty, and whose numbers fit an int32 and an int64; or it fails for
-- the working directory, which is unknown then; or it fails for a variable, which is set then to a text
-- that is not an int64 in decimal.
pub load_config-Explained : (p : Process) → Explained p (load_config p)
unfolding load_config Explained
load_config-Explained p = and_then-directory p p.working_directory _ refl λ d.
    and_then-number_setting p _ (pos 25) as_int32 InInt32 _ (omega arith) (λ z. to_int32_bound _)
      λ conns h.
        and_then-number_setting p _ (pos (10 * 60000000000)) minutes InInt64 _ (omega arith)
          (λ z. to_int64_bound _) λ mins k. config_of-IsComplete p d conns mins h k
