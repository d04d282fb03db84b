-- ===== src/Config.antt =====
-- internal/config/config.go: LoadConfig over the environment of the process, and what it uses of the
-- standard library: strconv.Atoi and the conversions of an int to an int32 and to a duration.
pub mod Atoi
pub mod Loading
use based_backend.Prelude.{
  ℕ, zero, suc, ◌+◌, ◌*◌, ◌-◌, ◌^◌, [], ◌∷◌, ◌++◌, Bool, true, false, ◌||◌, Option, none, some,
  ◌==◌, ltb, if◌then◌else◌,
}
use based_backend.Prelude.Int.{ℤ, pos, negsuc, to_int32, to_int64, bits64}
use based_backend.Types.{Bytes, codes}

-- A time.Duration is an int64 of nanoseconds.
pub record Config : Type 0 where
  pub database_port : Bytes
  pub database_host : Bytes
  pub database_user : Bytes
  pub database_password : Bytes
  pub database_name : Bytes
  pub grpc_port : Bytes
  pub max_pool_conns : ℤ
  pub max_conn_lifetime_mins : ℤ
  pub migrations_dir : Bytes
  pub keycloak_host : Bytes
  pub keycloak_port : Bytes
  pub keycloak_realm : Bytes
  pub keycloak_client_id : Bytes
  pub keycloak_client_secret : Bytes

-- os.LookupEnv, and what os.Getwd gives: a directory, or none for an error.
pub record Process : Type 0 where
  pub lookup_env : Bytes → Option Bytes
  pub working_directory : Option Bytes

-- The errors of LoadConfig without the text of the error that they wrap.
pub data ConfigError : Type 0 where
  no_working_directory : ConfigError
  invalid_value : Bytes → ConfigError

pub data Loaded (A : Type 0) : Type 0 where
  loaded : A → Loaded A
  rejected : ConfigError → Loaded A

-- The digits of ParseUint: `n` is what the digits before have given.
unfoldable pub scan_digits : ℕ → Bytes → Option ℕ
scan_digits n [] = some n
scan_digits n (c ∷ s) =
    if ltb c b'0' || ltb b'9' c
    then none
    else if ltb (2 ^ 64 - 1) (n * 10 + (c - b'0'))
    then none
    else scan_digits (n * 10 + (c - b'0')) s

abbrev parse_uint : Bytes → Option ℕ
parse_uint [] = none
parse_uint (c ∷ s) = scan_digits 0 (c ∷ s)

abbrev pub in_range : Bool → Option ℕ → Option ℤ
in_range negative none = none
in_range false (some n) = if ltb n (2 ^ 63) then some (pos n) else none
in_range true (some zero) = some (pos 0)
in_range true (some (suc n)) = if ltb n (2 ^ 63) then some (negsuc n) else none

-- strconv.Atoi: none for an error of any kind.
unfoldable pub atoi : Bytes → Option ℤ
atoi [] = none
atoi (c ∷ s) =
    if c == b'-'
    then in_range true (parse_uint s)
    else if c == b'+'
    then in_range false (parse_uint s)
    else in_range false (parse_uint (c ∷ s))

-- `int32(parsedVal)`
abbrev pub as_int32 : ℤ → ℤ
as_int32 z = to_int32 (bits64 z)

-- `time.Duration(parsedVal) * time.Minute`, in int64
abbrev pub minutes : ℤ → ℤ
minutes z = to_int64 (bits64 z * 60000000000)

abbrev or_default : Bytes → Option Bytes → Bytes
or_default d none = d
or_default d (some []) = d
or_default d (some (c ∷ s)) = c ∷ s

-- `v := os.Getenv(name); if v == "" { v = d }`
unfoldable pub getenv_or : Process → Bytes → Bytes → Bytes
getenv_or p name d = or_default d (p.lookup_env name)

abbrev migrations_of : Bytes → Option Bytes → Bytes
migrations_of root none = root ++ codes "/sql/migrations"
migrations_of root (some []) = root ++ codes "/sql/migrations"
migrations_of root (some (c ∷ s)) = root ++ c ∷ s

abbrev parsed : Bytes → (ℤ → ℤ) → Option ℤ → Loaded ℤ
parsed name f none = rejected (invalid_value name)
parsed name f (some z) = loaded (f z)

abbrev setting_of : Bytes → ℤ → (ℤ → ℤ) → Option Bytes → Loaded ℤ
setting_of name d f none = loaded d
setting_of name d f (some value) = parsed name f (atoi value)

-- A number: its default if the variable is not set, even to the empty string.
unfoldable pub number_setting : Process → Bytes → ℤ → (ℤ → ℤ) → Loaded ℤ
number_setting p name d f = setting_of name d f (p.lookup_env name)

abbrev and_then : {A B : Type 0} → Loaded A → (A → Loaded B) → Loaded B
and_then (loaded a) f = f a
and_then (rejected e) f = rejected e

abbrev directory : Option Bytes → Loaded Bytes
directory none = rejected no_working_directory
directory (some d) = loaded d

unfoldable pub config_of : Process → Bytes → ℤ → ℤ → Config
config_of p current_dir max_pool_conns max_conn_lifetime = record {
  database_port = getenv_or p (codes "DB_PORT") (codes "5432");
  database_host = getenv_or p (codes "DB_HOST") (codes "localhost");
  database_user = getenv_or p (codes "DB_USER") (codes "user");
  database_password = getenv_or p (codes "DB_PASSWORD") (codes "password");
  database_name = getenv_or p (codes "DB_NAME") (codes "myservice_db");
  grpc_port = getenv_or p (codes "GRPC_PORT") (codes "50051");
  max_pool_conns = max_pool_conns;
  max_conn_lifetime_mins = max_conn_lifetime;
  migrations_dir =
      migrations_of (codes "file://" ++ current_dir ++ codes "/../..")
        (p.lookup_env (codes "MIGRATIONS_DIR"));
  keycloak_host = getenv_or p (codes "KEYCLOAK_HOST") (codes "localhost");
  keycloak_port = getenv_or p (codes "KEYCLOAK_PORT") (codes "8080");
  keycloak_realm = getenv_or p (codes "KEYCLOAK_REALM") (codes "based");
  keycloak_client_id = getenv_or p (codes "KEYCLOAK_CLIENT_ID") (codes "go-backend");
  keycloak_client_secret =
      getenv_or p (codes "KEYCLOAK_CLIENT_SECRET") (codes "MgNojRL634XmFPquvQpsoBM1Gg22XBKr");
}

-- The three checks of LoadConfig, in its order.
unfoldable pub load_config : Process → Loaded Config
load_config p = and_then (directory p.working_directory) λ current_dir.
    and_then (number_setting p (codes "MAX_POOL_CONNS") (pos 25) as_int32) λ max_pool_conns.
      and_then (number_setting p (codes "MAX_CONN_LIFETIME_MINS") (pos (10 * 60000000000)) minutes)
        λ lifetime. loaded (config_of p current_dir max_pool_conns lifetime)
