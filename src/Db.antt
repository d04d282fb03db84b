-- ===== src/Db.antt =====
-- internal/db/db.go: NewDB and RunMigrations. The pgx pool and golang-migrate are a parameter.
pub mod Success
use based_backend.Prelude.{List, [], ◌∷◌, ◌++◌, Option}
use based_backend.Prelude.Int.{ℤ}
use based_backend.Types.{Bytes, codes}
use based_backend.World.{World, Outcome, returns, fails, M, pure, or_fail, ◌>>=◌, ◌>>◌}
use based_backend.Config.{Config}

-- What NewDB sets in a *pgxpool.Config: `parsed` is the rest of it. AfterConnect is given by the names
-- of the types that it registers.
pub record PoolConfig (Parsed : Type 0) : Type 0 where
  pub parsed : Parsed
  pub max_conns : ℤ
  pub data_type_names : List Bytes

-- The error of m.Up: migrate.ErrNoChange or another one.
pub data UpError : Type 0 where
  no_change : UpError
  up_failed : Bytes → UpError

-- pgxpool.ParseConfig, pgxpool.NewWithConfig, pool.Ping; migrate.New, m.Up, m.Close, whose errors are
-- only printed.
pub record Drivers (Parsed Pool Migrator : Type 0) : Type 0 where
  pub parse_config : Bytes → M Bytes Parsed
  pub new_with_config : PoolConfig Parsed → M Bytes Pool
  pub ping : Pool → M Bytes (Unit {0})
  pub new_migrate : Bytes → Bytes → M Bytes Migrator
  pub up : Migrator → M UpError (Unit {0})
  pub close : Migrator → World → World

-- The errors of both functions, by the text that they begin with.
pub data DbSetupError : Type 0 where
  unparsed_url uncreated_pool unreachable_database : Bytes → DbSetupError
  uncreated_migrate migrations_failed : Bytes → DbSetupError

-- fmt.Sprintf("…://%s:%s@%s:%s/%s", …)
pub db_url : Bytes → Config → Bytes
db_url scheme cfg =
    scheme
    ++ codes "://"
    ++ cfg.database_user
    ++ codes ":"
    ++ cfg.database_password
    ++ codes "@"
    ++ cfg.database_host
    ++ codes ":"
    ++ cfg.database_port
    ++ codes "/"
    ++ cfg.database_name

abbrev pub data_type_names : List Bytes
data_type_names =
    codes "gender_type"
    ∷ codes "_gender_type"
    ∷ codes "event_status_type"
    ∷ codes "_event_status_type"
    ∷ codes "event_category_type"
    ∷ codes "_event_category_type"
    ∷ []

-- AfterConnect: a type that LoadType does not find is registered as nil.
pub after_connect : {T S : Type 0} → (Bytes → Option T) → (Option T → S → S) → List Bytes → S → S
after_connect load_type register_type [] type_map = type_map
after_connect load_type register_type (name ∷ names) type_map =
    after_connect load_type register_type names (register_type (load_type name) type_map)

module _ {Parsed Pool Migrator : Type 0} (drivers : Drivers Parsed Pool Migrator) where
  unfoldable pub new_db : Config → M DbSetupError Pool
  new_db cfg = do
    parsed ← or_fail (drivers.parse_config (db_url (codes "postgres") cfg)) unparsed_url
    pool ←
        or_fail
          (drivers.new_with_config (record {
            parsed = parsed;
            max_conns = cfg.max_pool_conns;
            data_type_names = data_type_names;
          }))
          uncreated_pool
    or_fail (drivers.ping pool) unreachable_database >> pure pool

  abbrev pub up_result : Outcome UpError (Unit {0}) → Outcome DbSetupError (Unit {0})
  up_result (returns u w) = returns u w
  up_result (fails no_change w) = returns tt w
  up_result (fails (up_failed e) w) = fails (migrations_failed e) w

  -- `defer m.Close()`
  abbrev pub closing : {E A : Type 0} → Migrator → Outcome E A → Outcome E A
  closing m (returns a w) = returns a (drivers.close m w)
  closing m (fails e w) = fails e (drivers.close m w)

  unfoldable pub run_migrations : Config → M DbSetupError (Unit {0})
  run_migrations cfg =
      or_fail (drivers.new_migrate cfg.migrations_dir (db_url (codes "pgx") cfg)) uncreated_migrate
      >>= λ m w. closing m (up_result (drivers.up m w))
