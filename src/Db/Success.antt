-- ===== src/Db/Success.antt =====
-- What a success of RunMigrations and of NewDB of internal/db/db.go says about the database.
use based_backend.Prelude.{◌≡◌, refl, sym, ap, ◌∙◌, ◌⊎◌, inl, inr}
use based_backend.Types.{codes}
use based_backend.World.{World, Outcome, returns, fails}
use based_backend.World.Returns.{recode-returns, continue-returns}
use based_backend.Config.{Config}
use based_backend.Db.{
  UpError, no_change, up_failed, Drivers, unparsed_url, uncreated_pool, unreachable_database,
  uncreated_migrate, db_url, data_type_names, new_db, up_result, closing, run_migrations,
}

module _ {Parsed Pool Migrator : Type 0} (drivers : Drivers Parsed Pool Migrator)
    (cfg : Config) where
  -- A migrator for the migrations of the configuration was made; its Up has succeeded, or has found
  -- nothing to do; it was closed then.
  pub record IsMigrated (w w' : World) : Type 0 where
    pub migrator : Migrator
    pub made_world : World
    pub up_world : World
    pub made :
        drivers.new_migrate cfg.migrations_dir (db_url (codes "pgx") cfg) w
        ≡ returns migrator made_world
    pub up :
        (drivers.up migrator made_world ≡ returns tt up_world)
        ⊎ (drivers.up migrator made_world ≡ fails no_change up_world)
    pub closed : drivers.close migrator up_world ≡ w'

  -- The URL has been parsed, the pool has been made with the limit of the configuration and the names
  -- of the enum types, and the database has answered a ping over this pool.
  pub record IsConnected (pool : Pool) (w w' : World) : Type 0 where
    pub parsed : Parsed
    pub parsed_world : World
    pub pool_world : World
    pub read : drivers.parse_config (db_url (codes "postgres") cfg) w ≡ returns parsed parsed_world
    pub made :
        drivers.new_with_config
          (record {
            parsed = parsed;
            max_conns = cfg.max_pool_conns;
            data_type_names = data_type_names;
          })
          parsed_world
        ≡ returns pool pool_world
    pub answered : drivers.ping pool pool_world ≡ returns tt w'

  closing-up_result :
      (m : Migrator) (o : Outcome UpError (Unit {0})) (w' : World)
      → closing drivers m (up_result drivers o) ≡ returns tt w'
      → (v : World) × ((o ≡ returns tt v) ⊎ (o ≡ fails no_change v)) × (drivers.close m v ≡ w')
  closing-up_result m (returns tt v) w' h = (v, inl refl, cc)
  closing-up_result m (fails no_change v) w' h = (v, inr refl, cc)
  closing-up_result m (fails (up_failed e) v) w' h = absurd cc

  pub run_migrations-IsMigrated :
      (w w' : World) → run_migrations drivers cfg w ≡ returns tt w' → IsMigrated w w'
  unfolding run_migrations
  run_migrations-IsMigrated w w' h =
      let (m, v, e, h1) = continue-returns _ _ tt w' h in
      let (u, up, closed) = closing-up_result m (drivers.up m v) w' h1 in
      record {
        migrator = m;
        made_world = v;
        up_world = u;
        made = recode-returns uncreated_migrate _ m v e;
        up = up;
        closed = closed;
      }

  pub new_db-IsConnected :
      (pool : Pool) (w w' : World) → new_db drivers cfg w ≡ returns pool w' → IsConnected pool w w'
  unfolding new_db
  new_db-IsConnected pool w w' h =
      let (parsed, v, e, h1) = continue-returns _ _ pool w' h in
      let (made, u, e1, h2) = continue-returns _ _ pool w' h1 in
      let (_, t, e2, h3) = continue-returns _ _ pool w' h2 in
      let same : made ≡ pool = cc in
      let there : t ≡ w' = cc in
      record {
        parsed = parsed;
        parsed_world = v;
        pool_world = u;
        read = recode-returns unparsed_url _ parsed v e;
        made = recode-returns uncreated_pool _ made u e1 ∙ ap (λ x. returns x u) same;
        answered =
            ap (λ x. drivers.ping x u) (sym same)
            ∙ (recode-returns unreachable_database _ tt t e2 ∙ ap (returns tt) there);
      }
