-- ===== src/Main/Startup.antt =====
-- When main comes to serve.
use based_backend.Sqlc.Statement.Keeps.{OnTables}
use mathlib.Core.Path.{subst}
use mathlib.Core.List.{cons-ne-nil}
use based_backend.Prelude.{◌≡◌, ◌≢◌, refl, sym, ap, ◌∙◌, List, [], ◌∷◌, ◌++◌, Option, none, some}
use based_backend.Types.{Bytes, codes}
use based_backend.World.{World, returns, after, continue, pure}
use based_backend.World.Returns.{recode-returns, continue-returns}
use based_backend.Config.{Config, Process, Loaded, loaded, rejected, load_config}
use based_backend.Db.{Drivers, run_migrations, new_db}
use based_backend.Db.Success.{
  IsMigrated, IsConnected, run_migrations-IsMigrated, new_db-IsConnected,
}
use based_backend.Main.{main, configured, listening, unmigrated, unconnected, no_auth_service}
use based_backend.Interceptor.{AuthService, AuthInterceptor, new_auth_interceptor}
use based_backend.Services.Status.{Context}
use based_backend.Services.Auth.Keys.{PublicKey}
use based_backend.Services.Auth.{
  JwtLibrary, auth_service, new_auth_service, fetch_public_keys, get_jwks, refill_keys, store_keys,
  clear, check_keys, some_key, jwks_url,
}
use based_backend.Services.Auth.Publication.{Published, Published-nil, fetch_public_keys-Published}
use based_backend.Services.Auth.Verification.{IsVerifying}
use based_backend.Services.Auth.Frame.{auth_service-TokenCheckKeeps}
use based_backend.Server.{run, Request}
use based_backend.Server.Keeps.{TokenCheckKeeps}
use based_backend.Server.Integrity.{run-IsValid}
use based_backend.Sqlc.Integrity.{IsValid}

configured-returns :
    (l : Loaded Config) (cfg : Config) (w v : World)
    → configured l w ≡ returns cfg v
    → (l ≡ loaded cfg) × (w ≡ v)
configured-returns (loaded c) cfg w v h = (cc, cc)
configured-returns (rejected e) cfg w v h = absurd cc

listening-returns :
    (o : Option Bytes) (w v : World) → listening o w ≡ returns tt v → (o ≡ none) × (w ≡ v)
listening-returns none w v h = (refl, cc)
listening-returns (some e) w v h = absurd cc

some_key-returns :
    (m : List (Bytes × PublicKey)) (u : Unit {0}) (w v : World)
    → some_key m w ≡ returns u v
    → (m ≢ []) × (w ≡ v)
some_key-returns [] u w v h = absurd cc
some_key-returns (k ∷ m) u w v h = (cons-ne-nil k m, cc)

fetch_public_keys-ne-nil :
    (cfg : Config) (u : Unit {0}) (w v : World)
    → fetch_public_keys cfg w ≡ returns u v
    → v.auth.public_keys ≢ []
unfolding fetch_public_keys refill_keys
fetch_public_keys-ne-nil cfg u w v h =
    let (keys, w1, _, h1) = continue-returns refill_keys (get_jwks (jwks_url cfg) w) u v h in
    let (_, w2, _, h2) =
      continue-returns (λ _. check_keys) (continue (λ _. store_keys keys) (clear w1)) u v h1 in
    let (some_stored, same) = some_key-returns w2.auth.public_keys u w2 v h2 in
    subst (λ x. x.auth.public_keys ≢ []) same some_stored

new_auth_service-returns :
    (jwt : JwtLibrary) (cfg : Config) (a : AuthService) (w v : World)
    → new_auth_service jwt cfg w ≡ returns a v
    → (a ≡ auth_service jwt cfg) × Published (jwks_url cfg) v × (v.auth.public_keys ≢ [])
unfolding new_auth_service
new_auth_service-returns jwt cfg a w v h =
    let url = jwks_url cfg in
    let (u, w1, fetched, h1) =
      continue-returns (λ _. pure (auth_service jwt cfg)) (fetch_public_keys cfg (after (clear w)))
        a v h in
    let same : w1 ≡ v = cc in
    let kept : Published url w1 = subst (Published url) (ap after fetched) (
      (fetch_public_keys-Published cfg).at (after (clear w))
        (Published-nil url (after (clear w)) refl)) in
    (
      cc,
      subst (Published url) same kept,
      subst (λ x. x.auth.public_keys ≢ []) same (fetch_public_keys-ne-nil cfg u _ w1 fetched),
    )

-- What holds when main serves: the configuration has been loaded, the migrations have run or found
-- nothing to do, then the database has answered a ping, the port of the configuration was free, and
-- there are keys, all of them published by the realm.
pub record IsReady {Parsed Pool Migrator : Type 0} (drivers : Drivers Parsed Pool Migrator)
    (jwt : JwtLibrary) (listen : Bytes → Option Bytes) (process : Process) (i : AuthInterceptor)
    (w w' : World) : Type 0 where
  pub cfg : Config
  pub pool : Pool
  pub migrated_world : World
  pub connected_world : World
  pub has_config : load_config process ≡ loaded cfg
  pub migrated : IsMigrated drivers cfg w migrated_world
  pub connected : IsConnected drivers cfg pool migrated_world connected_world
  pub free : listen (codes ":" ++ cfg.grpc_port) ≡ none
  pub has_keys : w'.auth.public_keys ≢ []
  pub published : Published (jwks_url cfg) w'
  pub checks_tokens : i ≡ new_auth_interceptor (auth_service jwt cfg)

module _ {Parsed Pool Migrator : Type 0} (drivers : Drivers Parsed Pool Migrator) (jwt : JwtLibrary)
    (listen : Bytes → Option Bytes) (process : Process) where
  -- When main comes to serve, the configuration has been loaded, then the migrations have run or found
  -- nothing to do, then the database has answered a ping, and the port of the configuration was free. The
  -- interceptor checks tokens by the AuthService of that configuration, whose keys are not empty, and all
  -- of them have been published by its realm.
  pub main-IsReady :
      (i : AuthInterceptor) (w w' : World)
      → main drivers jwt listen process w ≡ returns i w'
      → IsReady drivers jwt listen process i w w'
  unfolding main
  main-IsReady i w w' h =
      let (cfg, w0, h0, k0) = continue-returns _ (configured (load_config process) w) i w' h in
      let (l, e0) = configured-returns (load_config process) cfg w w0 h0 in
      let (_, w1, h1, k1) = continue-returns _ _ i w' k0 in
      let (pool, w2, h2, k2) = continue-returns _ _ i w' k1 in
      let (auth, w3, h3, k3) = continue-returns _ _ i w' k2 in
      let (_, w4, h4, k4) = continue-returns _ _ i w' k3 in
      let migrated = recode-returns unmigrated (run_migrations drivers cfg w0) tt w1 h1 in
      let connected = recode-returns unconnected (new_db drivers cfg w1) pool w2 h2 in
      let (service, published, some_stored) =
        new_auth_service-returns jwt cfg auth w2 w3
          (recode-returns no_auth_service (new_auth_service jwt cfg w2) auth w3 h3) in
      let (free, e3) = listening-returns (listen (codes ":" ++ cfg.grpc_port)) w3 w4 h4 in
      let ends : w4 ≡ w' = cc in
      record {
        cfg = cfg;
        pool = pool;
        migrated_world = w1;
        connected_world = w2;
        has_config = l;
        migrated =
            subst (λ x. IsMigrated drivers cfg x w1) (sym e0)
              (run_migrations-IsMigrated drivers cfg w0 w1 migrated);
        connected = new_db-IsConnected drivers cfg pool w1 w2 connected;
        free = free;
        has_keys = subst (λ x. x.auth.public_keys ≢ []) (e3 ∙ ends) some_stored;
        published = subst (Published (jwks_url cfg)) (e3 ∙ ends) published;
        checks_tokens = sym (ap new_auth_interceptor (sym service) ∙ cc);
      }

  -- From a main that serves on, every sequence of unary calls leads from tables that meet the keys, the
  -- foreign keys and the checks of the migration to such tables, if the JWT library does what it
  -- documents.
  pub main-run-IsValid :
      (i : AuthInterceptor) (calls : List (Context × Request)) (w w' : World)
      → IsVerifying jwt
      → main drivers jwt listen process w ≡ returns i w'
      → IsValid w'.db
      → IsValid (run i calls w').db
  main-run-IsValid i calls w w' j h v =
      let ready = main-IsReady i w w' h in
      run-IsValid i calls w'
        (subst (TokenCheckKeeps (OnTables IsValid)) (sym ready.checks_tokens)
          (auth_service-TokenCheckKeeps IsValid jwt ready.cfg j))
        v
