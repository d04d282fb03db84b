-- ===== src/Main.antt =====
-- main of cmd/server/main.go, up to the call of Serve; Server models the calls from there on.
pub mod Startup
pub mod Serving
use based_backend.Prelude.{◌++◌, Option, none, some}
use based_backend.Types.{Bytes, codes}
use based_backend.World.{M, pure, throw, or_fail, ◌>>=◌, ◌>>◌}
use based_backend.Config.{Config, ConfigError, Process, Loaded, loaded, rejected, load_config}
use based_backend.Db.{Drivers, DbSetupError, new_db, run_migrations}
use based_backend.Interceptor.{AuthInterceptor, new_auth_interceptor}
use based_backend.Services.Auth.{JwtLibrary, FetchError, new_auth_service}

-- What log.Fatalf ends the process with.
pub data Fatal : Type 0 where
  unloaded_config : ConfigError → Fatal
  unmigrated unconnected : DbSetupError → Fatal
  no_auth_service : FetchError → Fatal
  not_listening : Bytes → Fatal

abbrev pub configured : Loaded Config → M Fatal Config
configured (loaded cfg) = pure cfg
configured (rejected e) = throw (unloaded_config e)

abbrev pub listening : Option Bytes → M Fatal (Unit {0})
listening none = pure tt
listening (some e) = throw (not_listening e)

-- The repositories and the services are those of Server. net.Listen gives an error or none.
unfoldable pub main :
    {Parsed Pool Migrator : Type 0}
    → Drivers Parsed Pool Migrator
    → JwtLibrary
    → (Bytes → Option Bytes)
    → Process
    → M Fatal AuthInterceptor
main drivers jwt listen process = do
  cfg ← configured (load_config process)
  _ ← or_fail (run_migrations drivers cfg) unmigrated
  db_pool ← or_fail (new_db drivers cfg) unconnected
  auth_service ← or_fail (new_auth_service jwt cfg) no_auth_service
  _ ← listening (listen (codes ":" ++ cfg.grpc_port))
  pure (new_auth_interceptor auth_service)
