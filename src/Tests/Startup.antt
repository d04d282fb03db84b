-- ===== src/Tests/Startup.antt =====
-- Runs of LoadConfig and of main.
use based_backend.Prelude.{◌*◌, ◌≡◌, refl, List, [], ◌∷◌, none, some, if◌then◌else◌, arith}
use based_backend.Prelude.Int.{pos}
use based_backend.Types.{codes, bytes_eq, uuid_eq}
use based_backend.World.{World, returns, after}
use based_backend.Config.{
  Config, Process, loaded, getenv_or, number_setting, config_of, load_config,
}
use based_backend.Config.Atoi.{itoa}
use based_backend.Config.Loading.{Explained, load_config-of_settings, load_config-Explained}
use based_backend.Db.{Drivers, no_change, new_db, run_migrations}
use based_backend.World.{fails}
use based_backend.Interceptor.{
  AuthInterceptor, authenticate, is_public, unary, new_auth_interceptor,
}
use based_backend.Services.Auth.{auth_service, new_auth_service}
use based_backend.Main.{main}
use based_backend.Main.Startup.{IsReady, main-IsReady, main-run-IsValid}
use based_backend.Main.Serving.{main-run-IsIdentified}
use based_backend.Server.{run, full_method, serve, dispatch, Request}
use based_backend.Services.Status.{Context, get_user_id_from_context}
use based_backend.Services.User as UserService
use based_backend.Repositories.{new_user_repository}
use based_backend.Sqlc.Users.{get_user_by_id, select_user}
use based_backend.Sqlc.Statement.{statement}
use based_backend.Services.Convert.{convert_uuid}
use based_backend.Server.Authenticity.{IsIdentified}
use based_backend.Sqlc.Integrity.{IsValid}
use based_backend.Tests.{ada_id, start, tables-IsValid}
use based_backend.Tests.Access.{calls, incoming}
use based_backend.Tests.Auth.{test_jwt, test_jwt-IsVerifying, test_parse, checking}

-- An environment with the two numbers.
abbrev settings : Process
settings = record {
  lookup_env = λ name.
      if bytes_eq name (codes "MAX_POOL_CONNS")
      then some (itoa (pos 40))
      else if bytes_eq name (codes "MAX_CONN_LIFETIME_MINS")
      then some (itoa (pos 5))
      else none;
  working_directory = some (codes "/srv/cmd/server");
}

load_config-of_settings_example :
    (c : Config) × (load_config settings ≡ loaded c)
    × (c.max_pool_conns ≡ pos 40)
    × (c.max_conn_lifetime_mins ≡ pos (5 * 60000000000))
unfolding bytes_eq
load_config-of_settings_example =
    load_config-of_settings settings (codes "/srv/cmd/server") 40 5 refl (omega arith) refl
      (omega arith) refl

-- An environment with a number that is none.
abbrev misspelt : Process
misspelt = record {
  lookup_env = λ name. if bytes_eq name (codes "MAX_POOL_CONNS") then some (codes "4O") else none;
  working_directory = some (codes "/srv/cmd/server");
}

load_config-Explained_example : Explained misspelt (load_config misspelt)
load_config-Explained_example = load_config-Explained misspelt

-- Drivers for which everything is up, and all migrations have run before.
abbrev drivers : Drivers (Unit {0}) (Unit {0}) (Unit {0})
drivers = record {
  parse_config = λ url w. returns tt w;
  new_with_config = λ cfg w. returns tt w;
  ping = λ pool w. returns tt w;
  new_migrate = λ dir url w. returns tt w;
  up = λ m w. fails no_change w;
  close = λ m w. w;
}

abbrev bare : Process
bare = record { lookup_env = λ name. none; working_directory = some (codes "/srv/cmd/server") }

abbrev bare_config : Config
bare_config = config_of bare (codes "/srv/cmd/server") (pos 25) (pos (10 * 60000000000))

abbrev interceptor : AuthInterceptor
interceptor = new_auth_interceptor (auth_service test_jwt bare_config)

abbrev ready_world : World
ready_world = after (main drivers test_jwt (λ port. none) bare start)

serves : main drivers test_jwt (λ port. none) bare start ≡ returns interceptor ready_world
unfolding main load_config number_setting config_of getenv_or run_migrations new_db new_auth_service
    checking
serves = refl

main-IsReady_example : IsReady drivers test_jwt (λ port. none) bare interceptor start ready_world
main-IsReady_example =
    main-IsReady drivers test_jwt (λ port. none) bare interceptor start ready_world serves

ready_world-IsValid : IsValid ready_world.db
unfolding main load_config number_setting config_of getenv_or run_migrations new_db new_auth_service
    checking
ready_world-IsValid = tables-IsValid

main-run-IsValid_example : IsValid (run interceptor calls ready_world).db
main-run-IsValid_example =
    main-run-IsValid drivers test_jwt (λ port. none) bare interceptor calls start ready_world
      test_jwt-IsVerifying serves ready_world-IsValid

-- Ada has asked for her profile, and calls again.
abbrev earlier : List (Context × Request)
earlier = (incoming (codes "good"), Request.get_user) ∷ []

abbrev served : World
served = run interceptor earlier ready_world

adas_call :
    authenticate interceptor (incoming (codes "good")) served
    ≡ returns ada_id (after (authenticate interceptor (incoming (codes "good")) served))
unfolding main load_config number_setting config_of getenv_or run_migrations new_db new_auth_service
    checking test_parse run serve dispatch unary UserService.get_user new_user_repository
    get_user_by_id is_public full_method get_user_id_from_context statement select_user uuid_eq
    convert_uuid
adas_call = refl

main-run-IsIdentified_example :
    (cfg : Config) × (load_config bare ≡ loaded cfg)
    × IsIdentified test_jwt cfg
        (incoming (codes "good"))
        ada_id
        served
        (after (authenticate interceptor (incoming (codes "good")) served))
main-run-IsIdentified_example =
    main-run-IsIdentified drivers test_jwt (λ port. none) bare interceptor earlier
      (incoming (codes "good")) ada_id start ready_world _ test_jwt-IsVerifying serves adas_call
