-- ===== src/Main/Serving.antt =====
-- Whom the server of main takes its callers to be, after whatever calls.
use mathlib.Core.Path.{subst}
use based_backend.Prelude.{◌≡◌, sym, List, All, Option}
use based_backend.Types.{Bytes, Uuid}
use based_backend.World.{World, returns}
use based_backend.Config.{Config, Process, loaded, load_config}
use based_backend.Db.{Drivers}
use based_backend.Main.{main}
use based_backend.Main.Startup.{main-IsReady}
use based_backend.Interceptor.{AuthInterceptor, new_auth_interceptor, authenticate}
use based_backend.Repositories.Frame.{
  new_user_repository-Stable, new_chat_repository-Stable, new_event_repository-Stable,
  get_event_by_id-Stable,
}
use based_backend.Services.Status.{Context}
use based_backend.Services.Auth.Keys.{KeyStore}
use based_backend.Services.Auth.{JwtLibrary, auth_service, jwks_url}
use based_backend.Services.Auth.Publication.{IsPublished, Published, fetch_public_keys-Published}
use based_backend.Services.Auth.Verification.{IsVerifying, verify_token-Stable}
use based_backend.Server.{run, Request}
use based_backend.Server.Authenticity.{IsIdentified, authenticate-IsIdentified}
use based_backend.Server.Keeps.{RepositoriesKeep, TokenCheckKeeps, run-Keeps}

-- Every key of the map has been published under the URL.
abbrev AllPublished : Bytes → KeyStore → Type 0
AllPublished url s = All (IsPublished url s.replies s.requests) s.public_keys

repositories-Stable :
    (R : KeyStore → Type 0) (caller : Uuid) → RepositoriesKeep (λ w. R w.auth) caller
repositories-Stable R caller = record {
  users = new_user_repository-Stable R caller;
  events = new_event_repository-Stable R caller;
  chat = new_chat_repository-Stable R caller;
}

module _ (jwt : JwtLibrary) (cfg : Config) (j : IsVerifying jwt) where
  auth_service-Published :
      TokenCheckKeeps (Published (jwks_url cfg)) (new_auth_interceptor (auth_service jwt cfg))
  unfolding new_auth_interceptor auth_service
  auth_service-Published ctx bearer =
      verify_token-Stable cfg (fetch_public_keys-Published cfg) jwt bearer j

  -- Every sequence of unary calls leaves only published keys in the map, if it began so.
  run-Published :
      (calls : List (Context × Request)) (w : World)
      → Published (jwks_url cfg) w
      → Published (jwks_url cfg) (run (new_auth_interceptor (auth_service jwt cfg)) calls w)
  unfolding Published
  run-Published =
      let R = AllPublished (jwks_url cfg) in
      run-Keeps _ auth_service-Published (λ w h p. p) (get_event_by_id-Stable R)
        (repositories-Stable R)

module _ {Parsed Pool Migrator : Type 0} (drivers : Drivers Parsed Pool Migrator) (jwt : JwtLibrary)
    (listen : Bytes → Option Bytes) (process : Process) where
  -- When main has come to serve and has answered any sequence of unary calls, and the interceptor
  -- then takes a caller to be some user, the configuration has been loaded, and with it, a token
  -- stands in the call's metadata whose text holds that user as its subject, is signed with a
  -- signing key that the realm of that configuration has published, and is meant for its client if
  -- the audience that it holds is a string. This holds if the JWT library does what it documents.
  pub main-run-IsIdentified :
      (i : AuthInterceptor) (calls : List (Context × Request)) (ctx : Context) (id : Bytes)
      (w w' v : World)
      → IsVerifying jwt
      → main drivers jwt listen process w ≡ returns i w'
      → authenticate i ctx (run i calls w') ≡ returns id v
      → (cfg : Config) × (load_config process ≡ loaded cfg)
        × IsIdentified jwt cfg ctx id (run i calls w') v
  main-run-IsIdentified i calls ctx id w w' v j h given =
      let ready = main-IsReady drivers jwt listen process i w w' h in
      let checks = ready.checks_tokens in
      let (identified, _) =
        authenticate-IsIdentified jwt ready.cfg ctx id _ v j
          (run-Published jwt ready.cfg j calls w' ready.published)
          (subst (λ x. authenticate x ctx (run x calls w') ≡ returns id v) checks given) in
      (
        ready.cfg,
        ready.has_config,
        subst (λ x. IsIdentified jwt ready.cfg ctx id (run x calls w') v) (sym checks) identified,
      )
