-- ===== src/Server/History.antt =====
-- Who can remove an event or a user, over histories of calls with their tokens.
use based_backend.Sqlc.Statement.Keeps.{OnTables}
use based_backend.Prelude.{In, ◌≡◌, refl, false, some, List, [], ◌∷◌}
use based_backend.Services.Status.{Status, Context}
use based_backend.Services.Convert.{convert_uuid}
use based_backend.Sqlc.Database.{Database}
use based_backend.Server.Keeps.{TokenCheckKeeps, authenticate-Keeps}
use based_backend.Server.Ownership.{dispatch-others_events, dispatch-others_users}
use based_backend.Server.Access.{serve-authenticate}
use based_backend.Interceptor.{AuthService, new_auth_interceptor, with_user_id, authenticate}
use based_backend.Types.{Bytes, Uuid, uuid_eq}
use based_backend.Sqlc.Models.{Event, User}
use based_backend.World.{World, Outcome, returns, fails, after, continue}
use based_backend.Server.{run, Request, dispatch, serve}

-- From the given world on, the check of each call, made in the world that the calls before it have left,
-- does not find a caller with the id `owner`.
abbrev NeverCaller : AuthService → Uuid → List (Context × Request) → World → Type 0
NeverCaller a owner [] w = Unit {0}
NeverCaller a owner ((ctx, req) ∷ calls) w =
    ((v : World) (id : Bytes)
      → authenticate (new_auth_interceptor a) ctx w ≡ returns id v
      → uuid_eq owner (convert_uuid id) ≡ false)
    × NeverCaller a owner calls (after (serve (new_auth_interceptor a) ctx req w))

module _ (P : Database → Type 0) (owner : Uuid)
    (stays : (ctx : Context) (id : Bytes) (req : Request) (w : World)
      → ctx.user_id ≡ some id
      → uuid_eq owner (convert_uuid id) ≡ false
      → P w.db
      → P (after (dispatch ctx req w)).db) where
  dispatched :
      (ctx : Context) (req : Request) (o : Outcome Status Bytes)
      → ((v : World) (id : Bytes) → o ≡ returns id v → uuid_eq owner (convert_uuid id) ≡ false)
      → P (after o).db
      → P (after (continue (λ id. dispatch (with_user_id ctx id) req) o)).db
  dispatched ctx req (returns id v) other p =
      stays (with_user_id ctx id) id req v refl (other v id refl) p
  dispatched ctx req (fails e v) other p = p

  run_stays :
      (a : AuthService) (calls : List (Context × Request)) (w : World)
      → TokenCheckKeeps (OnTables P) (new_auth_interceptor a)
      → NeverCaller a owner calls w
      → P w.db
      → P (run (new_auth_interceptor a) calls w).db
  unfolding run
  run_stays a [] w t n p = p
  run_stays a ((ctx, req) ∷ calls) w t n p = run_stays a calls _ t n.1 (
      rw ((serve-authenticate a ctx).0 req) (
        dispatched ctx req (authenticate (new_auth_interceptor a) ctx w) n.0
          ((authenticate-Keeps (new_auth_interceptor a) t ctx).at w p)))

-- If no call of a history is authenticated as the creator of an event, and the token check leaves the
-- tables as they are, the event stays in the table with the same row.
pub run-others_events :
    (a : AuthService) (calls : List (Context × Request)) (w : World) (row : Event)
    → TokenCheckKeeps (λ w. In row w.db.events) (new_auth_interceptor a)
    → NeverCaller a row.creator_id calls w
    → In row w.db.events
    → In row (run (new_auth_interceptor a) calls w).db.events
run-others_events a calls w row =
    run_stays (λ db. In row db.events) row.creator_id
      (λ ctx id req v e other. dispatch-others_events ctx id e req v row other) a calls w

-- If no call of a history is authenticated as a user of the table, and the token check leaves the
-- tables as they are, the user stays in the table with the same row.
pub run-others_users :
    (a : AuthService) (calls : List (Context × Request)) (w : World) (row : User)
    → TokenCheckKeeps (λ w. In row w.db.users) (new_auth_interceptor a)
    → NeverCaller a row.user_id calls w
    → In row w.db.users
    → In row (run (new_auth_interceptor a) calls w).db.users
run-others_users a calls w row =
    run_stays (λ db. In row db.users) row.user_id
      (λ ctx id req v e other. dispatch-others_users ctx id e req v row other) a calls w
