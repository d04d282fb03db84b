-- ===== src/Server/Integrity.antt =====
-- Every history of calls keeps the constraints of the database.
use based_backend.Sqlc.Statement.Keeps.{OnTables}
use based_backend.Repositories.Integrity.{
  new_user_repository-IsValid, new_chat_repository-IsValid, new_event_repository-IsValid,
  get_event_by_id-IsValid,
}
use based_backend.Types.{Uuid}
use based_backend.Services.Status.{Context}
use based_backend.Server.Keeps.{RepositoriesKeep, TokenCheckKeeps, run-Keeps}
use based_backend.Server.{run, Request}
use based_backend.Interceptor.{AuthInterceptor}
use based_backend.Prelude.{List}
use based_backend.World.{World}
use based_backend.Sqlc.Integrity.{IsValid}

repositories-IsValid : (caller : Uuid) → RepositoriesKeep (OnTables IsValid) caller
repositories-IsValid caller = record {
  users = new_user_repository-IsValid caller;
  events = new_event_repository-IsValid caller;
  chat = new_chat_repository-IsValid caller;
}

-- From tables that meet the keys, foreign keys and checks of the migration, every sequence of unary
-- calls, whatever their contexts and whatever the database driver, the clock and the random UUIDs do,
-- leads to such tables, if the token check leaves the tables as they are.
pub run-IsValid :
    (i : AuthInterceptor) (calls : List (Context × Request)) (w : World)
    → TokenCheckKeeps (OnTables IsValid) i
    → IsValid w.db
    → IsValid (run i calls w).db
run-IsValid i calls w t v =
    run-Keeps i t (λ w h v. v) get_event_by_id-IsValid repositories-IsValid calls w v
