-- ===== src/Tests/Users.antt =====
-- Runs of the handlers of internal/services/user_service.go.
use based_backend.Prelude.{exists_where, find_where, ◌≡◌, refl, false, some}
use based_backend.Services.User.Deletion.{delete_user-of_creator, delete_user-removes}
use based_backend.Services.User.Laws.{get_user-create_user, get_user-update_user}
use based_backend.Services.Status.{Code, Status, errorf}
use based_backend.Services.Convert.{convert_uuid, convert_sql_gender_to_pb}
use based_backend.Sqlc.Statement.{advance}
use based_backend.Sqlc.Database.{DbError}
use based_backend.Sqlc.Users.{is_user}
use based_backend.Proto.Messages.{CreateUserRequest, UpdateUserRequest}
use based_backend.Proto.Enums.{UserGender}
use based_backend.Types.{codes, uuid_eq}
use based_backend.Repositories.{new_user_repository}
use based_backend.World.{fails, Outcome}
use based_backend.Sqlc.Models
use based_backend.World.{World, returns, after}
use based_backend.Tests.{everything, ada_id, bob_id, cleo_id, moment, start, context_of}
use based_backend.Proto.Messages as Messages
use based_backend.Services.User as UserService

abbrev cleo_request : CreateUserRequest
cleo_request = record {
  display_name = codes "Cleo";
  birthday = some (moment 5);
  gender = UserGender.diverse;
}

abbrev cleo : Messages.User
cleo = record {
  display_name = codes "Cleo";
  birthday = some (moment 5);
  gender = UserGender.diverse;
  user_id = cleo_id;
}

abbrev with_cleo : World
with_cleo =
    after (UserService.create_user new_user_repository (context_of cleo_id) cleo_request start)

get_user-create_user_example :
    UserService.get_user new_user_repository (context_of cleo_id) with_cleo
    ≡ returns cleo (advance with_cleo with_cleo.db)
unfolding everything
get_user-create_user_example =
    get_user-create_user (context_of cleo_id) cleo_id refl cleo_request start with_cleo cleo refl
      refl

abbrev bobby_request : UpdateUserRequest
bobby_request = record {
  display_name = codes "Bobby";
  birthday = some (moment 6);
  gender = UserGender.male;
}

abbrev bobby : Messages.User
bobby = record {
  display_name = codes "Bobby";
  birthday = some (moment 6);
  gender = UserGender.unspecified;
  user_id = bob_id;
}

abbrev with_bobby : World
with_bobby =
    after (UserService.update_user new_user_repository (context_of bob_id) bobby_request start)

get_user-update_user_example :
    (UserService.get_user new_user_repository (context_of bob_id) with_bobby
      ≡ returns bobby (advance with_bobby with_bobby.db))
    × (old : Models.User) × (find_where (is_user (convert_uuid bob_id)) start.db.users ≡ some old)
    × (bobby.gender ≡ convert_sql_gender_to_pb old.gender)
unfolding everything
get_user-update_user_example =
    get_user-update_user (context_of bob_id) bob_id refl bobby_request start with_bobby bobby refl
      refl

abbrev deleting_ada : Outcome Status (Unit {0})
deleting_ada = UserService.delete_user new_user_repository (context_of ada_id) start

delete_user-of_creator_example :
    (e : DbError) × (deleting_ada
      ≡ fails (errorf Code.internal "failed to delete user" e) (after deleting_ada))
    × ((after deleting_ada).db ≡ start.db)
unfolding everything
delete_user-of_creator_example = delete_user-of_creator (context_of ada_id) ada_id refl start refl

abbrev deleting_bob : Outcome Status (Unit {0})
deleting_bob = UserService.delete_user new_user_repository (context_of bob_id) start

delete_user-removes_example :
    (deleting_bob ≡ returns tt (after deleting_bob))
    × (exists_where (is_user (convert_uuid bob_id)) (after deleting_bob).db.users ≡ false)
    × (exists_where
          (λ a. uuid_eq a.user_id (convert_uuid bob_id))
          (after deleting_bob).db.event_attendees
        ≡ false)
    × (exists_where
          (λ m. uuid_eq m.user_id (convert_uuid bob_id))
          (after deleting_bob).db.chat_messages
        ≡ false)
    × (exists_where
          (λ l. uuid_eq l.user_id (convert_uuid bob_id))
          (after deleting_bob).db.message_likes
        ≡ false)
unfolding everything
delete_user-removes_example =
    delete_user-removes (context_of bob_id) bob_id refl start refl refl refl
