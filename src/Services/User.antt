-- ===== src/Services/User.antt =====
-- internal/services/user_service.go, over any repository.
pub mod Laws
pub mod Deletion
use based_backend.Prelude.{Bool, true, false, Option, none, some}
use based_backend.Types.{Bytes, Time, Nullable}
use based_backend.World.{M, pure, or_fail, ◌>>=◌}
use based_backend.Proto.Messages.{User, CreateUserRequest, UpdateUserRequest}
use based_backend.Sqlc.Models
use based_backend.Sqlc.Users.{CreateUserParams, UpdateUserParams}
use based_backend.Repositories.{UserRepository}
use based_backend.Services.Status.{Status, Code, Context, errorf, get_user_id_from_context}
use based_backend.Services.Convert.{
  convert_uuid, as_time, convert_pb_gender_to_sql, convert_sql_gender_to_pb,
}

-- `req.Birthday != nil`
abbrev is_given : {A : Type 0} → Option A → Bool
is_given none = false
is_given (some a) = true

-- pgtype.Date{Time: req.Birthday.AsTime(), Valid: req.Birthday != nil}
abbrev birthday_date : Option Time → Nullable Time
birthday_date t = record { value = as_time t; valid = is_given t }

-- The pb.User that each handler builds from a row.
abbrev pub user_response : Bytes → Models.User → User
user_response id u = record {
  display_name = u.name;
  birthday = some (u.birthday.value);
  gender = convert_sql_gender_to_pb u.gender;
  user_id = id;
}

abbrev pub create_user_params : Bytes → CreateUserRequest → CreateUserParams
create_user_params id req = record {
  user_id = convert_uuid id;
  name = req.display_name;
  birthday = birthday_date req.birthday;
  gender = convert_pb_gender_to_sql req.gender;
}

-- The gender is the one that the row already has.
abbrev pub update_user_params : Bytes → UpdateUserRequest → Models.User → UpdateUserParams
update_user_params id req u = record {
  user_id = convert_uuid id;
  name = req.display_name;
  birthday = birthday_date req.birthday;
  gender = u.gender;
}

module _ (repo : UserRepository) where
  unfoldable pub create_user : Context → CreateUserRequest → M Status User
  create_user ctx req = do
    id ← get_user_id_from_context ctx
    u ←
        or_fail (repo.create_user (create_user_params id req))
          (errorf Code.internal "failed to create user")
    pure (user_response id u)

  unfoldable pub update_user : Context → UpdateUserRequest → M Status User
  update_user ctx req = do
    id ← get_user_id_from_context ctx
    u ← or_fail (repo.get_user_by_id (convert_uuid id)) (errorf Code.internal "failed to get user")
    updated ←
        or_fail (repo.update_user (update_user_params id req u))
          (errorf Code.internal "failed to update user")
    pure (user_response id updated)

  unfoldable pub get_user : Context → M Status User
  get_user ctx = do
    id ← get_user_id_from_context ctx
    u ← or_fail (repo.get_user_by_id (convert_uuid id)) (errorf Code.internal "failed to get user")
    pure (user_response id u)

  unfoldable pub delete_user : Context → M Status (Unit {0})
  delete_user ctx = do
    id ← get_user_id_from_context ctx
    or_fail (repo.delete_user (convert_uuid id)) (errorf Code.internal "failed to delete user")
