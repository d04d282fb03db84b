-- ===== src/Sqlc/Users.antt =====
-- internal/gen/sqlc/users.sql.go: the queries of the users table.
use based_backend.Prelude.{
  ◌∷◌, Bool, not, ◌&&◌, Option, none, some, if◌then◌else◌, select, exists_where, find_where,
  update_where, refers_to_deleted, cascade,
}
use based_backend.Types.{Bytes, Uuid, Nullable, Time, uuid_eq, some_value}
use based_backend.Sqlc.Labels.{has_label, gender_labels}
use based_backend.Sqlc.Models.{gender_label, User, GenderType}
use based_backend.Sqlc.Keys.{
  same_user, event_creator, attendee_user, message_user, like_message, like_user,
}
use based_backend.World.{M}
use based_backend.Sqlc.Statement.{statement}
use based_backend.Sqlc.Database.{
  Database, Postgres, Env, Query, commits, aborts, DbError, not_null_violation, unique_violation,
  foreign_key_violation, invalid_enum_label, no_rows,
}

pub record CreateUserParams : Type 0 where
  pub user_id : Uuid
  pub name : Bytes
  pub birthday : Nullable Time
  pub gender : GenderType

pub record UpdateUserParams : Type 0 where
  pub user_id : Uuid
  pub name : Bytes
  pub birthday : Nullable Time
  pub gender : GenderType

abbrev pub is_user : Uuid → User → Bool
is_user id u = uuid_eq u.user_id id

-- Whether the value is one of the enum gender_type.
unfoldable pub is_gender : GenderType → Bool
is_gender g = has_label gender_labels (gender_label g)

abbrev date_column : Postgres → Nullable Time → Nullable Time
date_column pg t = record t { value = pg.to_date t.value }

unfoldable pub new_user : CreateUserParams → Postgres → Env → User
new_user p pg env = record {
  user_id = p.user_id;
  name = p.name;
  birthday = date_column pg p.birthday;
  gender = p.gender;
  created_at = some_value (pg.to_timestamptz env.now);
  updated_at = some_value (pg.to_timestamptz env.now);
}

unfoldable pub insert_user : CreateUserParams → Postgres → Env → Database → Query User
insert_user p pg env db =
    if not (is_gender p.gender)
    then aborts invalid_enum_label
    else if not (p.user_id.valid && p.birthday.valid)
    then aborts not_null_violation
    else if exists_where (same_user (new_user p pg env)) db.users
    then aborts unique_violation
    else commits (new_user p pg env) (record db { users = new_user p pg env ∷ db.users })

unfoldable pub create_user : CreateUserParams → M DbError User
create_user p = statement (insert_user p)

abbrev pub found : {A : Type 0} → Option A → Database → Query A
found none db = aborts no_rows
found (some a) db = commits a db

unfoldable pub select_user : Uuid → Postgres → Env → Database → Query User
select_user id pg env db = found (find_where (is_user id) db.users) db

unfoldable pub get_user_by_id : Uuid → M DbError User
get_user_by_id id = statement (select_user id)

unfoldable pub set_user : UpdateUserParams → Postgres → Env → User → User
set_user p pg env u = record u {
  name = p.name;
  birthday = date_column pg p.birthday;
  gender = p.gender;
  updated_at = some_value (pg.to_timestamptz env.now);
}

unfoldable pub update_user_row : UpdateUserParams → Postgres → Env → Database → Query User
update_user_row p pg env db =
    if not (is_gender p.gender)
    then aborts invalid_enum_label
    else elim (find_where (is_user p.user_id) db.users) [
      | none ↦ aborts no_rows
      | some u ↦
          if not p.birthday.valid
          then aborts not_null_violation
          else commits (set_user p pg env u)
              (record db { users = update_where (is_user p.user_id) (set_user p pg env) db.users })
    ]

unfoldable pub update_user : UpdateUserParams → M DbError User
update_user p = statement (update_user_row p)

-- Whether a user of this id has created events.
abbrev pub has_events : Uuid → Database → Bool
has_events id db =
    exists_where (λ u. is_user id u && exists_where (λ e. event_creator e u) db.events) db.users

-- ON DELETE CASCADE from users to event_attendees, chat_messages and message_likes, and from
-- chat_messages to message_likes.
unfoldable pub without_user : Uuid → Database → Database
without_user id db = record db {
  users = select (λ u. not (is_user id u)) db.users;
  event_attendees = cascade (is_user id) attendee_user db.users db.event_attendees;
  chat_messages = cascade (is_user id) message_user db.users db.chat_messages;
  message_likes =
      cascade (refers_to_deleted (is_user id) message_user db.users) like_message db.chat_messages
        (cascade (is_user id) like_user db.users db.message_likes);
}

-- The foreign key from events to users has no ON DELETE clause, so an event of the user stops the
-- statement.
unfoldable pub delete_user_row : Uuid → Postgres → Env → Database → Query (Unit {0})
delete_user_row id pg env db =
    if has_events id db then aborts foreign_key_violation else commits tt (without_user id db)

unfoldable pub delete_user : Uuid → M DbError (Unit {0})
delete_user id = statement (delete_user_row id)
