-- ===== src/Services/User/Deletion.antt =====
-- DeleteUser of internal/services/user_service.go over deleteUser of internal/gen/sqlc/users.sql.go:
-- what goes with a user, and what stops it.
use based_backend.Prelude.{exists_where, cascade, ◌≡◌, refl, true, false, ◌&&◌, some}
use based_backend.Prelude.Deletion.{exists_where_mono, exists_where-cascade}
use based_backend.Prelude.RowLaws.{exists_where-select, exists_where-select-not}
use based_backend.Services.Status.{Code, Status, errorf, Context, get_user_id_from_context}
use based_backend.Services.Convert.{convert_uuid}
use based_backend.Sqlc.Statement.Returns.{statement-delivered, statement-aborts}
use based_backend.Sqlc.Database.{Database, DbError, foreign_key_violation, delivered}
use based_backend.Sqlc.Users.{is_user, has_events, without_user, delete_user_row}
use based_backend.Types.{Bytes, Uuid, uuid_eq, uuid_eq_join}
use based_backend.Sqlc.Keys.{attendee_user, message_user, like_user}
use based_backend.Sqlc.Users as Queries
use based_backend.World.{World, Outcome, returns, fails, after}
use based_backend.Repositories.{new_user_repository}
use based_backend.Services.User as UserService

-- The rows that refer to a user go with it.
module _ (id : Uuid) (db : Database) (known : exists_where (is_user id) db.users ≡ true) where
  refers_to_user :
      (x : Uuid)
      → uuid_eq x id ≡ true
      → exists_where (λ u. is_user id u && uuid_eq x u.user_id) db.users ≡ true
  refers_to_user x same =
      exists_where_mono (is_user id) (λ u. is_user id u && uuid_eq x u.user_id) db.users
        (λ u h. rw (h, uuid_eq_join x u.user_id id same h) refl) known

  no_attendance_left :
      exists_where (λ a. uuid_eq a.user_id id) (without_user id db).event_attendees ≡ false
  unfolding without_user
  no_attendance_left =
      exists_where-cascade _ (is_user id) attendee_user db.users db.event_attendees
        (λ a h. refers_to_user a.user_id h)

  no_message_left :
      exists_where (λ m. uuid_eq m.user_id id) (without_user id db).chat_messages ≡ false
  unfolding without_user
  no_message_left =
      exists_where-cascade _ (is_user id) message_user db.users db.chat_messages
        (λ m h. refers_to_user m.user_id h)

  no_like_left : exists_where (λ l. uuid_eq l.user_id id) (without_user id db).message_likes ≡ false
  unfolding without_user
  no_like_left =
      exists_where-select _ _ (cascade (is_user id) like_user db.users db.message_likes) (
        exists_where-cascade _ (is_user id) like_user db.users db.message_likes
          (λ l h. refers_to_user l.user_id h))

no_user_left :
    (id : Uuid) (db : Database) → exists_where (is_user id) (without_user id db).users ≡ false
unfolding without_user
no_user_left id db = exists_where-select-not (is_user id) db.users

module _ (ctx : Context) (id : Bytes) (caller : ctx.user_id ≡ some id) (w : World) where
  abbrev deleting : Outcome Status (Unit {0})
  deleting = UserService.delete_user new_user_repository ctx w

  -- DeleteUser of a user who has created events never succeeds, whatever the driver does: it ends with
  -- the code Internal, and leaves all tables as they are.
  pub delete_user-of_creator :
      has_events (convert_uuid id) w.db ≡ true
      → (e : DbError) × (deleting
          ≡ fails (errorf Code.internal "failed to delete user" e) (after deleting))
        × ((after deleting).db ≡ w.db)
  unfolding UserService.delete_user new_user_repository Queries.delete_user get_user_id_from_context
      delete_user_row
  delete_user-of_creator creator =
      let (e, s) =
        statement-aborts (delete_user_row (convert_uuid id)) w foreign_key_violation
          (rw (delete_user_row, creator) refl) in
      (e, rw (caller, s) refl, rw (caller, s) refl)

  -- A DeleteUser that gets through, of a user who is in the table and has created no event, answers
  -- with success. The user is gone then, and so are the user's attendances, messages and likes.
  pub delete_user-removes :
      (w.env w.tick).delivery ≡ delivered
      → has_events (convert_uuid id) w.db ≡ false
      → exists_where (is_user (convert_uuid id)) w.db.users ≡ true
      → (deleting ≡ returns tt (after deleting))
        × (exists_where (is_user (convert_uuid id)) (after deleting).db.users ≡ false)
        × (exists_where
              (λ a. uuid_eq a.user_id (convert_uuid id))
              (after deleting).db.event_attendees
            ≡ false)
        × (exists_where (λ m. uuid_eq m.user_id (convert_uuid id)) (after deleting).db.chat_messages
            ≡ false)
        × (exists_where (λ l. uuid_eq l.user_id (convert_uuid id)) (after deleting).db.message_likes
            ≡ false)
  unfolding UserService.delete_user new_user_repository Queries.delete_user get_user_id_from_context
      delete_user_row
  delete_user-removes through no_events known =
      let s =
        statement-delivered (delete_user_row (convert_uuid id)) w tt
          (without_user (convert_uuid id) w.db) through (rw (delete_user_row, no_events) refl) in
      rw (caller, s)
        (
          refl,
          no_user_left (convert_uuid id) w.db,
          no_attendance_left (convert_uuid id) w.db known,
          no_message_left (convert_uuid id) w.db known,
          no_like_left (convert_uuid id) w.db known,
        )
