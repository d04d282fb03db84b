-- ===== src/Sqlc/Integrity/Users.antt =====
-- The queries of internal/gen/sqlc/users.sql.go keep the constraints.
use based_backend.Types.{Uuid}
use based_backend.Prelude.{
  arith, select, exists_where, Refers, ◌≡◌, refl, Bool, false, not, ◌&&◌, List, [], ◌∷◌,
}
use based_backend.Prelude.RowLaws.{
  Refers-grow, Distinct-select, exists_where-stays, Refers-select, Refers-cascade, Refers-update,
  Distinct-update,
}
use based_backend.Sqlc.Database.{Database, Postgres, Env}
use based_backend.Sqlc.Keys.{
  event_creator, attendee_user, message_user, like_user, same_user, same_attendee, same_message,
  same_like, same_moment, attendee_event, message_event, like_message,
}
use based_backend.Sqlc.Users.{
  CreateUserParams, insert_user, new_user, UpdateUserParams, is_user, select_user, set_user,
  update_user_row, has_events, without_user, delete_user_row,
}
use based_backend.Sqlc.Models.{User, Event}
use based_backend.Sqlc.Integrity.{IsValid}
use based_backend.Sqlc.Statement.Keeps.{Committed}

pub insert_user-IsValid :
    (p : CreateUserParams) (pg : Postgres) (env : Env) (db : Database)
    → IsValid db
    → Committed IsValid (insert_user p pg env db)
unfolding insert_user
insert_user-IsValid p pg env db v =
    let row = new_user p pg env in
    ground (
      arith,
      Refers-grow event_creator db.events row db.users,
      Refers-grow attendee_user db.event_attendees row db.users,
      Refers-grow message_user db.chat_messages row db.users,
      Refers-grow like_user db.message_likes row db.users,
    )

pub select_user-IsValid :
    (id : Uuid) (pg : Postgres) (env : Env) (db : Database)
    → IsValid db
    → Committed IsValid (select_user id pg env db)
unfolding select_user
select_user-IsValid id pg env db v = ground arith

-- The new values of a user's row, but its key.
pub update_user_row-IsValid :
    (p : UpdateUserParams) (pg : Postgres) (env : Env) (db : Database)
    → IsValid db
    → Committed IsValid (update_user_row p pg env db)
unfolding update_user_row set_user
update_user_row-IsValid p pg env db v =
    let q = is_user p.user_id in
    let f = set_user p pg env in
    ground (
      arith,
      Distinct-update same_user q f db.users (λ a b. refl) (λ a. refl) v.user_keys,
      Refers-update event_creator q f db.events db.users (λ a b. refl) v.creators,
      Refers-update attendee_user q f db.event_attendees db.users (λ a b. refl) v.attendees,
      Refers-update message_user q f db.chat_messages db.users (λ a b. refl) v.authors,
      Refers-update like_user q f db.message_likes db.users (λ a b. refl) v.likers,
    )

-- If no user that goes has created an event, the creators stay.
no_creator :
    (gone : User → Bool) (e : Event) (es : List Event) (us : List User)
    → exists_where (λ u. gone u && exists_where (λ x. event_creator x u) (e ∷ es)) us ≡ false
    → (exists_where (λ u. gone u && event_creator e u) us ≡ false)
      × (exists_where (λ u. gone u && exists_where (λ x. event_creator x u) es) us ≡ false)
no_creator gone e es [] h = (refl, refl)
no_creator gone e es (u ∷ us) h = ground (arith, no_creator gone e es us)

Refers-kept :
    (id : Uuid) (es : List Event) (us : List User)
    → Refers event_creator es us
    → exists_where (λ u. is_user id u && exists_where (λ x. event_creator x u) es) us ≡ false
    → Refers event_creator es (select (λ u. not (is_user id u)) us)
Refers-kept id [] us r h = tt
Refers-kept id (e ∷ es) us r h =
    let (one, rest) = no_creator (is_user id) e es us h in
    (exists_where-stays (event_creator e) (is_user id) us r.0 one, Refers-kept id es us r.1 rest)

-- A user without events goes, with attendances, messages and likes, and the likes of the messages.
pub without_user-IsValid :
    (id : Uuid) (db : Database)
    → IsValid db
    → has_events id db ≡ false
    → IsValid (without_user id db)
unfolding without_user
without_user-IsValid id db v h = record {
  user_keys = Distinct-select same_user _ db.users v.user_keys;
  event_keys = v.event_keys;
  attendee_keys = Distinct-select same_attendee _ db.event_attendees v.attendee_keys;
  message_keys = Distinct-select same_message _ db.chat_messages v.message_keys;
  moments = Distinct-select same_moment _ db.chat_messages v.moments;
  like_keys =
      Distinct-select same_like _ _ (Distinct-select same_like _ db.message_likes v.like_keys);
  creators = Refers-kept id db.events db.users v.creators h;
  attended = Refers-select attendee_event _ db.event_attendees db.events v.attended;
  attendees = Refers-cascade attendee_user (is_user id) db.event_attendees db.users v.attendees;
  message_events = Refers-select message_event _ db.chat_messages db.events v.message_events;
  authors = Refers-cascade message_user (is_user id) db.chat_messages db.users v.authors;
  liked =
      Refers-cascade like_message _ _ db.chat_messages
        (Refers-select like_message _ db.message_likes db.chat_messages v.liked);
  likers =
      Refers-select like_user _ _ _
        (Refers-cascade like_user (is_user id) db.message_likes db.users v.likers);
  checks = v.checks;
}

pub delete_user_row-IsValid :
    (id : Uuid) (pg : Postgres) (env : Env) (db : Database)
    → IsValid db
    → Committed IsValid (delete_user_row id pg env db)
unfolding delete_user_row
delete_user_row-IsValid id pg env db v = ground (arith, without_user-IsValid id db v)
