-- ===== src/Sqlc/Integrity/Events.antt =====
-- The queries of internal/gen/sqlc/events.sql.go keep the constraints.
use based_backend.Sqlc.Users.{is_user}
use based_backend.Sqlc.Models.{User, Event, EventAttendee}
use based_backend.Prelude.{
  refl, arith, Option-cases, All, exists_where, find_where, update_where, ◌≡◌, ◌∙◌, inl, inr, true,
  false, some, List,
}
use based_backend.Prelude.RowLaws.{
  Distinct-select, All-select, Refers-select, Refers-grow, Refers-cascade, Refers-update,
  Refers-update_child, Distinct-update, All-update, exists_where-congr, exists_where_of_found,
}
use based_backend.Types.{Uuid, uuid_eq_comm}
use based_backend.Sqlc.Database.{Database, Postgres, Env}
use based_backend.Sqlc.Keys.{
  same_event, same_attendee, same_message, same_moment, same_like, event_creator, attendee_event,
  attendee_user, message_event, message_user, like_message, like_user,
}
use based_backend.Sqlc.Events.Rows.{
  CreateEventParams, DeleteEventParams, JoinEventParams, LeaveEventParams, UpdateEventParams,
  GetNearbyEventsByStatusParams, GetUserEventsParams,
}
use based_backend.Sqlc.Events.Writes.{
  new_event, insert_event, is_event, is_event_by, delete_event_row, new_attendee, joining_user,
  join_event_row, leave_event_row, set_event, update_event_row, passes_checks, attends,
}
use based_backend.Sqlc.Events.Reads.{
  select_event, limited, select_nearby, select_user_events, select_stats,
}
use based_backend.Sqlc.Integrity.{IsValid}
use based_backend.Sqlc.Statement.Keeps.{Committed}

-- A new attendance is of this user and event, whatever the order of the comparison.
same_attendee-attends :
    (p : JoinEventParams) (pg : Postgres) (env : Env) (u : User) (rows : List EventAttendee)
    → exists_where (same_attendee (new_attendee p pg env u)) rows
      ≡ exists_where (attends p.event_id p.user_id) rows
unfolding new_attendee
same_attendee-attends p pg env u rows =
    exists_where-congr _ _ rows
      λ a. ground (arith, uuid_eq_comm p.event_id a.event_id, uuid_eq_comm p.user_id a.user_id)

attendee_event-is_event :
    (p : JoinEventParams) (pg : Postgres) (env : Env) (u : User) (rows : List Event)
    → exists_where (attendee_event (new_attendee p pg env u)) rows
      ≡ exists_where (is_event p.event_id) rows
unfolding new_attendee
attendee_event-is_event p pg env u rows =
    exists_where-congr _ _ rows λ e. uuid_eq_comm p.event_id e.event_id

attendee_user-is_user :
    (p : JoinEventParams) (pg : Postgres) (env : Env) (u : User) (rows : List User)
    → exists_where (attendee_user (new_attendee p pg env u)) rows
      ≡ exists_where (is_user p.user_id) rows
unfolding new_attendee
attendee_user-is_user p pg env u rows =
    exists_where-congr _ _ rows λ x. uuid_eq_comm p.user_id x.user_id

-- What the SELECT of joinEvent has checked when it finds a user.
pub joining_user_found :
    (p : JoinEventParams) (db : Database) (u : User)
    → joining_user p db ≡ some u
    → (exists_where (attends p.event_id p.user_id) db.event_attendees ≡ false)
      × (exists_where (is_event p.event_id) db.events ≡ true)
      × (find_where (is_user p.user_id) db.users ≡ some u)
unfolding joining_user
joining_user_found p db u h = ground arith

-- The CHECK constraints see only what the update sets.
set_event-checks :
    (p : UpdateEventParams) (pg : Postgres) (env : Env) (a b : Event)
    → passes_checks (set_event p pg env a) ≡ passes_checks (set_event p pg env b)
unfolding passes_checks set_event
set_event-checks p pg env a b = refl

update_where-checks :
    (p : UpdateEventParams) (pg : Postgres) (env : Env) (e : Event) (es : List Event)
    → All (λ r. passes_checks r ≡ true) es
    → passes_checks (set_event p pg env e) ≡ true
    → All (λ r. passes_checks r ≡ true) (update_where (is_event p.event_id) (set_event p pg env) es)
update_where-checks p pg env e es v ok =
    All-update passes_checks _ _ es (λ r _. set_event-checks p pg env r e ∙ ok) v

-- An update of events, if the rows still pass their checks.
updated-IsValid :
    (p : UpdateEventParams) (pg : Postgres) (env : Env) (db : Database)
    → IsValid db
    → let es = update_where (is_event p.event_id) (set_event p pg env) db.events in
      All (λ r. passes_checks r ≡ true) es → IsValid (record db { events = es })
unfolding set_event
updated-IsValid p pg env db v ok =
    let q = is_event p.event_id in
    let f = set_event p pg env in
    record {
      user_keys = v.user_keys;
      event_keys = Distinct-update same_event q f db.events (λ a b. refl) (λ a. refl) v.event_keys;
      attendee_keys = v.attendee_keys;
      message_keys = v.message_keys;
      moments = v.moments;
      like_keys = v.like_keys;
      creators = Refers-update_child event_creator q f db.events db.users (λ a. refl) v.creators;
      attended =
          Refers-update attendee_event q f db.event_attendees db.events (λ a b. refl) v.attended;
      attendees = v.attendees;
      message_events =
          Refers-update message_event q f db.chat_messages db.events (λ a b. refl) v.message_events;
      authors = v.authors;
      liked = v.liked;
      likers = v.likers;
      checks = ok;
    }

module _ (pg : Postgres) (env : Env) (db : Database) (v : IsValid db) where
  pub insert_event-IsValid : (p : CreateEventParams) → Committed IsValid (insert_event p pg env db)
  unfolding insert_event
  insert_event-IsValid p =
      let row = new_event p pg env in
      ground (
        arith,
        Refers-grow attendee_event db.event_attendees row db.events v.attended,
        Refers-grow message_event db.chat_messages row db.events v.message_events,
      )

  pub delete_event_row-IsValid :
      (p : DeleteEventParams) → Committed IsValid (delete_event_row p pg env db)
  unfolding delete_event_row
  delete_event_row-IsValid p = record {
    user_keys = v.user_keys;
    event_keys = Distinct-select same_event _ db.events v.event_keys;
    attendee_keys = Distinct-select same_attendee _ db.event_attendees v.attendee_keys;
    message_keys = Distinct-select same_message _ db.chat_messages v.message_keys;
    moments = Distinct-select same_moment _ db.chat_messages v.moments;
    like_keys = Distinct-select same_like _ db.message_likes v.like_keys;
    creators = Refers-select event_creator _ db.events db.users v.creators;
    attended =
        Refers-cascade attendee_event (is_event_by p) db.event_attendees db.events v.attended;
    attendees = Refers-select attendee_user _ db.event_attendees db.users v.attendees;
    message_events =
        Refers-cascade message_event (is_event_by p) db.chat_messages db.events v.message_events;
    authors = Refers-select message_user _ db.chat_messages db.users v.authors;
    liked = Refers-cascade like_message _ db.message_likes db.chat_messages v.liked;
    likers = Refers-select like_user _ db.message_likes db.users v.likers;
    checks = All-select _ _ db.events v.checks;
  }

  pub join_event_row-IsValid :
      (p : JoinEventParams) → Committed IsValid (join_event_row p pg env db)
  unfolding join_event_row
  join_event_row-IsValid p = elim (Option-cases (joining_user p db)) [
    | inl e ↦ rw (e, join_event_row) v
    | inr (u, e) ↦
        let (fresh, event, user) = joining_user_found p db u e in
        rw (e, join_event_row)
          (record {
            user_keys = v.user_keys;
            event_keys = v.event_keys;
            attendee_keys =
                (same_attendee-attends p pg env u db.event_attendees ∙ fresh, v.attendee_keys);
            message_keys = v.message_keys;
            moments = v.moments;
            like_keys = v.like_keys;
            creators = v.creators;
            attended = (attendee_event-is_event p pg env u db.events ∙ event, v.attended);
            attendees = (
              attendee_user-is_user p pg env u db.users ∙ exists_where_of_found _ db.users u user,
              v.attendees,
            );
            message_events = v.message_events;
            authors = v.authors;
            liked = v.liked;
            likers = v.likers;
            checks = v.checks;
          })
  ]

  pub leave_event_row-IsValid :
      (p : LeaveEventParams) → Committed IsValid (leave_event_row p pg env db)
  unfolding leave_event_row
  leave_event_row-IsValid p = record {
    user_keys = v.user_keys;
    event_keys = v.event_keys;
    attendee_keys = Distinct-select same_attendee _ db.event_attendees v.attendee_keys;
    message_keys = v.message_keys;
    moments = v.moments;
    like_keys = v.like_keys;
    creators = v.creators;
    attended = Refers-select attendee_event _ db.event_attendees db.events v.attended;
    attendees = Refers-select attendee_user _ db.event_attendees db.users v.attendees;
    message_events = v.message_events;
    authors = v.authors;
    liked = v.liked;
    likers = v.likers;
    checks = v.checks;
  }

  pub update_event_row-IsValid :
      (p : UpdateEventParams) → Committed IsValid (update_event_row p pg env db)
  unfolding update_event_row
  update_event_row-IsValid p = elim (Option-cases (find_where (is_event p.event_id) db.events)) [
    | inl e ↦ rw (e, update_event_row) (ground arith)
    | inr (x, e) ↦
        rw (e, update_event_row)
          (ground (
            arith,
            updated-IsValid p pg env db v,
            update_where-checks p pg env x db.events v.checks,
          ))
  ]

  pub select_event-IsValid : (id : Uuid) → Committed IsValid (select_event id pg env db)
  unfolding select_event
  select_event-IsValid id = ground arith

  pub select_nearby-IsValid :
      (p : GetNearbyEventsByStatusParams) → Committed IsValid (select_nearby p pg env db)
  unfolding select_nearby limited
  select_nearby-IsValid p = ground arith

  pub select_user_events-IsValid :
      (p : GetUserEventsParams) → Committed IsValid (select_user_events p pg env db)
  unfolding select_user_events limited
  select_user_events-IsValid p = ground arith

  pub select_stats-IsValid : (id : Uuid) → Committed IsValid (select_stats id pg env db)
  unfolding select_stats
  select_stats-IsValid id = v
