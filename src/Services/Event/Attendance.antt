-- ===== src/Services/Event/Attendance.antt =====
-- JoinEvent, LeaveEvent and CreateEvent of internal/services/event_service.go over the queries of
-- internal/gen/sqlc/events.sql.go: who attends an event.
use based_backend.World.Stable.{Stable-or_fail}
use based_backend.Prelude.RowLaws.{select_nothing}
use based_backend.Sqlc.Statement.Returns.{Commits, statement-Commits}
use based_backend.Sqlc.Statement.{advance}
use based_backend.Sqlc.Models.{User}
use based_backend.Prelude.Deletion.{found_of_exists}
use based_backend.Prelude.{
  Bool-cases, Option-cases, exists_where, ◌≡◌, refl, inl, inr, true, none, some, select, suc, false,
  not, arith, ◌∙◌,
}
use based_backend.Services.Status.{Status, Context, get_user_id_from_context}
use based_backend.Services.Convert.{convert_uuid}
use based_backend.Sqlc.Events.Rows.{JoinEventParams}
use based_backend.Sqlc.Events.Writes.{
  is_event, new_attendee, attends, joining_user, join_event_row, leave_event_row,
}
use based_backend.Sqlc.Database.{Database, Env, Postgres, delivered, commits}
use based_backend.Sqlc.Users.{is_user}
use based_backend.Types.{Bytes, uuid_eq_refl}
use based_backend.World.{World, Outcome, returns, after}
use based_backend.Sqlc.Statement.Keeps.{Keeps-statement}
use based_backend.Repositories.{new_event_repository}
use based_backend.Services.Event as EventService
use based_backend.Sqlc.Events.Writes

joining_user-attending :
    (p : JoinEventParams) (db : Database)
    → exists_where (attends p.event_id p.user_id) db.event_attendees ≡ true
    → joining_user p db ≡ none
unfolding joining_user
joining_user-attending p db h = rw (joining_user, h) refl

-- The two ids are not NULL.
module _ (p : JoinEventParams) (event_valid : p.event_id.valid ≡ true)
    (user_valid : p.user_id.valid ≡ true) (pg : Postgres) (env : Env) (db : Database) where
  new_attendee-attends : (u : User) → attends p.event_id p.user_id (new_attendee p pg env u) ≡ true
  unfolding new_attendee
  new_attendee-attends u =
      rw (uuid_eq_refl p.event_id event_valid, uuid_eq_refl p.user_id user_valid) refl

  -- After joinEvent nobody is left to join.
  pub join_event_row-joined : Commits (λ _ d. joining_user p d ≡ none) (join_event_row p pg env db)
  unfolding join_event_row
  join_event_row-joined = elim (Option-cases (joining_user p db)) [
    | inl e ↦ rw (join_event_row, e) e
    | inr (u, e) ↦
        rw (join_event_row, e) (joining_user-attending p _ (rw (new_attendee-attends u) refl))
  ]

  -- The rows that joinEvent adds are those that leaveEvent takes away.
  pub join_event_row-left :
      exists_where (attends p.event_id p.user_id) db.event_attendees ≡ false
      → Commits
          (λ _ d.
            select (λ a. not (attends p.event_id p.user_id a)) d.event_attendees
            ≡ db.event_attendees)
          (join_event_row p pg env db)
  unfolding join_event_row
  join_event_row-left absent = elim (Option-cases (joining_user p db)) [
    | inl e ↦ rw (join_event_row, e) (select_nothing _ db.event_attendees absent)
    | inr (u, e) ↦
        rw (join_event_row, e, new_attendee-attends u) (select_nothing _ db.event_attendees absent)
  ]

  pub join_event_row-events : Commits (λ _ d. d.events ≡ db.events) (join_event_row p pg env db)
  unfolding join_event_row
  join_event_row-events = elim (Option-cases (joining_user p db)) [
    | inl e ↦ rw (join_event_row, e) refl
    | inr (u, e) ↦ rw (join_event_row, e) refl
  ]

  pub join_event_row-attends :
      exists_where (is_event p.event_id) db.events ≡ true
      → exists_where (is_user p.user_id) db.users ≡ true
      → Commits
          (λ _ d. exists_where (attends p.event_id p.user_id) d.event_attendees ≡ true)
          (join_event_row p pg env db)
  unfolding join_event_row joining_user
  join_event_row-attends there known =
      elim (Bool-cases (exists_where (attends p.event_id p.user_id) db.event_attendees)) [
        | inl e ↦ rw (join_event_row, joining_user, e) e
        | inr e ↦
            let (u, f) = found_of_exists (is_user p.user_id) db.users known in
            rw (join_event_row, joining_user, e, there, f, new_attendee-attends u) refl
      ]

joining_user-missing :
    (p : JoinEventParams) (db : Database)
    → exists_where (is_event p.event_id) db.events ≡ false
    → joining_user p db ≡ none
unfolding joining_user
joining_user-missing p db h = ground arith

join_event_row-none :
    (p : JoinEventParams) (pg : Postgres) (env : Env) (db : Database)
    → joining_user p db ≡ none
    → join_event_row p pg env db ≡ commits tt db
unfolding join_event_row
join_event_row-none p pg env db h = rw (join_event_row, h) refl

join_event_row-missing :
    (p : JoinEventParams) (pg : Postgres) (env : Env) (db : Database)
    → exists_where (is_event p.event_id) db.events ≡ false
    → Commits (λ _ d. d ≡ db) (join_event_row p pg env db)
join_event_row-missing p pg env db h =
    rw (join_event_row-none p pg env db (joining_user-missing p db h)) refl

module _ (ctx : Context) (id event : Bytes) (caller : ctx.user_id ≡ some id) where
  abbrev joining : JoinEventParams
  joining = record { event_id = convert_uuid event; user_id = convert_uuid id }

  abbrev join : World → Outcome Status (Unit {0})
  join = EventService.join_event new_event_repository ctx event

  join-nothing : (w : World) → joining_user joining w.db ≡ none → (after (join w)).db ≡ w.db
  unfolding EventService.join_event new_event_repository Writes.join_event get_user_id_from_context
  join-nothing w h = rw caller (
      (Stable-or_fail {R = λ x. x.db ≡ w.db} _ _ (
          Keeps-statement _ λ pg env db same.
            let h' : joining_user joining db ≡ none = rw same h in
            rw (join_event_row-none joining pg env db h') same)).at
        w refl)

  join-joined :
      (w : World)
      → (w.env w.tick).delivery ≡ delivered
      → joining_user joining (after (join w)).db ≡ none
  unfolding EventService.join_event new_event_repository Writes.join_event get_user_id_from_context
      convert_uuid
  join-joined w through =
      let (a, db, e, h) =
        statement-Commits (join_event_row joining) w through
          (join_event_row-joined joining refl refl w.postgres (w.env w.tick) w.db) in
      rw (caller, e) h

  -- Once a JoinEvent has got through, another one by the same user for the same event leaves the tables
  -- as they are, whether it gets through or not.
  join_event-again :
      (w : World)
      → (w.env w.tick).delivery ≡ delivered
      → (after (join (after (join w)))).db ≡ (after (join w)).db
  join_event-again w through = join-nothing (after (join w)) (join-joined w through)

  -- A JoinEvent that gets through, for an event and a user that are in the tables, answers with
  -- success, and the user attends the event then, whatever the event's number of attendees, ages
  -- and genders are.
  pub join_event-attends :
      (w : World)
      → (w.env w.tick).delivery ≡ delivered
      → exists_where (is_event (convert_uuid event)) w.db.events ≡ true
      → exists_where (is_user (convert_uuid id)) w.db.users ≡ true
      → (join w ≡ returns tt (after (join w)))
        × (exists_where
              (attends (convert_uuid event) (convert_uuid id))
              (after (join w)).db.event_attendees
            ≡ true)
  unfolding EventService.join_event new_event_repository Writes.join_event get_user_id_from_context
      convert_uuid
  join_event-attends w through there known =
      let (a, db, e, h) =
        statement-Commits (join_event_row joining) w through
          (join_event_row-attends joining refl refl w.postgres (w.env w.tick) w.db there known) in
      rw (caller, e) (refl, h)

  -- A JoinEvent that gets through, for an event that is not there, answers with success as well,
  -- and changes no table.
  join_event-of_missing :
      (w : World)
      → (w.env w.tick).delivery ≡ delivered
      → exists_where (is_event (convert_uuid event)) w.db.events ≡ false
      → (join w ≡ returns tt (after (join w))) × ((after (join w)).db ≡ w.db)
  unfolding EventService.join_event new_event_repository Writes.join_event get_user_id_from_context
  join_event-of_missing w through missing =
      let (a, db, e, h) =
        statement-Commits (join_event_row joining) w through
          (join_event_row-missing joining w.postgres (w.env w.tick) w.db missing) in
      rw (caller, e) (refl, h)

  leave_event-removes :
      (w : World)
      → (w.env w.tick).delivery ≡ delivered
      → (after (EventService.leave_event new_event_repository ctx event w)).db.event_attendees
        ≡ select (λ a. not (attends (convert_uuid event) (convert_uuid id) a)) w.db.event_attendees
  unfolding EventService.leave_event new_event_repository Writes.leave_event
      get_user_id_from_context leave_event_row
  leave_event-removes w through =
      let (a, db, e, h) =
        statement-Commits
          {P = λ _ d.
            d.event_attendees
            ≡ select (λ a. not (attends (convert_uuid event) (convert_uuid id) a))
                w.db.event_attendees}
          (leave_event_row (record { event_id = convert_uuid event; user_id = convert_uuid id })) w
          through refl in
      rw (caller, e) h

  join_event-added :
      (w : World)
      → (w.env w.tick).delivery ≡ delivered
      → exists_where (attends (convert_uuid event) (convert_uuid id)) w.db.event_attendees ≡ false
      → (db : Database) × (join w ≡ returns tt (advance w db))
        × (select (λ a. not (attends (convert_uuid event) (convert_uuid id) a)) db.event_attendees
            ≡ w.db.event_attendees)
  unfolding EventService.join_event new_event_repository Writes.join_event get_user_id_from_context
      convert_uuid
  join_event-added w through absent =
      let (a, db, e, h) =
        statement-Commits (join_event_row joining) w through
          (join_event_row-left joining refl refl w.postgres (w.env w.tick) w.db absent) in
      (db, rw (caller, e) refl, h)

  -- A LeaveEvent that gets through after a JoinEvent that got through gives back the attendances from
  -- before, if the user did not attend the event.
  pub leave_event-join_event :
      (w : World)
      → (w.env w.tick).delivery ≡ delivered
      → (w.env (suc w.tick)).delivery ≡ delivered
      → exists_where (attends (convert_uuid event) (convert_uuid id)) w.db.event_attendees ≡ false
      → (after (
          EventService.leave_event new_event_repository ctx event
            (after (join w)))).db.event_attendees
        ≡ w.db.event_attendees
  leave_event-join_event w through through' absent =
      let (db, e, h) = join_event-added w through absent in
      rw e (leave_event-removes (advance w db) through' ∙ h)
