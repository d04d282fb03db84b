-- ===== src/Services/Event/Creation.antt =====
-- CreateEvent of internal/services/event_service.go over createEvent and joinEvent of
-- internal/gen/sqlc/events.sql.go.
use based_backend.Prelude.Deletion.{exists_where_mono}
use based_backend.Prelude.RowLaws.{exists_where-congr}
use based_backend.Services.Event.Attendance.{join_event_row-events, join_event_row-attends}
use based_backend.Sqlc.Users.{is_user}
use based_backend.Sqlc.Statement.Returns.{statement-returns, statement-delivered, statement-refused}
use based_backend.Prelude.{
  exists_where, ◌≡◌, refl, true, Option, none, some, ◌∷◌, arith, ap, ◌∙◌, and_split, suc,
}
use based_backend.Services.Event.Convert.{convert_create_event_response_to_event}
use based_backend.Services.Status.{Status, Context, get_user_id_from_context, Code, errorf}
use based_backend.Services.Convert.{convert_uuid}
use based_backend.Services.Event.{validate_create_event_request, fail_if, create_event_params}
use based_backend.World.Returns.{continue-returns, recode-returns, success, result_of, world_of}
use based_backend.Sqlc.Events.Rows.{CreateEventParams, CreateEventRow, JoinEventParams}
use based_backend.Sqlc.Events.Writes.{
  new_event, created_row, insert_event, join_event_row, is_event_by, attends, is_event,
}
use based_backend.Sqlc.Statement.{statement, advance}
use based_backend.Sqlc.Keys.{event_creator}
use based_backend.Sqlc.Database.{Database, Env, Postgres, commits, driver_error, delivered, refused}
use based_backend.Proto.Messages.{CreateEventRequest}
use based_backend.Types.{Bytes, some_value, uuid_eq, uuid_eq_refl, uuid_eq_comm}
use based_backend.Proto.Messages as Messages
use based_backend.World.{World, returns, fails}
use based_backend.Repositories.{new_event_repository}
use based_backend.Services.Event as EventService
use based_backend.Sqlc.Events.Writes

insert_event-commits :
    (p : CreateEventParams) (pg : Postgres) (env : Env) (db db' : Database) (row : CreateEventRow)
    → insert_event p pg env db ≡ commits row db'
    → (row ≡ created_row pg (new_event p pg env))
      × (db' ≡ record db { events = new_event p pg env ∷ db.events })
      × (exists_where (event_creator (new_event p pg env)) db.users ≡ true)
      × (p.creator_id.valid ≡ true)
unfolding insert_event
insert_event-commits p pg env db db' row h = ground arith

-- What createEvent leaves for joinEvent.
module _ (p : CreateEventParams) (pg : Postgres) (env : Env) (db db' : Database)
    (row : CreateEventRow) (h : insert_event p pg env db ≡ commits row db') where
  insert_event-id : row.event_id ≡ some_value env.random_uuid
  unfolding created_row new_event
  insert_event-id = ap (λ r. r.event_id) (insert_event-commits p pg env db db' row h).0

  insert_event-created :
      exists_where
        (is_event_by (record { event_id = row.event_id; creator_id = p.creator_id }))
        db'.events
      ≡ true
  unfolding new_event
  insert_event-created =
      let (e, tables, known, valid) = insert_event-commits p pg env db db' row h in
      rw
        (
          tables,
          insert_event-id,
          uuid_eq_refl (some_value env.random_uuid) refl,
          uuid_eq_refl p.creator_id valid,
        )
        refl

  insert_event-there : exists_where (is_event row.event_id) db'.events ≡ true
  insert_event-there =
      exists_where_mono _ (is_event row.event_id) db'.events
        (λ e k. (and_split _ (uuid_eq e.creator_id p.creator_id) k).0) insert_event-created

  insert_event-known : exists_where (is_user p.creator_id) db'.users ≡ true
  unfolding new_event
  insert_event-known =
      let (e, tables, known, valid) = insert_event-commits p pg env db db' row h in
      rw tables (
        exists_where-congr (is_user p.creator_id) (event_creator (new_event p pg env)) db.users
          (λ u. uuid_eq_comm u.user_id p.creator_id)
        ∙ known)

-- The two statements one after the other.
module _ (p : CreateEventParams) (w v : World) (row : CreateEventRow)
    (inserted : statement (insert_event p) w ≡ returns row v) where
  statement-insert_event-id : row.event_id ≡ some_value row.event_id.value
  statement-insert_event-id =
      let (db, q, at) = statement-returns _ _ _ _ inserted in
      rw (insert_event-id p _ _ _ db row q) refl

  inserted_and_joined :
      (w' : World)
      → statement (join_event_row (record { event_id = row.event_id; user_id = p.creator_id })) v
        ≡ returns tt w'
      → (exists_where
            (is_event_by (record { event_id = row.event_id; creator_id = p.creator_id }))
            w'.db.events
          ≡ true)
        × (exists_where (attends row.event_id p.creator_id) w'.db.event_attendees ≡ true)
  inserted_and_joined w' joined =
      let (db, q, at) = statement-returns _ _ _ _ inserted in
      let (db', q', at') = statement-returns _ _ _ _ joined in
      let same : v.db ≡ db = ap (λ u. u.db) at in
      let jp : JoinEventParams = record { event_id = row.event_id; user_id = p.creator_id } in
      let event_valid : row.event_id.valid ≡ true = rw (insert_event-id p _ _ _ db row q) refl in
      let user_valid : p.creator_id.valid ≡ true = (insert_event-commits p _ _ _ db row q).3 in
      let there : exists_where (is_event row.event_id) v.db.events ≡ true =
        rw same (insert_event-there p _ _ _ db row q) in
      let known : exists_where (is_user p.creator_id) v.db.users ≡ true =
        rw same (insert_event-known p _ _ _ db row q) in
      let events =
        rw q' at (join_event_row-events jp event_valid user_valid v.postgres (v.env v.tick) v.db) in
      let attending = rw q' at (
        join_event_row-attends jp event_valid user_valid v.postgres (v.env v.tick) v.db there
          known) in
      let kept : db'.events ≡ db.events = events ∙ ap (λ d. d.events) same in
      (rw (at', kept) (insert_event-created p _ _ _ db row q), rw at' attending)

fail_if-returns :
    (e : Option Status) (w v : World) → fail_if e w ≡ returns tt v → (e ≡ none) × (v ≡ w)
fail_if-returns none w v h = (refl, cc)
fail_if-returns (some e) w v h = absurd cc

-- The two statements of a CreateEvent that succeeds.
record Created (id : Bytes) (req : CreateEventRequest) (w : World) (e : Messages.Event) (w' : World)
    : Type 0 where
  row : CreateEventRow
  between : World
  inserted : statement (insert_event (create_event_params id req)) w ≡ returns row between
  joined :
      statement
        (join_event_row (record { event_id = row.event_id; user_id = convert_uuid id }))
        between
      ≡ returns tt w'
  answer : convert_create_event_response_to_event row ≡ e

module _ (ctx : Context) (id : Bytes) (caller : ctx.user_id ≡ some id)
    (req : CreateEventRequest) where
  create_event-Created :
      (w : World) (e : Messages.Event) (w' : World)
      → EventService.create_event new_event_repository ctx req w ≡ returns e w'
      → Created id req w e w'
  unfolding EventService.create_event new_event_repository Writes.create_event Writes.join_event
      get_user_id_from_context success
  create_event-Created w e w' h =
      let h0 = rw caller at h in
      let (_, v1, e1, h1) =
        continue-returns _ (fail_if (validate_create_event_request req) w) e w' h0 in
      let (row, v2, e2, h2) = continue-returns _ _ e w' h1 in
      let (_, v3, e3, h3) = continue-returns _ _ e w' h2 in
      let start : v1 ≡ w = (fail_if-returns _ w v1 e1).1 in
      let q2 =
        recode-returns _ (new_event_repository.create_event (create_event_params id req) v1) row v2
          e2 in
      let (row', v2', s2, r2) = continue-returns _ _ row v2 q2 in
      let same : returns row' v2' ≡ returns row v2 = r2 in
      record {
        row = row;
        between = v2;
        inserted = rw (← start) (s2 ∙ same);
        joined = recode-returns _ _ tt v3 e3 ∙ ap (returns tt) (world_of _ _ v3 w' h3);
        answer = result_of _ _ v3 w' h3;
      }

  -- When CreateEvent succeeds, an event with the id that it answers with stands in the table with
  -- the caller as its creator, and the caller attends it.
  pub create_event-attends :
      (w : World) (e : Messages.Event) (w' : World)
      → EventService.create_event new_event_repository ctx req w ≡ returns e w'
      → (exists_where
            (is_event_by
              (record { event_id = some_value e.event_id; creator_id = convert_uuid id }))
            w'.db.events
          ≡ true)
        × (exists_where (attends (some_value e.event_id) (convert_uuid id)) w'.db.event_attendees
            ≡ true)
  unfolding convert_uuid convert_create_event_response_to_event
  create_event-attends w e w' h =
      let c = create_event-Created w e w' h in
      let id_of_row : c.row.event_id.value ≡ e.event_id = ap (λ a. a.event_id) c.answer in
      let (stored, attending) = inserted_and_joined _ w c.between c.row c.inserted w' c.joined in
      let named : c.row.event_id ≡ some_value e.event_id =
        statement-insert_event-id _ w c.between c.row c.inserted ∙ ap some_value id_of_row in
      (rw named at stored, rw named at attending)

  -- CreateEvent is two statements. If a request passes the checks, the first statement gets through
  -- and commits, and the second is refused, the call answers with the error of the second and the
  -- code Internal. The event stays in the table, and the attendances are those from before.
  pub create_event-refused_join :
      (w : World) (row : CreateEventRow) (db : Database) (why : Bytes)
      → validate_create_event_request req ≡ none
      → (w.env w.tick).delivery ≡ delivered
      → insert_event (create_event_params id req) w.postgres (w.env w.tick) w.db ≡ commits row db
      → (w.env (suc w.tick)).delivery ≡ refused why
      → (v : World) × (EventService.create_event new_event_repository ctx req w
          ≡ fails (errorf Code.internal "failed to join event" (driver_error why)) v)
        × (exists_where
              (is_event_by (record { event_id = row.event_id; creator_id = convert_uuid id }))
              v.db.events
            ≡ true)
        × (v.db.event_attendees ≡ w.db.event_attendees)
  unfolding EventService.create_event new_event_repository Writes.create_event Writes.join_event
      get_user_id_from_context
  create_event-refused_join w row db why ok through commit stopped =
      let s =
        statement-delivered (insert_event (create_event_params id req)) w row db through commit in
      let jp : JoinEventParams = record { event_id = row.event_id; user_id = convert_uuid id } in
      let t = statement-refused (join_event_row jp) (advance w db) why stopped in
      let (e, tables, known, valid) = insert_event-commits _ _ _ _ db row commit in
      (
        advance (advance w db) db,
        rw (caller, ok, s, t) refl,
        insert_event-created _ _ _ _ db row commit,
        ap (λ d. d.event_attendees) tables,
      )
