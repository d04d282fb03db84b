-- ===== src/Services/Event/Deletion.antt =====
-- DeleteEvent of internal/services/event_service.go over deleteEvent of internal/gen/sqlc/events.sql.go:
-- what goes with an event, and for whom.
use based_backend.World.Stable.{Stable-or_fail}
use based_backend.Prelude.Deletion.{exists_where_mono, exists_where-cascade}
use based_backend.Sqlc.Statement.{deliver, statement}
use based_backend.Sqlc.Keys.{like_message, same_event}
use based_backend.Sqlc.Models.{Event}
use based_backend.Prelude.RowLaws.{
  select_nothing, exists_where_and, cascade_nothing, exists_where-select, exists_where-congr,
}
use based_backend.Sqlc.Events.Rows.{DeleteEventParams}
use based_backend.Sqlc.Keys.{attendee_event, message_event}
use based_backend.Sqlc.Database.{Database, Env, Postgres, commits, delivered}
use based_backend.Sqlc.Models.{ChatMessage}
use based_backend.Prelude.{
  ◌≡◌, Bool-cases, and_split, select, exists_where, Distinct, refers_to_deleted, cascade, refl, ◌∙◌,
  inl, inr, true, false, not, ◌&&◌, some, List, [], ◌∷◌, arith,
}
use based_backend.Services.Status.{Context, get_user_id_from_context, Status}
use based_backend.Services.Convert.{convert_uuid}
use based_backend.Sqlc.Events.Writes.{is_event_by, delete_event_row, is_event}
use based_backend.Types.{Bytes, Uuid, uuid_eq, uuid_eq_join, eq_of_uuid_eq, uuid_eq_comm}
use based_backend.World.{World, Outcome, returns, after}
use based_backend.Sqlc.Statement.Keeps.{Keeps-statement}
use based_backend.Repositories.{new_event_repository}
use based_backend.Services.Event as EventService
use based_backend.Sqlc.Events.Writes

-- Deleting no event deletes nothing else.
delete_event_row-nothing :
    (p : DeleteEventParams) (pg : Postgres) (env : Env) (db : Database)
    → exists_where (is_event_by p) db.events ≡ false
    → delete_event_row p pg env db ≡ commits tt db
unfolding delete_event_row
delete_event_row-nothing p pg env db h =
    let likes : exists_where (refers_to_deleted (is_event_by p) message_event db.events)
          db.chat_messages
        ≡ false =
      no_message p db.events db.chat_messages h in
    rw (
      select_nothing (is_event_by p) db.events h,
      cascade_nothing (is_event_by p) attendee_event db.events db.event_attendees h,
      cascade_nothing (is_event_by p) message_event db.events db.chat_messages h,
      cascade_nothing _ like_message db.chat_messages db.message_likes likes,
    )
  where
    no_message :
        (p : DeleteEventParams) (es : List Event) (ms : List ChatMessage)
        → exists_where (is_event_by p) es ≡ false
        → exists_where (refers_to_deleted (is_event_by p) message_event es) ms ≡ false
    no_message p es [] h = refl
    no_message p es (m ∷ ms) h =
        ground
          (arith, exists_where_and (is_event_by p) (message_event m) es h, no_message p es ms h)

-- The rows that refer to an event go with it.
module _ (p : DeleteEventParams) (db : Database)
    (created : exists_where (is_event_by p) db.events ≡ true) where
  refers_to_event :
      (id : Uuid)
      → uuid_eq id p.event_id ≡ true
      → exists_where (λ e. is_event_by p e && uuid_eq id e.event_id) db.events ≡ true
  refers_to_event id same =
      exists_where_mono (is_event_by p) (λ e. is_event_by p e && uuid_eq id e.event_id) db.events
        (λ e h.
          let h' : uuid_eq e.event_id p.event_id ≡ true = (and_split _ _ h).0 in
          rw (h, uuid_eq_join id e.event_id p.event_id same h') refl)
        created

  pub no_attendance_left :
      exists_where
        (λ a. uuid_eq a.event_id p.event_id)
        (cascade (is_event_by p) attendee_event db.events db.event_attendees)
      ≡ false
  no_attendance_left =
      exists_where-cascade _ (is_event_by p) attendee_event db.events db.event_attendees
        (λ a h. refers_to_event a.event_id h)

  pub no_message_left :
      exists_where
        (λ m. uuid_eq m.event_id p.event_id)
        (cascade (is_event_by p) message_event db.events db.chat_messages)
      ≡ false
  no_message_left =
      exists_where-cascade _ (is_event_by p) message_event db.events db.chat_messages
        (λ m h. refers_to_event m.event_id h)

-- An id that the creator's event has no other event has.
no_event_left :
    (p : DeleteEventParams) (es : List Event)
    → Distinct same_event es
    → exists_where (is_event_by p) es ≡ true
    → exists_where (is_event p.event_id) (select (λ e. not (is_event_by p e)) es) ≡ false
no_event_left p [] d h = refl
no_event_left p (r ∷ rs) d h = elim (Bool-cases (is_event_by p r)) [
  | inl e ↦
      let same : uuid_eq r.event_id p.event_id ≡ true = (and_split _ _ e).0 in
      let eq : r.event_id ≡ p.event_id = eq_of_uuid_eq _ _ same in
      let others : exists_where (is_event p.event_id) rs ≡ false =
        no_other p.event_id r rs eq d.0 in
      rw e (exists_where-select (is_event p.event_id) (λ e. not (is_event_by p e)) rs others)
  | inr e ↦
      let later : exists_where (is_event_by p) rs ≡ true = rw e at h in
      let differs : is_event p.event_id r ≡ false = first_differs p r rs later d.0 in
      let rest = no_event_left p rs d.1 later in rw (e, differs) rest
]
  where
    no_other :
        (id : Uuid) (r : Event) (rs : List Event)
        → r.event_id ≡ id
        → exists_where (same_event r) rs ≡ false
        → exists_where (is_event id) rs ≡ false
    no_other id r rs eq h =
        exists_where-congr (is_event id) (same_event r) rs (λ e. rw eq (uuid_eq_comm e.event_id id))
        ∙ h

    first_differs :
        (p : DeleteEventParams) (r : Event) (rs : List Event)
        → exists_where (is_event_by p) rs ≡ true
        → exists_where (same_event r) rs ≡ false
        → is_event p.event_id r ≡ false
    first_differs p r rs later fresh = elim (Bool-cases (is_event p.event_id r)) [
      | inl same ↦
          let found =
            exists_where_mono (is_event_by p) (same_event r) rs
              (λ e h. uuid_eq_join r.event_id e.event_id p.event_id same (and_split _ _ h).0)
              later in
          ground (arith, found)
      | inr differs ↦ differs
    ]

module _ (ctx : Context) (id event : Bytes) (caller : ctx.user_id ≡ some id) (w : World) where
  abbrev deletion : DeleteEventParams
  deletion = record { event_id = convert_uuid event; creator_id = convert_uuid id }

  -- DeleteEvent on behalf of a user who has created no event of the given id leaves all tables as
  -- they are, whether the statement gets through or not.
  pub delete_event-of_others :
      exists_where (is_event_by deletion) w.db.events ≡ false
      → (after (EventService.delete_event new_event_repository ctx event w)).db ≡ w.db
  unfolding EventService.delete_event new_event_repository Writes.delete_event
      get_user_id_from_context
  delete_event-of_others none_by = rw caller (
      (Stable-or_fail {R = λ x. x.db ≡ w.db} _ _ (
          Keeps-statement _ λ pg env db same.
            let h : exists_where (is_event_by deletion) db.events ≡ false = rw same none_by in
            rw (delete_event_row-nothing deletion pg env db h) same)).at
        w refl)

  abbrev deleting : Outcome Status (Unit {0})
  deleting = EventService.delete_event new_event_repository ctx event w

  -- A DeleteEvent that gets through, of an event that the caller has created, answers with success,
  -- if no two events have one id. No event of that id is left then, and no attendance and no
  -- message of that id.
  pub delete_event-of_creator :
      exists_where (is_event_by deletion) w.db.events ≡ true
      → Distinct same_event w.db.events
      → (w.env w.tick).delivery ≡ delivered
      → (deleting ≡ returns tt (after deleting))
        × (exists_where (is_event (convert_uuid event)) (after deleting).db.events ≡ false)
        × (exists_where
              (λ a. uuid_eq a.event_id (convert_uuid event))
              (after deleting).db.event_attendees
            ≡ false)
        × (exists_where
              (λ m. uuid_eq m.event_id (convert_uuid event))
              (after deleting).db.chat_messages
            ≡ false)
  unfolding EventService.delete_event new_event_repository Writes.delete_event
      get_user_id_from_context statement deliver delete_event_row
  delete_event-of_creator created keys through =
      rw (caller, through)
        (
          refl,
          no_event_left deletion w.db.events keys created,
          no_attendance_left deletion w.db created,
          no_message_left deletion w.db created,
        )
