-- ===== src/Services/Event/Nearby.antt =====
-- GetNearbyEvents of internal/services/event_service.go over getNearbyEventsByStatus of
-- internal/gen/sqlc/events.sql.go.
use based_backend.Prelude.Int.{pos}
use mathlib.Core.Path.{subst}
use based_backend.Prelude.Membership.{
  All-select, All-order_by, All-of_map, All-take, In-select, In-map, In-order_by, All-In,
  take_cases,
}
use based_backend.Services.Event.Convert.{
  nearby_event_to_proto, convert_get_nearby_events_response_to_proto,
}
use based_backend.Services.Status.{Context, get_user_id_from_context}
use based_backend.Services.Convert.{convert_uuid, convert_pb_status_to_sql}
use based_backend.Services.Event.{nearby_params}
use based_backend.Sqlc.Statement.Returns.{statement-delivered}
use based_backend.Sqlc.Statement.{advance}
use based_backend.Proto.Messages.{Location, EventWithDistance, GetNearbyEventsRequest}
use based_backend.Types.{Bytes, bytes_eq, bytes_eq_refl, eq_of_bytes_eq}
use based_backend.Prelude.{
  ◌↔◌, ◌⊎◌, ◌∙◌, length-map, Bool-cases, take, All, All-map, select, find_where, In, ℕ, zero, suc,
  ◌≡◌, refl, inl, inr, true, some, List, [], ◌∷◌, map, arith, length, length-take, ◌≤◌, false,
}
use based_backend.Sqlc.Events.Rows.{GetNearbyEventsByStatusParams, GetNearbyEventsByStatusRow}
use based_backend.Sqlc.Events.Reads.{
  is_nearby, nearby_row, nearby_rows, limited, select_nearby, admits,
}
use based_backend.Sqlc.Database.{Database, Postgres, delivered}
use based_backend.Sqlc.Users.{is_user}
use based_backend.Sqlc.Models.{Event, User, GenderType, event_status_label, event_status_eq}
use based_backend.World.{World, returns}
use based_backend.Services.Event as EventService
use based_backend.Sqlc.Events.Reads as Reads
use based_backend.Repositories.{new_event_repository}

-- An event admits a user's gender, if that is one of the three that it speaks of.
abbrev pub Welcomes : Event → GenderType → Type 0
Welcomes e g =
    ((g ≡ GenderType.female) × (e.allow_female ≡ true))
    ⊎ ((g ≡ GenderType.male) × (e.allow_male ≡ true))
    ⊎ ((g ≡ GenderType.diverse) × (e.allow_diverse ≡ true))

-- The event has the status of the request, lies within its radius around its location, whose x is the
-- longitude, and admits the user.
pub record IsAskedFor (req : GetNearbyEventsRequest) (location : Location) (pg : Postgres)
    (u : User) (e : Event) : Type 0 where
  pub status :
      event_status_label e.status ≡ event_status_label (convert_pb_status_to_sql req.status)
  pub near :
      pg.within e.location (pg.make_point location.longitude location.latitude) req.radius_meters
      ≡ true
  pub welcome : Welcomes e u.gender

-- The answer shows an event, with where it is and how far that is from the location of the request.
pub record IsShownAs (location : Location) (pg : Postgres) (e : Event) (shown : EventWithDistance)
    : Type 0 where
  pub event_id : shown.event.event_id ≡ e.event_id.value
  pub creator_id : shown.event.creator_id ≡ e.creator_id.value
  pub name : shown.event.name ≡ e.name
  pub max_attendees : shown.event.max_attendees ≡ e.max_attendees
  pub place :
      shown.event.location
      ≡ some (record { latitude = pg.st_y e.location; longitude = pg.st_x e.location })
  pub distance :
      shown.distance_meters
      ≡ pg.distance e.location (pg.make_point location.longitude location.latitude)

-- The event is among the answers.
abbrev pub IsAmong : Location → Postgres → List EventWithDistance → Event → Type 0
IsAmong location pg shown e = (s : EventWithDistance) × In s shown × IsShownAs location pg e s

admits-Welcomes : (g : GenderType) (e : Event) → (admits g e ≡ true) ↔ Welcomes e g
unfolding admits
admits-Welcomes g e = ground arith

-- The answer shows an event of the table that the request asks for.
abbrev pub Shows :
    GetNearbyEventsRequest → Location → Postgres → User → Database → EventWithDistance → Type 0
Shows req location pg u db shown =
    (e : Event) × In e db.events × IsAskedFor req location pg u e × IsShownAs location pg e shown

module _ (id : Bytes) (req : GetNearbyEventsRequest) (location : Location) (pg : Postgres)
    (u : User) where
  abbrev asked : GetNearbyEventsByStatusParams
  asked = nearby_params id location req

  is_nearby-IsAskedFor :
      (e : Event) → is_nearby asked pg u e ≡ true → IsAskedFor req location pg u e
  unfolding event_status_eq
  is_nearby-IsAskedFor e h = record {
    status = eq_of_bytes_eq _ _ (ground arith);
    near = ground arith;
    welcome = (admits-Welcomes u.gender e).0 (ground arith);
  }

  IsAskedFor-is_nearby :
      (e : Event) → IsAskedFor req location pg u e → is_nearby asked pg u e ≡ true
  unfolding event_status_eq
  IsAskedFor-is_nearby e a =
      let label = event_status_label e.status in
      let same : bytes_eq label (event_status_label asked.status) ≡ true =
        subst (λ x. bytes_eq label x ≡ true) a.status (bytes_eq_refl label) in
      let open_to = (admits-Welcomes u.gender e).1 a.welcome in rw (same, a.near, open_to) refl

  nearby_row-IsShownAs :
      (db : Database) (e : Event)
      → IsShownAs location pg e (nearby_event_to_proto (nearby_row asked pg db e))
  unfolding nearby_event_to_proto nearby_row
  nearby_row-IsShownAs db e = record {
    event_id = refl;
    creator_id = refl;
    name = refl;
    max_attendees = refl;
    place = refl;
    distance = refl;
  }

  module _ (db : Database) (known : find_where (is_user asked.user_id) db.users ≡ some u) where
    nearby_rows-Shows :
        All (λ r. Shows req location pg u db (nearby_event_to_proto r)) (nearby_rows asked pg db)
    unfolding nearby_rows
    nearby_rows-Shows =
        rw (nearby_rows, known)
          (All-order_by _ _ _ (
            All-of_map _ (nearby_row asked pg db) _ (
              All-map (λ e h. (e, h.0, is_nearby-IsAskedFor e h.1, nearby_row-IsShownAs db e))
                (select (is_nearby asked pg u) db.events)
                (All-select (is_nearby asked pg u) db.events))))

    nearby_rows_complete :
        All
          (λ e.
            ¬ IsAskedFor req location pg u e
            ⊎ IsAmong location pg (map nearby_event_to_proto (nearby_rows asked pg db)) e)
          db.events
    unfolding nearby_rows
    nearby_rows_complete =
        All-map
          (λ e i. elim (Bool-cases (is_nearby asked pg u e)) [
            | inl h ↦ inr (
              nearby_event_to_proto (nearby_row asked pg db e),
              In-map nearby_event_to_proto _ _ (
                  rw (nearby_rows, known)
                    (In-order_by _ _ _ (
                      In-map (nearby_row asked pg db) e _
                        (In-select (is_nearby asked pg u) e db.events i h)))),
              nearby_row-IsShownAs db e,
            )
            | inr h ↦ inl (λ a. let clash = IsAskedFor-is_nearby e a in absurd cc)
          ])
          db.events (All-In db.events)

nearby_rows-unspecified :
    (p : GetNearbyEventsByStatusParams) (pg : Postgres) (db : Database) (u : User)
    → find_where (is_user p.user_id) db.users ≡ some u
    → u.gender ≡ GenderType.unspecified
    → (n : ℕ) → take n (nearby_rows p pg db) ≡ []
unfolding nearby_rows admits
nearby_rows-unspecified p pg db u known g n =
    rw (nearby_rows, known, none_near p pg u g db.events) (take_none n)
  where
    none_near :
        (p : GetNearbyEventsByStatusParams) (pg : Postgres) (u : User)
        → u.gender ≡ GenderType.unspecified
        → (es : List Event) → select (is_nearby p pg u) es ≡ []
    none_near p pg u g [] = refl
    none_near p pg u g (e ∷ es) =
        let out : admits u.gender e ≡ false = rw g refl in ground (arith, none_near p pg u g es)

    take_none : (n : ℕ) → take {A = GetNearbyEventsByStatusRow} n [] ≡ []
    take_none zero = refl
    take_none (suc n) = refl

module _ (ctx : Context) (id : Bytes) (req : GetNearbyEventsRequest) (location : Location)
    (w : World) (u : User) (n : ℕ) (caller : ctx.user_id ≡ some id)
    (given : req.location ≡ some location) (at_most : req.limit ≡ pos n)
    (through : (w.env w.tick).delivery ≡ delivered)
    (known : find_where (is_user (convert_uuid id)) w.db.users ≡ some u) where
  abbrev search_params : GetNearbyEventsByStatusParams
  search_params = nearby_params id location req

  get_nearby_events-rows :
      EventService.get_nearby_events new_event_repository ctx req w
      ≡ returns
          (convert_get_nearby_events_response_to_proto
            (take n (nearby_rows search_params w.postgres w.db)))
          (advance w w.db)
  unfolding EventService.get_nearby_events new_event_repository Reads.get_nearby_events_by_status
      get_user_id_from_context select_nearby limited
  get_nearby_events-rows =
      let s =
        statement-delivered (select_nearby search_params) w
          (take n (nearby_rows search_params w.postgres w.db)) w.db through
          (rw (select_nearby, limited, at_most) refl) in
      rw (caller, given, s) refl

  -- A GetNearbyEvents that gets through, with a location, a limit that is not negative and a caller
  -- who is in the table, answers with at most as many events as the limit says. Each is an event of
  -- the table with the status and within the radius that the request gives, and it admits the
  -- gender that the table has for the caller; it is shown with its place and the distance from the
  -- request's location. If there are fewer than the limit says, no such event is missing.
  pub get_nearby_events-Shows :
      (shown : List EventWithDistance) × (EventService.get_nearby_events new_event_repository ctx
          req w
        ≡ returns shown (advance w w.db))
      × (length shown ≤ n)
      × All (Shows req location w.postgres u w.db) shown
      × ((length shown ≡ n)
          ⊎ All
              (λ e. ¬ IsAskedFor req location w.postgres u e ⊎ IsAmong location w.postgres shown e)
              w.db.events)
  unfolding convert_get_nearby_events_response_to_proto
  get_nearby_events-Shows =
      let rows = nearby_rows search_params w.postgres w.db in
      let counted = length-map (take n rows) nearby_event_to_proto in
      (
        map nearby_event_to_proto (take n rows),
        get_nearby_events-rows,
        rw (counted, length-take n rows) (omega arith),
        All-of_map _ nearby_event_to_proto _
            (All-take _ n rows (nearby_rows-Shows id req location w.postgres u w.db known)),
        elim (take_cases n rows) [
          | inl full ↦ inl (counted ∙ full)
          | inr all ↦ inr (rw all (nearby_rows_complete id req location w.postgres u w.db known))
        ],
      )

  -- To a caller whose gender in the table is unspecified, a GetNearbyEvents that gets through, with
  -- a location and a limit that is not negative, shows no event.
  pub get_nearby_events-unspecified :
      u.gender ≡ GenderType.unspecified
      → EventService.get_nearby_events new_event_repository ctx req w ≡ returns [] (advance w w.db)
  unfolding convert_get_nearby_events_response_to_proto
  get_nearby_events-unspecified g =
      rw (nearby_rows-unspecified search_params w.postgres w.db u known g n) at
        get_nearby_events-rows
