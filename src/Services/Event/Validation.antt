-- ===== src/Services/Event/Validation.antt =====
-- The checks of CreateEvent in internal/services/event_service.go.
use based_backend.Services.Event.{is_nil}
use based_backend.Prelude.{◌≡◌, refl, ◌≢◌, ◌↔◌, false, none, some, [], arith, Option, ◌∷◌}
use based_backend.Prelude.Int.{leb_ℤ, pos}
use based_backend.Services.Status.{Code, Status, Context, get_user_id_from_context}
use based_backend.Services.Event.{validate_create_event_request}
use based_backend.Proto.Messages.{CreateEventRequest}
use based_backend.Types.{Bytes}
use based_backend.Repositories.{EventRepository}
use based_backend.World.{World, fails}
use based_backend.Services.Event as EventService

is_empty_iff : (s : Bytes) → (EventService.is_empty s ≡ false) ↔ (s ≢ [])
is_empty_iff [] = (λ h. ground arith, λ h. absurd (h refl))
is_empty_iff (b ∷ bs) = (λ h e. absurd cc, λ h. refl)

is_nil_iff : {A : Type 0} (o : Option A) → (is_nil o ≡ false) ↔ (o ≢ none)
is_nil_iff none = (λ h. ground arith, λ h. absurd (h refl))
is_nil_iff (some a) = (λ h e. absurd cc, λ h. refl)

passes_iff :
    (req : CreateEventRequest)
    → (validate_create_event_request req ≡ none) ↔ (
        (EventService.is_empty req.name ≡ false)
        × (is_nil req.location ≡ false)
        × (is_nil req.datetime ≡ false)
        × (leb_ℤ req.max_attendees (pos 0) ≡ false))
unfolding validate_create_event_request
passes_iff req = (λ h. ground arith, λ h. ground arith)

-- validateCreateEventRequest lets a request pass exactly when it has a name, a location, a time, and a
-- positive number of attendees.
pub validate_create_event_request_iff :
    (req : CreateEventRequest)
    → (validate_create_event_request req ≡ none) ↔ (
        (req.name ≢ [])
        × (req.location ≢ none)
        × (req.datetime ≢ none)
        × (leb_ℤ req.max_attendees (pos 0) ≡ false))
validate_create_event_request_iff req = (
  λ h.
      let f = (passes_iff req).0 h in
      (
        (is_empty_iff req.name).0 f.0,
        (is_nil_iff req.location).0 f.1,
        (is_nil_iff req.datetime).0 f.2,
        f.3,
      ),
  λ h. (passes_iff req).1 (
    (is_empty_iff req.name).1 h.0,
    (is_nil_iff req.location).1 h.1,
    (is_nil_iff req.datetime).1 h.2,
    h.3,
  ),
)

-- A CreateEvent that the checks stop answers with the code InvalidArgument and does nothing: the
-- repository is not called, whatever it is.
create_event-invalid :
    (repo : EventRepository) (ctx : Context) (id : Bytes) (req : CreateEventRequest) (e : Status)
    (w : World)
    → ctx.user_id ≡ some id
    → validate_create_event_request req ≡ some e
    → (EventService.create_event repo ctx req w ≡ fails e w) × (e.code ≡ Code.invalid_argument)
unfolding EventService.create_event get_user_id_from_context validate_create_event_request
create_event-invalid repo ctx id req e w caller h = (rw (caller, h) refl, code_of req e h)
  where
    code_of :
        (req : CreateEventRequest) (e : Status)
        → validate_create_event_request req ≡ some e
        → e.code ≡ Code.invalid_argument
    code_of req e h = ground arith
