-- ===== src/Services/Keeps.antt =====
-- A handler keeps what its repository keeps.
use based_backend.World.Stable.{Stable, Stable-bind, Stable-pure, Stable-throw, Stable-or_fail}
use based_backend.Services.Convert.{convert_uuid}
use based_backend.Prelude.{String, Bool, true, false, Option, none, some, ◌≡◌, refl}
use based_backend.Repositories.Keeps.{
  UserRepositoryKeeps, ChatRepositoryKeeps, EventRepositoryKeeps,
}
use based_backend.Repositories.{UserRepository, ChatRepository, EventRepository}
use based_backend.Prelude.Int.{ℤ}
use based_backend.Services.Event.{fail_if, required_location}
use based_backend.World.{World, after, M, ◌>>=◌}
use based_backend.Types.{Bytes, Uuid}
use based_backend.Services.Status.{Context, get_user_id_from_context, user_id_or_fail, Status}
use based_backend.Services.User as UserService
use based_backend.Services.Event as EventService
use based_backend.Services.Chat as ChatService
use based_backend.Services.Chat.{require, broadcast, after_step}
use based_backend.Services.Chat.Hub.{Hub, Step, ends, panics}
use based_backend.Proto.Messages.{
  Location, Message, CreateUserRequest, UpdateUserRequest, CreateEventRequest,
  GetNearbyEventsRequest, CreateMessageRequest,
}

-- `P` does not look at the subscribers.
abbrev pub IsHubFree : (World → Type 0) → Type 0
IsHubFree P = (w : World) (h : Hub) → P w → P (record w { hub = h })

after_step-valid :
    (P : World → Type 0) (s : Step) (w : World) → IsHubFree P → P w → P (after (after_step s w))
after_step-valid P (ends h) w free v = free w h v
after_step-valid P (panics h) w free v = free w h v

module _ {P : World → Type 0} where
  -- What follows GetUserIDFromContext runs with the id of the context.
  caller-Keeps :
      {A : Type 0} (id : Option Bytes) (f : Bytes → M Status A)
      → ((x : Bytes) → id ≡ some x → Stable P (f x))
      → Stable P (user_id_or_fail id >>= f)
  caller-Keeps none f k = Stable-throw _
  caller-Keeps (some x) f k = k x refl

  pub get_user_id_from_context-Keeps :
      {A : Type 0} (ctx : Context) (f : Bytes → M Status A)
      → ((x : Bytes) → ctx.user_id ≡ some x → Stable P (f x))
      → Stable P (get_user_id_from_context ctx >>= f)
  unfolding get_user_id_from_context
  get_user_id_from_context-Keeps ctx f k = caller-Keeps ctx.user_id f k

  pub fail_if-Keeps : (e : Option Status) → Stable P (fail_if e)
  fail_if-Keeps none = Stable-pure tt
  fail_if-Keeps (some e) = Stable-throw e

  pub required_location-Keeps : (l : Option Location) → Stable P (required_location l)
  required_location-Keeps none = Stable-throw _
  required_location-Keeps (some l) = Stable-pure l

  pub require-Keeps : (b : Bool) (what : String) → Stable P (require b what)
  require-Keeps true what = Stable-throw _
  require-Keeps false what = Stable-pure tt

  pub broadcast-Keeps : IsHubFree P → (msg : Message) → Stable P (broadcast msg)
  unfolding broadcast
  broadcast-Keeps free msg = record { at = λ w v. after_step-valid P _ w free v }

ruleset keeps = (
  Stable-bind, Stable-pure, Stable-or_fail, fail_if-Keeps, required_location-Keeps, require-Keeps,
)

-- The repository keeps `P` for the caller of a context.
abbrev pub ForCaller : Context → (Uuid → Type 0) → Type 0
ForCaller ctx Q = (id : Bytes) → ctx.user_id ≡ some id → Q (convert_uuid id)

module _ {P : World → Type 0} (repo : UserRepository) (ctx : Context)
    (k : ForCaller ctx (λ caller. UserRepositoryKeeps P caller repo)) where
  pub create_user-Keeps :
      (req : CreateUserRequest) → Stable P (UserService.create_user repo ctx req)
  unfolding UserService.create_user
  create_user-Keeps req = get_user_id_from_context-Keeps ctx _ λ id e.
      Stable-bind _ _ (Stable-or_fail _ _ ((k id e).create_user _ refl)) (λ u. Stable-pure _)

  pub update_user-Keeps :
      (req : UpdateUserRequest) → Stable P (UserService.update_user repo ctx req)
  unfolding UserService.update_user
  update_user-Keeps req = get_user_id_from_context-Keeps ctx _ λ id e.
      Stable-bind _ _ (Stable-or_fail _ _ ((k id e).get_user_by_id _))
        λ u. Stable-bind _ _ (Stable-or_fail _ _ ((k id e).update_user _ refl)) (λ v. Stable-pure _)

  pub get_user-Keeps : Stable P (UserService.get_user repo ctx)
  unfolding UserService.get_user
  get_user-Keeps =
      get_user_id_from_context-Keeps ctx _ λ id e. search (keeps, (k id e).get_user_by_id)

  pub delete_user-Keeps : Stable P (UserService.delete_user repo ctx)
  unfolding UserService.delete_user
  delete_user-Keeps =
      get_user_id_from_context-Keeps ctx _ λ id e. search (keeps, (k id e).delete_user)

pub get_event_by_id-Keeps :
    {P : World → Type 0} (repo : EventRepository) (id : Bytes)
    → ((x : Uuid) → Stable P (repo.get_event_by_id x))
    → Stable P (EventService.get_event_by_id repo id)
unfolding EventService.get_event_by_id
get_event_by_id-Keeps repo id k = search (keeps, k) depth 8

module _ {P : World → Type 0} (repo : EventRepository) (ctx : Context)
    (k : ForCaller ctx (λ caller. EventRepositoryKeeps P caller repo)) where
  pub create_event-Keeps :
      (req : CreateEventRequest) → Stable P (EventService.create_event repo ctx req)
  unfolding EventService.create_event
  create_event-Keeps req = get_user_id_from_context-Keeps ctx _ λ id e.
      Stable-bind _ _ (fail_if-Keeps _) λ _.
        Stable-bind _ _ (Stable-or_fail _ _ ((k id e).create_event _ refl)) λ created.
          Stable-bind _ _ (Stable-or_fail _ _ ((k id e).join_event _ refl)) (λ _. Stable-pure _)

  pub get_nearby_events-Keeps :
      (req : GetNearbyEventsRequest) → Stable P (EventService.get_nearby_events repo ctx req)
  unfolding EventService.get_nearby_events
  get_nearby_events-Keeps req =
      get_user_id_from_context-Keeps ctx _
        λ id e. search (keeps, (k id e).get_nearby_events) depth 8

  pub get_user_events-Keeps : (limit : ℤ) → Stable P (EventService.get_user_events repo ctx limit)
  unfolding EventService.get_user_events
  get_user_events-Keeps limit =
      get_user_id_from_context-Keeps ctx _ λ id e. search (keeps, (k id e).get_user_events) depth 8

  pub join_event-Keeps : (event : Bytes) → Stable P (EventService.join_event repo ctx event)
  unfolding EventService.join_event
  join_event-Keeps event =
      get_user_id_from_context-Keeps ctx _ λ id e. Stable-or_fail _ _ ((k id e).join_event _ refl)

  pub leave_event-Keeps : (event : Bytes) → Stable P (EventService.leave_event repo ctx event)
  unfolding EventService.leave_event
  leave_event-Keeps event =
      get_user_id_from_context-Keeps ctx _ λ id e. Stable-or_fail _ _ ((k id e).leave_event _ refl)

  pub delete_event-Keeps : (event : Bytes) → Stable P (EventService.delete_event repo ctx event)
  unfolding EventService.delete_event
  delete_event-Keeps event =
      get_user_id_from_context-Keeps ctx _ λ id e. Stable-or_fail _ _ ((k id e).delete_event _ refl)

module _ {P : World → Type 0} (repo : ChatRepository) (ctx : Context)
    (k : ForCaller ctx (λ caller. ChatRepositoryKeeps P caller repo)) where
  pub create_message-Keeps :
      IsHubFree P
      → (req : CreateMessageRequest) → Stable P (ChatService.create_message repo ctx req)
  unfolding ChatService.create_message
  create_message-Keeps free req = get_user_id_from_context-Keeps ctx _ λ id e.
      Stable-bind _ _ (require-Keeps _ _) λ _.
        Stable-bind _ _ (Stable-or_fail _ _ ((k id e).create_message _ refl))
          λ msg. Stable-bind _ _ (broadcast-Keeps free _) (λ _. Stable-pure _)

  pub get_messages-Keeps : (event : Bytes) → Stable P (ChatService.get_messages repo ctx event)
  unfolding ChatService.get_messages
  get_messages-Keeps event =
      get_user_id_from_context-Keeps ctx _
        λ id e. search (keeps, (k id e).get_event_messages) depth 8

  pub like_message-Keeps : (message : Bytes) → Stable P (ChatService.like_message repo ctx message)
  unfolding ChatService.like_message
  like_message-Keeps message = get_user_id_from_context-Keeps ctx _ λ id e.
      Stable-bind _ _ (require-Keeps _ _) (λ _. Stable-or_fail _ _ ((k id e).like_message _ refl))

  pub unlike_message-Keeps :
      (message : Bytes) → Stable P (ChatService.unlike_message repo ctx message)
  unfolding ChatService.unlike_message
  unlike_message-Keeps message = get_user_id_from_context-Keeps ctx _ λ id e.
      Stable-bind _ _ (require-Keeps _ _) (λ _. Stable-or_fail _ _ ((k id e).unlike_message _ refl))

  -- The handler that no method reaches.
  pub delete_messsage-Keeps :
      (message : Bytes) → Stable P (ChatService.delete_messsage repo ctx message)
  unfolding ChatService.delete_messsage
  delete_messsage-Keeps message = get_user_id_from_context-Keeps ctx _ λ id e.
      Stable-bind _ _ (require-Keeps _ _)
        (λ _. Stable-or_fail _ _ ((k id e).delete_messsage _ refl))
