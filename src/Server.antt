-- ===== src/Server.antt =====
-- cmd/server/main.go: the three services over the repositories, behind the interceptor, and the
-- dispatch of internal/gen/proto/*_grpc.pb.go from a method to its handler.
pub mod Keeps
pub mod Integrity
pub mod Access
pub mod Ownership
pub mod History
pub mod Authenticity
use based_backend.Prelude.{ℕ, List, [], String, ◌∷◌}
use based_backend.Prelude.Int.{ℤ}
use based_backend.Types.{Bytes, Time, codes}
use based_backend.World.{World, M, pure, throw, after, ◌>>=◌}
use based_backend.Proto.Messages.{
  User, Event, EventWithDistance, Message, CreateUserRequest, UpdateUserRequest, CreateEventRequest,
  GetNearbyEventsRequest, CreateMessageRequest,
}
use based_backend.Repositories.{new_user_repository, new_event_repository, new_chat_repository}
use based_backend.Services.Status.{Status, Code, Context, error}
use based_backend.Services.User as UserService
use based_backend.Services.Event as EventService
use based_backend.Services.Chat as ChatService
use based_backend.Interceptor.{AuthInterceptor, unary, stream}
use based_backend.Services.Chat.Stream.{open_stream}

-- The unary methods of proto/*.proto with the fields that the handlers read. The two methods of
-- events and the one of messages that have no handler read nothing.
pub data Request : Type 0 where
  create_user : CreateUserRequest → Request
  update_user : UpdateUserRequest → Request
  get_user delete_user : Request
  create_event : CreateEventRequest → Request
  get_event_by_id : Bytes → Request
  get_nearby_events : GetNearbyEventsRequest → Request
  get_user_events : ℤ → Request
  join_event leave_event : Bytes → Request
  update_event : Request
  delete_event : Bytes → Request
  get_event_attendee_stats : Request
  create_message : CreateMessageRequest → Request
  get_messages like_message unlike_message : Bytes → Request
  delete_message : Bytes → Bytes → Request

pub data Response : Type 0 where
  user : User → Response
  event : Event → Response
  nearby_events : List EventWithDistance → Response
  events : List Event → Response
  message : Message → Response
  messages : List Message → Response
  empty : Response

-- The FullMethodName constants.
unfoldable pub full_method : Request → Bytes
full_method (create_user req) = codes "/api.v1.UserService/CreateUser"
full_method (update_user req) = codes "/api.v1.UserService/UpdateUser"
full_method get_user = codes "/api.v1.UserService/GetUser"
full_method delete_user = codes "/api.v1.UserService/DeleteUser"
full_method (create_event req) = codes "/api.v1.EventService/CreateEvent"
full_method (get_event_by_id id) = codes "/api.v1.EventService/GetEventByID"
full_method (get_nearby_events req) = codes "/api.v1.EventService/GetNearbyEvents"
full_method (get_user_events limit) = codes "/api.v1.EventService/GetUserEvents"
full_method (join_event id) = codes "/api.v1.EventService/JoinEvent"
full_method (leave_event id) = codes "/api.v1.EventService/LeaveEvent"
full_method update_event = codes "/api.v1.EventService/UpdateEvent"
full_method (delete_event id) = codes "/api.v1.EventService/DeleteEvent"
full_method get_event_attendee_stats = codes "/api.v1.EventService/GetEventAttendeeStats"
full_method (create_message req) = codes "/api.v1.ChatService/CreateMessage"
full_method (get_messages id) = codes "/api.v1.ChatService/GetMessages"
full_method (like_message id) = codes "/api.v1.ChatService/LikeMessage"
full_method (unlike_message id) = codes "/api.v1.ChatService/UnlikeMessage"
full_method (delete_message id event_id) = codes "/api.v1.ChatService/DeleteMessage"

-- A method of an embedded Unimplemented…Server.
abbrev pub unimplemented : String → M Status Response
unimplemented what = throw (error Code.unimplemented what)

unfoldable pub dispatch : Context → Request → M Status Response
dispatch ctx (create_user req) =
    UserService.create_user new_user_repository ctx req >>= λ u. pure (user u)
dispatch ctx (update_user req) =
    UserService.update_user new_user_repository ctx req >>= λ u. pure (user u)
dispatch ctx get_user = UserService.get_user new_user_repository ctx >>= λ u. pure (user u)
dispatch ctx delete_user = UserService.delete_user new_user_repository ctx >>= λ _. pure empty
dispatch ctx (create_event req) =
    EventService.create_event new_event_repository ctx req >>= λ e. pure (event e)
dispatch ctx (get_event_by_id id) =
    EventService.get_event_by_id new_event_repository id >>= λ e. pure (event e)
dispatch ctx (get_nearby_events req) =
    EventService.get_nearby_events new_event_repository ctx req >>= λ es. pure (nearby_events es)
dispatch ctx (get_user_events limit) =
    EventService.get_user_events new_event_repository ctx limit >>= λ es. pure (events es)
dispatch ctx (join_event id) =
    EventService.join_event new_event_repository ctx id >>= λ _. pure empty
dispatch ctx (leave_event id) =
    EventService.leave_event new_event_repository ctx id >>= λ _. pure empty
dispatch ctx update_event = unimplemented "method UpdateEvent not implemented"
dispatch ctx (delete_event id) =
    EventService.delete_event new_event_repository ctx id >>= λ _. pure empty
dispatch ctx get_event_attendee_stats = unimplemented "method GetEventAttendeeStats not implemented"
dispatch ctx (create_message req) =
    ChatService.create_message new_chat_repository ctx req >>= λ m. pure (message m)
dispatch ctx (get_messages id) =
    ChatService.get_messages new_chat_repository ctx id >>= λ ms. pure (messages ms)
dispatch ctx (like_message id) =
    ChatService.like_message new_chat_repository ctx id >>= λ _. pure empty
dispatch ctx (unlike_message id) =
    ChatService.unlike_message new_chat_repository ctx id >>= λ _. pure empty
dispatch ctx (delete_message id event_id) = unimplemented "method DeleteMessage not implemented"

-- One unary call, from its context as gRPC hands it over.
unfoldable pub serve : AuthInterceptor → Context → Request → M Status Response
serve i ctx req = unary i ctx (full_method req) (λ ctx'. dispatch ctx' req)

-- ChatService_StreamMessages_FullMethodName
unfoldable pub stream_messages_method : Bytes
stream_messages_method = codes "/api.v1.ChatService/StreamMessages"

-- A call of StreamMessages, the one method that streams, up to the loops of its handler.
unfoldable pub serve_stream : AuthInterceptor → Context → Bytes → Time → M Status (Bytes × ℕ)
serve_stream i ctx event_id now =
    stream i ctx stream_messages_method (λ ctx'. open_stream ctx' event_id now)

-- Calls one after another, each with its own context.
unfoldable pub run : AuthInterceptor → List (Context × Request) → World → World
run i [] w = w
run i ((ctx, req) ∷ calls) w = run i calls (after (serve i ctx req w))
