-- ===== src/Server/Access.antt =====
-- Which calls reach a handler.
use based_backend.Services.Status.{Context}
use based_backend.Server.{
  Request, full_method, dispatch, serve, stream_messages_method, serve_stream,
}
use based_backend.Services.Chat.Stream.{open_stream}
use based_backend.Interceptor.{
  AuthService, health_check, new_auth_interceptor, is_public, with_user_id, authenticate, unary,
  stream,
}
use based_backend.World.{◌>>=◌}
use based_backend.Types.{Bytes, Time, bytes_eq}
use based_backend.Prelude.{◌≡◌, refl, false, [], ◌∷◌}

methods_not_public : (req : Request) → is_public (health_check ∷ []) (full_method req) ≡ false
unfolding is_public full_method bytes_eq
methods_not_public (Request.create_user req) = refl
methods_not_public (Request.update_user req) = refl
methods_not_public Request.get_user = refl
methods_not_public Request.delete_user = refl
methods_not_public (Request.create_event req) = refl
methods_not_public (Request.get_event_by_id id) = refl
methods_not_public (Request.get_nearby_events req) = refl
methods_not_public (Request.get_user_events limit) = refl
methods_not_public (Request.join_event id) = refl
methods_not_public (Request.leave_event id) = refl
methods_not_public Request.update_event = refl
methods_not_public (Request.delete_event id) = refl
methods_not_public Request.get_event_attendee_stats = refl
methods_not_public (Request.create_message req) = refl
methods_not_public (Request.get_messages id) = refl
methods_not_public (Request.like_message id) = refl
methods_not_public (Request.unlike_message id) = refl
methods_not_public (Request.delete_message id event) = refl

stream_messages_not_public : is_public (health_check ∷ []) stream_messages_method ≡ false
unfolding is_public stream_messages_method bytes_eq
stream_messages_not_public = refl

-- No method of the three services is public, neither a unary one nor StreamMessages: each call is checked
-- first, ends with the error of the check if that fails, and else runs its handler with the id of the
-- token's subject, whatever id the context held before.
pub serve-authenticate :
    (a : AuthService) (ctx : Context)
    → ((req : Request)
        → serve (new_auth_interceptor a) ctx req ≡ (
            authenticate (new_auth_interceptor a) ctx >>= λ id. dispatch (with_user_id ctx id) req))
      × ((event_id : Bytes) (now : Time)
          → serve_stream (new_auth_interceptor a) ctx event_id now ≡ (
              authenticate (new_auth_interceptor a) ctx >>= λ id.
              open_stream (with_user_id ctx id) event_id now))
unfolding serve serve_stream unary stream new_auth_interceptor
serve-authenticate a ctx =
    (λ req. rw (methods_not_public req), λ event_id now. rw stream_messages_not_public)
