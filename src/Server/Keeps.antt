-- ===== src/Server/Keeps.antt =====
-- Calls keep what the three repositories keep.
use based_backend.World.Stable.{Stable, Stable-bind, Stable-pure, Stable-throw, Stable-or_fail}
use based_backend.Repositories.Keeps.{
  UserRepositoryKeeps, ChatRepositoryKeeps, EventRepositoryKeeps,
}
use based_backend.Prelude.{Bool-cases, inl, inr, Option, none, some, List, [], ◌∷◌}
use based_backend.Services.Keeps.{
  create_user-Keeps, update_user-Keeps, get_user-Keeps, delete_user-Keeps, get_event_by_id-Keeps,
  create_event-Keeps, get_nearby_events-Keeps, get_user_events-Keeps, join_event-Keeps,
  leave_event-Keeps, delete_event-Keeps, create_message-Keeps, get_messages-Keeps,
  like_message-Keeps, unlike_message-Keeps, ForCaller, IsHubFree,
}
use based_backend.Interceptor.{
  Claim, Claims, AuthInterceptor, is_public, stripped, first_token, token_of_metadata,
  extract_token, user_id_of_sub, user_id_of_claims, authenticate, unary, map_claims, other_claims,
}
use based_backend.World.{World, M, pure, ◌>>=◌}
use based_backend.Types.{Bytes, Uuid}
use based_backend.Repositories.{new_user_repository, new_chat_repository, new_event_repository}
use based_backend.Services.Status.{Context, Status}
use based_backend.Interceptor.{text, other_value}
use based_backend.Server.{run, Request, dispatch, serve}

-- What the repositories of the running server keep for one caller.
pub record RepositoriesKeep (P : World → Type 0) (caller : Uuid) : Type 0 where
  pub users : UserRepositoryKeeps P caller new_user_repository
  pub events : EventRepositoryKeeps P caller new_event_repository
  pub chat : ChatRepositoryKeeps P caller new_chat_repository

module _ {P : World → Type 0} (ctx : Context) (free : IsHubFree P)
    (read : (x : Uuid) → Stable P (new_event_repository.get_event_by_id x))
    (k : ForCaller ctx (RepositoriesKeep P)) where
  then_pure-Keeps :
      {A B : Type 0} (m : M Status A) (f : A → B) → Stable P m → Stable P (m >>= λ a. pure (f a))
  then_pure-Keeps m f h = Stable-bind m _ h (λ a. Stable-pure (f a))

  pub dispatch-Keeps : (req : Request) → Stable P (dispatch ctx req)
  unfolding dispatch
  dispatch-Keeps (Request.create_user req) =
      then_pure-Keeps _ _ (create_user-Keeps _ ctx (λ id e. (k id e).users) req)
  dispatch-Keeps (Request.update_user req) =
      then_pure-Keeps _ _ (update_user-Keeps _ ctx (λ id e. (k id e).users) req)
  dispatch-Keeps Request.get_user =
      then_pure-Keeps _ _ (get_user-Keeps _ ctx (λ id e. (k id e).users))
  dispatch-Keeps Request.delete_user =
      then_pure-Keeps _ _ (delete_user-Keeps _ ctx (λ id e. (k id e).users))
  dispatch-Keeps (Request.create_event req) =
      then_pure-Keeps _ _ (create_event-Keeps _ ctx (λ id e. (k id e).events) req)
  dispatch-Keeps (Request.get_event_by_id event) =
      then_pure-Keeps _ _ (get_event_by_id-Keeps _ event read)
  dispatch-Keeps (Request.get_nearby_events req) =
      then_pure-Keeps _ _ (get_nearby_events-Keeps _ ctx (λ id e. (k id e).events) req)
  dispatch-Keeps (Request.get_user_events limit) =
      then_pure-Keeps _ _ (get_user_events-Keeps _ ctx (λ id e. (k id e).events) limit)
  dispatch-Keeps (Request.join_event event) =
      then_pure-Keeps _ _ (join_event-Keeps _ ctx (λ id e. (k id e).events) event)
  dispatch-Keeps (Request.leave_event event) =
      then_pure-Keeps _ _ (leave_event-Keeps _ ctx (λ id e. (k id e).events) event)
  dispatch-Keeps Request.update_event = Stable-throw _
  dispatch-Keeps (Request.delete_event event) =
      then_pure-Keeps _ _ (delete_event-Keeps _ ctx (λ id e. (k id e).events) event)
  dispatch-Keeps Request.get_event_attendee_stats = Stable-throw _
  dispatch-Keeps (Request.create_message req) =
      then_pure-Keeps _ _ (create_message-Keeps _ ctx (λ id e. (k id e).chat) free req)
  dispatch-Keeps (Request.get_messages event) =
      then_pure-Keeps _ _ (get_messages-Keeps _ ctx (λ id e. (k id e).chat) event)
  dispatch-Keeps (Request.like_message id) =
      then_pure-Keeps _ _ (like_message-Keeps _ ctx (λ id e. (k id e).chat) id)
  dispatch-Keeps (Request.unlike_message id) =
      then_pure-Keeps _ _ (unlike_message-Keeps _ ctx (λ id e. (k id e).chat) id)
  dispatch-Keeps (Request.delete_message id event) = Stable-throw _

-- The token check keeps `P`.
abbrev pub TokenCheckKeeps : (World → Type 0) → AuthInterceptor → Type 0
TokenCheckKeeps P i =
    (ctx : Context) (bearer : Bytes) → Stable P (i.auth_service.verify_token ctx bearer)

module _ {P : World → Type 0} where
  stripped-Keeps : (s : Option Bytes) → Stable P (stripped s)
  stripped-Keeps none = Stable-throw _
  stripped-Keeps (some rest) = Stable-pure rest

  first_token-Keeps : (vs : List Bytes) → Stable P (first_token vs)
  first_token-Keeps [] = Stable-throw _
  first_token-Keeps (v ∷ vs) = stripped-Keeps _

  token_of_metadata-Keeps :
      (md : Option (List (Bytes × List Bytes))) → Stable P (token_of_metadata md)
  token_of_metadata-Keeps none = Stable-throw _
  token_of_metadata-Keeps (some md) = first_token-Keeps _

  extract_token-Keeps : (ctx : Context) → Stable P (extract_token ctx)
  unfolding extract_token
  extract_token-Keeps ctx = token_of_metadata-Keeps ctx.metadata

  user_id_of_sub-Keeps : (c : Option Claim) → Stable P (user_id_of_sub c)
  user_id_of_sub-Keeps none = Stable-throw _
  user_id_of_sub-Keeps (some other_value) = Stable-throw _
  user_id_of_sub-Keeps (some (text [])) = Stable-throw _
  user_id_of_sub-Keeps (some (text (c ∷ cs))) = Stable-pure _

  user_id_of_claims-Keeps : (c : Claims) → Stable P (user_id_of_claims c)
  user_id_of_claims-Keeps (map_claims cs) = user_id_of_sub-Keeps _
  user_id_of_claims-Keeps other_claims = Stable-throw _

  module _ (i : AuthInterceptor) (t : TokenCheckKeeps P i) where
    pub authenticate-Keeps : (ctx : Context) → Stable P (authenticate i ctx)
    unfolding authenticate
    authenticate-Keeps ctx =
        search (Stable-bind, Stable-or_fail, extract_token-Keeps, t, user_id_of_claims-Keeps) depth
          6

    pub unary-Keeps :
        {A : Type 0} (ctx : Context) (path : Bytes) (handler : Context → M Status A)
        → ((c : Context) → Stable P (handler c))
        → Stable P (unary i ctx path handler)
    unfolding unary
    unary-Keeps ctx path handler k = elim (Bool-cases (is_public i.public_paths path)) [
      | inl e ↦ rw (e, unary) (k ctx)
      | inr e ↦ rw (e, unary) (Stable-bind _ _ (authenticate-Keeps ctx) (λ id. k _))
    ]

    module _ (free : IsHubFree P)
        (read : (x : Uuid) → Stable P (new_event_repository.get_event_by_id x))
        (k : (caller : Uuid) → RepositoriesKeep P caller) where
      pub serve-Keeps : (ctx : Context) (req : Request) → Stable P (serve i ctx req)
      unfolding serve
      serve-Keeps ctx req = unary-Keeps ctx _ _ (λ c. dispatch-Keeps c free read (λ id e. k _) req)

      pub run-Keeps : (calls : List (Context × Request)) (w : World) → P w → P (run i calls w)
      unfolding run
      run-Keeps [] w v = v
      run-Keeps ((ctx, req) ∷ calls) w v = run-Keeps calls _ ((serve-Keeps ctx req).at w v)
