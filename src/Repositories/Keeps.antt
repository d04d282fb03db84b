-- ===== src/Repositories/Keeps.antt =====
-- A repository whose operations keep a property of the world, as far as the services call them on
-- behalf of one user: the caller.
use based_backend.World.{World}
use based_backend.World.Stable.{Stable}
use based_backend.Prelude.{◌≡◌}
use based_backend.Sqlc.Events.Rows.{
  CreateEventParams, DeleteEventParams, GetNearbyEventsByStatusParams, GetUserEventsParams,
  JoinEventParams, LeaveEventParams,
}
use based_backend.Sqlc.Chat.{
  CreateChatMessageParams, DeleteChatMessageParams, GetEventMessagesParams, LikeMessageParams,
  UnlikeMessageParams,
}
use based_backend.Sqlc.Users.{CreateUserParams, UpdateUserParams}
use based_backend.Types.{Uuid}
use based_backend.Repositories.{UserRepository, ChatRepository, EventRepository}

pub record UserRepositoryKeeps (P : World → Type 0) (caller : Uuid) (repo : UserRepository)
    : Type 0 where
  pub create_user : (p : CreateUserParams) → p.user_id ≡ caller → Stable P (repo.create_user p)
  pub update_user : (p : UpdateUserParams) → p.user_id ≡ caller → Stable P (repo.update_user p)
  pub get_user_by_id : (id : Uuid) → Stable P (repo.get_user_by_id id)
  pub delete_user : Stable P (repo.delete_user caller)

pub record EventRepositoryKeeps (P : World → Type 0) (caller : Uuid) (repo : EventRepository)
    : Type 0 where
  pub create_event :
      (p : CreateEventParams) → p.creator_id ≡ caller → Stable P (repo.create_event p)
  pub get_nearby_events : (p : GetNearbyEventsByStatusParams) → Stable P (repo.get_nearby_events p)
  pub get_user_events : (p : GetUserEventsParams) → Stable P (repo.get_user_events p)
  pub join_event : (p : JoinEventParams) → p.user_id ≡ caller → Stable P (repo.join_event p)
  pub leave_event : (p : LeaveEventParams) → p.user_id ≡ caller → Stable P (repo.leave_event p)
  pub delete_event :
      (p : DeleteEventParams) → p.creator_id ≡ caller → Stable P (repo.delete_event p)

pub record ChatRepositoryKeeps (P : World → Type 0) (caller : Uuid) (repo : ChatRepository)
    : Type 0 where
  pub create_message :
      (p : CreateChatMessageParams) → p.user_id ≡ caller → Stable P (repo.create_message p)
  pub get_event_messages : (p : GetEventMessagesParams) → Stable P (repo.get_event_messages p)
  pub like_message : (p : LikeMessageParams) → p.user_id ≡ caller → Stable P (repo.like_message p)
  pub unlike_message :
      (p : UnlikeMessageParams) → p.user_id ≡ caller → Stable P (repo.unlike_message p)
  pub delete_messsage :
      (p : DeleteChatMessageParams) → p.user_id ≡ caller → Stable P (repo.delete_messsage p)
