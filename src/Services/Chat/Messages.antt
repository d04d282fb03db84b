-- ===== src/Services/Chat/Messages.antt =====
-- GetMessages of internal/services/chat_service.go over getEventMessages of
-- internal/gen/sqlc/chat.sql.go.
use mathlib.Core.List.{Perm}
use based_backend.Prelude.Sorting.{Sorted, order_by-Perm, order_by-Sorted}
use based_backend.Prelude.Int.{ℤ, leb_ℤ, to_int32}
use based_backend.Prelude.{
  ℕ, suc, [], ◌∷◌, ap, ◌↔◌, ◌&&◌, length, exists_where, if◌then◌else◌, Bool-cases, select, ◌≡◌,
  refl, ◌⊎◌, inl, inr, true, false, some, List, map, arith,
}
use based_backend.Services.Status.{Context, get_user_id_from_context}
use based_backend.Services.Chat.{row_message}
use based_backend.Services.Convert.{convert_uuid}
use based_backend.Sqlc.Statement.Returns.{statement-delivered}
use based_backend.Sqlc.Statement.{advance}
use based_backend.Sqlc.Database.{delivered, Database}
use based_backend.Sqlc.Chat.{
  GetEventMessagesParams, message_row, message_before, messages_of_event, select_messages,
}
use based_backend.Types.{Bytes, uuid_eq, Uuid}
use based_backend.Sqlc.Models.{ChatMessage, MessageLike}
use based_backend.Sqlc.Keys.{like_message}
use based_backend.Proto.Messages.{Message}
use based_backend.Prelude.Membership.{AllPairs}
use based_backend.Sqlc.Chat as Queries
use based_backend.World.{World, returns}
use based_backend.Repositories.{new_chat_repository}
use based_backend.Services.Chat as ChatService

leb_ℤ-total : (a b : ℤ) → (leb_ℤ a b ≡ true) ⊎ (leb_ℤ b a ≡ true)
leb_ℤ-total a b = elim (Bool-cases (leb_ℤ a b)) [ inl h ↦ inl h | inr h ↦ inr (ground arith) ]

leb_ℤ-trans : (a b c : ℤ) → leb_ℤ a b ≡ true → leb_ℤ b c ≡ true → leb_ℤ a c ≡ true
leb_ℤ-trans a b c h k = ground arith

messages_of_event-Sorted :
    (event : Uuid) (db : Database) → Sorted message_before (messages_of_event event db)
unfolding messages_of_event
messages_of_event-Sorted event db =
    order_by-Sorted message_before
      (λ a b. leb_ℤ-total a.created_at.value.nanoseconds b.created_at.value.nanoseconds)
      (λ a b c.
        leb_ℤ-trans a.created_at.value.nanoseconds b.created_at.value.nanoseconds
          c.created_at.value.nanoseconds)
      (select (λ m. uuid_eq m.event_id event) db.chat_messages)

-- The number of likes that the table has for a message.
abbrev pub likes_of : Uuid → List MessageLike → ℕ
likes_of id [] = 0
likes_of id (l ∷ ls) =
    let rest = likes_of id ls in if uuid_eq l.message_id id then suc rest else rest

-- A user has liked a message.
abbrev pub Liked : Uuid → Uuid → List MessageLike → Type 0
Liked user id [] = ⊥
Liked user id (l ∷ ls) =
    ((uuid_eq l.message_id id ≡ true) × (uuid_eq l.user_id user ≡ true)) ⊎ Liked user id ls

-- The answer tells of the message what the tables have, to a user.
pub record Tells (user : Uuid) (db : Database) (m : ChatMessage) (answer : Message) : Type 0 where
  pub message_id : answer.message_id ≡ m.message_id.value
  pub event_id : answer.event_id ≡ m.event_id.value
  pub sender_id : answer.sender_id ≡ m.user_id.value
  pub content : answer.content ≡ m.content
  pub created_at : answer.created_at ≡ some m.created_at.value
  pub number_of_likes : answer.number_of_likes ≡ to_int32 (likes_of m.message_id db.message_likes)
  pub is_liked : (answer.is_liked_by_user ≡ true) ↔ Liked user m.message_id db.message_likes

length-likes :
    (m : ChatMessage) (ls : List MessageLike)
    → length (select (λ l. like_message l m) ls) ≡ likes_of m.message_id ls
length-likes m [] = refl
length-likes m (l ∷ ls) = ground (arith, length-likes m ls)

exists-Liked :
    (user : Uuid) (m : ChatMessage) (ls : List MessageLike)
    → (exists_where (λ l. like_message l m && uuid_eq l.user_id user) ls ≡ true)
      ↔ Liked user m.message_id ls
exists-Liked user m [] = (λ h. absurd cc, λ h. elim h [ ])
exists-Liked user m (l ∷ ls) = ground (arith, exists-Liked user m ls)

row_message-Tells :
    (user : Uuid) (db : Database) (m : ChatMessage)
    → Tells user db m (row_message (message_row user db m))
unfolding row_message message_row
row_message-Tells user db m = record {
  message_id = refl;
  event_id = refl;
  sender_id = refl;
  content = refl;
  created_at = refl;
  number_of_likes = ap to_int32 (length-likes m db.message_likes);
  is_liked = exists-Liked user m db.message_likes;
}

AllPairs-row_message :
    (user : Uuid) (db : Database) (ms : List ChatMessage)
    → AllPairs (Tells user db) ms (map row_message (map (message_row user db) ms))
AllPairs-row_message user db [] = tt
AllPairs-row_message user db (m ∷ ms) =
    (row_message-Tells user db m, AllPairs-row_message user db ms)

-- A GetMessages that gets through, with a caller and an event id that are not empty, answers with all
-- messages of the event and no other, each once, in the order of their creation, and changes no table.
-- Each is told with its ids, its content, its moment, the number of its likes as an int32, and whether
-- the caller has liked it.
pub get_messages-all :
    (ctx : Context) (id event : Bytes) (w : World)
    → ctx.user_id ≡ some id
    → ChatService.is_empty id ≡ false
    → ChatService.is_empty event ≡ false
    → (w.env w.tick).delivery ≡ delivered
    → (ms : List ChatMessage) × (answers : List Message) × (ChatService.get_messages
          new_chat_repository ctx event w
        ≡ returns answers (advance w w.db))
      × AllPairs (Tells (convert_uuid id) w.db) ms answers
      × Sorted message_before ms
      × Perm ms (select (λ m. uuid_eq m.event_id (convert_uuid event)) w.db.chat_messages)
unfolding ChatService.get_messages new_chat_repository Queries.get_event_messages
    get_user_id_from_context select_messages messages_of_event
get_messages-all ctx id event w caller named given through =
    let p : GetEventMessagesParams = record {
      event_id = convert_uuid event;
      user_id = convert_uuid id;
    } in
    let ms = messages_of_event (convert_uuid event) w.db in
    let s =
      statement-delivered (select_messages p) w (map (message_row (convert_uuid id) w.db) ms) w.db
        through refl in
    (
      ms,
      map row_message (map (message_row (convert_uuid id) w.db) ms),
      rw (caller, given, named, s) refl,
      AllPairs-row_message (convert_uuid id) w.db ms,
      messages_of_event-Sorted (convert_uuid event) w.db,
      order_by-Perm message_before _,
    )
