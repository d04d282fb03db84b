-- ===== src/Services/Chat/Likes.antt =====
-- LikeMessage and UnlikeMessage of internal/services/chat_service.go over the queries of
-- internal/gen/sqlc/chat.sql.go.
use based_backend.World.Stable.{Stable-or_fail}
use based_backend.Prelude.Deletion.{exists_where_mono}
use based_backend.Services.Status.{Status, Context, get_user_id_from_context}
use based_backend.Services.Convert.{convert_uuid}
use based_backend.World.Returns.{recode-returns}
use based_backend.Sqlc.Statement.Returns.{statement-returns, statement-delivered}
use based_backend.Sqlc.Statement.{advance}
use based_backend.Prelude.{
  select, exists_where, ◌≡◌, true, false, not, arith, refl, ap, ◌∙◌, ◌&&◌, some, and_split, Bool,
}
use based_backend.Prelude.RowLaws.{select_nothing, exists_where-congr}
use based_backend.Sqlc.Statement.Keeps.{Committed, Keeps-statement}
use based_backend.Sqlc.Database.{Database, Env, Postgres, delivered, commits, Query, aborts}
use based_backend.Sqlc.Chat.{
  LikeMessageParams, new_like, insert_like, UnlikeMessageParams, is_like_by, message_row,
  delete_like,
}
use based_backend.Types.{uuid_eq_refl, Bytes, uuid_eq, uuid_eq_comm, uuid_eq_join}
use based_backend.Sqlc.Models.{ChatMessage, MessageLike}
use based_backend.Sqlc.Chat as Queries
use based_backend.Sqlc.Keys as Keys
use based_backend.World.{World, Outcome, returns, after}
use based_backend.Repositories.{new_chat_repository}
use based_backend.Services.Chat as ChatService

abbrev liked_by : LikeMessageParams → MessageLike → Bool
liked_by p l = uuid_eq l.message_id p.message_id && uuid_eq l.user_id p.user_id

same_like-liked :
    (p : LikeMessageParams) (pg : Postgres) (env : Env) (db : Database)
    → exists_where (Keys.same_like (new_like p pg env)) db.message_likes
      ≡ exists_where (liked_by p) db.message_likes
unfolding new_like
same_like-liked p pg env db =
    exists_where-congr _ _ db.message_likes
      λ l. rw (uuid_eq_comm l.message_id p.message_id, uuid_eq_comm l.user_id p.user_id) refl

module _ (p : LikeMessageParams) (message_valid : p.message_id.valid ≡ true)
    (user_valid : p.user_id.valid ≡ true) (pg : Postgres) (env : Env) (db : Database) where
  -- The rows that likeMessage adds are those that unlikeMessage takes away.
  insert_like-undone :
      (q : UnlikeMessageParams)
      → q.message_id ≡ p.message_id
      → q.user_id ≡ p.user_id
      → exists_where (is_like_by q) db.message_likes ≡ false
      → Committed
          (λ d. select (λ l. not (is_like_by q l)) d.message_likes ≡ db.message_likes)
          (insert_like p pg env db)
  unfolding insert_like new_like
  insert_like-undone q e f absent = ground (
    arith,
    select_nothing (is_like_by q) db.message_likes absent,
    uuid_eq_refl p.message_id message_valid,
    uuid_eq_refl p.user_id user_valid,
  )

  insert_like-liked :
      (db' : Database)
      → insert_like p pg env db ≡ commits tt db'
      → exists_where (liked_by p) db'.message_likes ≡ true
  unfolding insert_like new_like
  insert_like-liked db' h = ground (
    arith,
    same_like-liked p pg env db,
    uuid_eq_refl p.message_id message_valid,
    uuid_eq_refl p.user_id user_valid,
  )

-- A like that is there already is not added.
insert_like-nothing :
    (p : LikeMessageParams) (pg : Postgres) (env : Env) (db : Database)
    → exists_where (liked_by p) db.message_likes ≡ true
    → Committed (λ d. d ≡ db) (insert_like p pg env db)
unfolding insert_like new_like
insert_like-nothing p pg env db h = ground (arith, same_like-liked p pg env db)

still :
    (d0 d : Database) (q : Query (Unit {0}))
    → d ≡ d0
    → Committed (λ x. x ≡ d) q
    → Committed (λ x. x ≡ d0) q
still d0 d (commits a x) e c = c ∙ e
still d0 d (aborts why) e c = tt

module _ (ctx : Context) (id message : Bytes) (caller : ctx.user_id ≡ some id)
    (named : ChatService.is_empty id ≡ false) (given : ChatService.is_empty message ≡ false) where
  abbrev liking : LikeMessageParams
  liking = record { message_id = convert_uuid message; user_id = convert_uuid id }

  abbrev like : World → Outcome Status (Unit {0})
  like = ChatService.like_message new_chat_repository ctx message

  abbrev unlike : World → Outcome Status (Unit {0})
  unlike = ChatService.unlike_message new_chat_repository ctx message

  like-insert_like :
      (w w' : World)
      → like w ≡ returns tt w'
      → (db : Database) × (insert_like liking w.postgres (w.env w.tick) w.db ≡ commits tt db)
        × (w' ≡ advance w db)
  unfolding ChatService.like_message new_chat_repository Queries.like_chat_message
      get_user_id_from_context
  like-insert_like w w' h =
      let h0 = rw (caller, given, named) at h in
      statement-returns (insert_like liking) w w' tt (recode-returns _ _ tt w' h0)

  -- After a LikeMessage that succeeded, with a caller and a message id that are not empty, the row
  -- that getEventMessages makes for the message says that the caller likes it.
  pub like_message-liked :
      (w w' : World) (m : ChatMessage)
      → like w ≡ returns tt w'
      → uuid_eq m.message_id (convert_uuid message) ≡ true
      → (message_row (convert_uuid id) w'.db m).is_liked_by_user ≡ true
  unfolding message_row convert_uuid
  like_message-liked w w' m h same =
      let (db, commit, at) = like-insert_like w w' h in
      let liked = insert_like-liked liking refl refl _ _ _ db commit in
      exists_where_mono (liked_by liking)
        (λ l. Keys.like_message l m && uuid_eq l.user_id (convert_uuid id)) w'.db.message_likes
        (λ l k.
          let (a, b) = and_split (uuid_eq l.message_id (convert_uuid message)) _ k in
          rw (uuid_eq_join l.message_id m.message_id (convert_uuid message) a same, b) refl)
        (ap (λ x. exists_where (liked_by liking) x.db.message_likes) at ∙ liked)

  -- After a LikeMessage that succeeded, with a caller and a message id that are not empty, another
  -- one of the same caller for the same message leaves all tables as they are, whether it gets
  -- through or not.
  pub like_message-again : (w w' : World) → like w ≡ returns tt w' → (after (like w')).db ≡ w'.db
  unfolding ChatService.like_message new_chat_repository Queries.like_chat_message
      get_user_id_from_context convert_uuid
  like_message-again w w' h =
      let (db, commit, at) = like-insert_like w w' h in
      let liked = insert_like-liked liking refl refl _ _ _ db commit in
      let liked' = ap (λ x. exists_where (liked_by liking) x.db.message_likes) at ∙ liked in
      rw (caller, given, named)
        ((Stable-or_fail {R = λ w. w.db ≡ w'.db} _ _ (
            Keeps-statement _ λ pg env d same.
              let there = ap (λ x. exists_where (liked_by liking) x.message_likes) same ∙ liked' in
              still w'.db d (insert_like liking pg env d) same
                (insert_like-nothing liking pg env d there))).at
          w' refl)

  -- An UnlikeMessage that gets through after a LikeMessage that succeeded, with a caller and a
  -- message id that are not empty, gives back the likes from before, if the caller did not like the
  -- message.
  pub unlike_message-like_message :
      (w w' : World)
      → like w ≡ returns tt w'
      → (w'.env w'.tick).delivery ≡ delivered
      → exists_where
          (is_like_by (record { message_id = convert_uuid message; user_id = convert_uuid id }))
          w.db.message_likes
        ≡ false
      → (after (unlike w')).db.message_likes ≡ w.db.message_likes
  unfolding ChatService.unlike_message new_chat_repository Queries.unlike_message
      get_user_id_from_context convert_uuid delete_like
  unlike_message-like_message w w' h through absent =
      let (db, commit, at) = like-insert_like w w' h in
      let q : UnlikeMessageParams = record {
        message_id = convert_uuid message;
        user_id = convert_uuid id;
      } in
      let undone =
        rw commit at
          (insert_like-undone liking refl refl w.postgres (w.env w.tick) w.db q refl refl absent) in
      let s =
        statement-delivered (delete_like q) w' tt
          (record w'.db { message_likes = select (λ l. not (is_like_by q l)) w'.db.message_likes })
          through refl in
      rw (caller, given, named, s)
        (ap (λ x. select (λ l. not (is_like_by q l)) x.db.message_likes) at ∙ undone)
