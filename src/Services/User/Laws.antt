-- ===== src/Services/User/Laws.antt =====
-- internal/services/user_service.go over the queries of internal/gen/sqlc/users.sql.go.
use based_backend.Services.Status.{Context, get_user_id_from_context}
use based_backend.Services.Convert.{convert_uuid, convert_sql_gender_to_pb}
use based_backend.Services.User.{user_response, create_user_params, update_user_params}
use based_backend.World.Returns.{recode-returns, continue-returns, success, result_of, world_of}
use based_backend.Sqlc.Statement.Returns.{statement-returns, statement-delivered}
use based_backend.Sqlc.Statement.{advance}
use based_backend.Proto.Messages.{CreateUserRequest, UpdateUserRequest}
use based_backend.Prelude.{
  Option-cases, find_where, update_where, ◌≡◌, inl, inr, Bool, some, List, [], ◌∷◌, arith, refl,
  sym, ap, ◌∙◌,
}
use based_backend.Sqlc.Database.{Database, Env, Postgres, commits, delivered}
use based_backend.Sqlc.Users.{
  CreateUserParams, UpdateUserParams, is_user, new_user, insert_user, set_user, update_user_row,
  select_user,
}
use based_backend.Types.{uuid_eq_refl, Bytes, Uuid}
use based_backend.Proto.Messages as Messages
use based_backend.Sqlc.Models.{User}
use based_backend.Sqlc.Users as Queries
use based_backend.World.{World, returns}
use based_backend.Repositories.{new_user_repository}
use based_backend.Services.User as UserService

insert_user-commits :
    (p : CreateUserParams) (pg : Postgres) (env : Env) (db db' : Database) (u : User)
    → insert_user p pg env db ≡ commits u db'
    → find_where (is_user p.user_id) db'.users ≡ some u
unfolding insert_user new_user
insert_user-commits p pg env db db' u h = ground (arith, uuid_eq_refl p.user_id)

find_where-update :
    {A : Type 0} (p : A → Bool) (f : A → A) (rs : List A) (a : A)
    → ((r : A) → p (f r) ≡ p r)
    → find_where p rs ≡ some a
    → find_where p (update_where p f rs) ≡ some (f a)
find_where-update p f [] a same h = ground arith
find_where-update p f (r ∷ rs) a same h = ground (arith, same r, find_where-update p f rs a same)

update_user_row-commits :
    (p : UpdateUserParams) (pg : Postgres) (env : Env) (db db' : Database) (u : User)
    → update_user_row p pg env db ≡ commits u db'
    → (find_where (is_user p.user_id) db'.users ≡ some u) × (u.gender ≡ p.gender)
unfolding update_user_row set_user
update_user_row-commits p pg env db db' u h =
    elim (Option-cases (find_where (is_user p.user_id) db.users)) [
      | inl e ↦ ground arith
      | inr (old, e) ↦
          let stored : find_where (is_user p.user_id)
                (update_where (is_user p.user_id) (set_user p pg env) db.users)
              ≡ some (set_user p pg env old) =
            find_where-update (is_user p.user_id) (set_user p pg env) db.users old (λ r. refl) e in
          ground arith
    ]

select_user-commits :
    (id : Uuid) (pg : Postgres) (env : Env) (db db' : Database) (u : User)
    → select_user id pg env db ≡ commits u db'
    → find_where (is_user id) db.users ≡ some u
unfolding select_user
select_user-commits id pg env db db' u h = ground arith

module _ (ctx : Context) (id : Bytes) (caller : ctx.user_id ≡ some id) where
  -- The user that a handler found for the caller is what GetUser answers with.
  get_user-found :
      (w : World) (u : User)
      → (w.env w.tick).delivery ≡ delivered
      → find_where (is_user (convert_uuid id)) w.db.users ≡ some u
      → UserService.get_user new_user_repository ctx w
        ≡ returns (user_response id u) (advance w w.db)
  unfolding UserService.get_user new_user_repository Queries.get_user_by_id get_user_id_from_context
      select_user
  get_user-found w u through found_user =
      let s =
        statement-delivered (select_user (convert_uuid id)) w u w.db through
          (rw (select_user, found_user) refl) in
      rw (caller, s) refl

  create_user-stored :
      (req : CreateUserRequest) (w w' : World) (a : Messages.User)
      → UserService.create_user new_user_repository ctx req w ≡ returns a w'
      → (u : User) × (find_where (is_user (convert_uuid id)) w'.db.users ≡ some u)
        × (user_response id u ≡ a)
  unfolding UserService.create_user new_user_repository Queries.create_user get_user_id_from_context
      success
  create_user-stored req w w' a h =
      let h0 = rw caller at h in
      let (u, v, e1, h1) = continue-returns _ _ a w' h0 in
      let q =
        recode-returns _ (new_user_repository.create_user (create_user_params id req) w) u v e1 in
      let (u', v', s, r) = continue-returns _ _ u v q in
      let (db, commit, at) =
        statement-returns (insert_user (create_user_params id req)) w v' u' s in
      let stored = insert_user-commits (create_user_params id req) _ _ _ db u' commit in
      let world : w' ≡ advance w db =
        sym (world_of _ _ v w' h1) ∙ (sym (world_of _ _ v' v r) ∙ at) in
      (
        u',
        ap (λ x. find_where (is_user (convert_uuid id)) x.db.users) world ∙ stored,
        ap (user_response id) (result_of u' u v' v r) ∙ result_of _ _ v w' h1,
      )

  -- What CreateUser answers with is what the next GetUser of the same user answers with, if that gets
  -- through.
  pub get_user-create_user :
      (req : CreateUserRequest) (w w' : World) (a : Messages.User)
      → UserService.create_user new_user_repository ctx req w ≡ returns a w'
      → (w'.env w'.tick).delivery ≡ delivered
      → UserService.get_user new_user_repository ctx w' ≡ returns a (advance w' w'.db)
  get_user-create_user req w w' a h through =
      let (u, stored, same) = create_user-stored req w w' a h in
      rw (← same) (get_user-found w' u through stored)

  update_user-stored :
      (req : UpdateUserRequest) (w w' : World) (a : Messages.User)
      → UserService.update_user new_user_repository ctx req w ≡ returns a w'
      → (old u : User) × (find_where (is_user (convert_uuid id)) w.db.users ≡ some old)
        × (find_where (is_user (convert_uuid id)) w'.db.users ≡ some u)
        × (user_response id u ≡ a)
        × (u.gender ≡ old.gender)
  unfolding UserService.update_user new_user_repository Queries.update_user Queries.get_user_by_id
      get_user_id_from_context success
  update_user-stored req w w' a h =
      let h0 = rw caller at h in
      let (old, v0, e0, h0') = continue-returns _ _ a w' h0 in
      let q0 =
        recode-returns _ (new_user_repository.get_user_by_id (convert_uuid id) w) old v0 e0 in
      let (old', v0', s0, r0) = continue-returns _ _ old v0 q0 in
      let (db0, commit0, at0) = statement-returns (select_user (convert_uuid id)) w v0' old' s0 in
      let found_old = select_user-commits (convert_uuid id) _ _ _ db0 old' commit0 in
      let (u, v, e1, h1) = continue-returns _ _ a w' h0' in
      let q =
        recode-returns _ (new_user_repository.update_user (update_user_params id req old) v0) u v
          e1 in
      let (u', v', s, r) = continue-returns _ _ u v q in
      let (db, commit, at) =
        statement-returns (update_user_row (update_user_params id req old)) v0 v' u' s in
      let stored = update_user_row-commits (update_user_params id req old) _ _ _ db u' commit in
      let world : w' ≡ advance v0 db =
        sym (world_of _ _ v w' h1) ∙ (sym (world_of _ _ v' v r) ∙ at) in
      (
        old',
        u',
        found_old,
        ap (λ x. find_where (is_user (convert_uuid id)) x.db.users) world ∙ stored.0,
        ap (user_response id) (result_of u' u v' v r) ∙ result_of _ _ v w' h1,
        stored.1 ∙ ap (λ x. x.gender) (sym (result_of old' old v0' v0 r0)),
      )

  -- When UpdateUser succeeds, it answers with the gender that the table had for the caller,
  -- whatever gender the request has, and what it answers with is what the next GetUser of the same
  -- user answers with, if that gets through.
  pub get_user-update_user :
      (req : UpdateUserRequest) (w w' : World) (a : Messages.User)
      → UserService.update_user new_user_repository ctx req w ≡ returns a w'
      → (w'.env w'.tick).delivery ≡ delivered
      → (UserService.get_user new_user_repository ctx w' ≡ returns a (advance w' w'.db))
        × (old : User) × (find_where (is_user (convert_uuid id)) w.db.users ≡ some old)
        × (a.gender ≡ convert_sql_gender_to_pb old.gender)
  get_user-update_user req w w' a h through =
      let (old, u, found_old, stored, same, kept) = update_user-stored req w w' a h in
      (
        rw (← same) (get_user-found w' u through stored),
        old,
        found_old,
        ap (λ x. x.gender) (sym same) ∙ ap convert_sql_gender_to_pb kept,
      )
