-- ===== src/Tests/Access.antt =====
-- Runs of the interceptor and of the server, and of the conversions.
use based_backend.Server.History.{run-others_events, run-others_users}
use based_backend.Services.Convert.Laws.{convert_uuid_collision}
use based_backend.Services.Convert.{convert_uuid}
use based_backend.Interceptor.Laws.{extract_token_iff, Identifies, authenticate-Identifies}
use based_backend.Prelude.{In, ◌≡◌, refl, ◌↔◌, inl, none, some, List, [], ◌∷◌, ◌++◌, true, false}
use based_backend.Services.Status.{Context}
use based_backend.Sqlc.Statement.Keeps.{Keeps}
use based_backend.Sqlc.Integrity.{IsValid}
use based_backend.Server.Integrity.{run-IsValid}
use based_backend.Server.Access.{serve-authenticate}
use based_backend.Types.{Bytes, Time, codes, some_value, uuid_eq}
use based_backend.Services.Chat.Stream.{open_stream}
use based_backend.World.{returns, ◌>>=◌, World}
use based_backend.Interceptor.{
  text, AuthService, AuthInterceptor, new_auth_interceptor, extract_token, with_user_id,
  authenticate, map_claims, lookup_claim,
}
use based_backend.Tests.{
  everything, ada_id, bob_id, cleo_id, party, ada, party_id, start, picnic, tables-IsValid,
}
use mathlib.Core.Path.{subst}
use based_backend.World.Returns.{success, result_of}
use based_backend.Server.{serve_stream, run}
use based_backend.Server.{serve_stream, Request, dispatch, serve}

abbrev token_check : AuthService
token_check = record {
  verify_token = λ ctx bearer w.
      returns (record { claims = map_claims ((codes "sub", text bearer) ∷ []); valid = true }) w;
}

abbrev interceptor : AuthInterceptor
interceptor = new_auth_interceptor token_check

abbrev pub incoming : Bytes → Context
incoming bearer = record {
  user_id = none;
  metadata = some ((codes "authorization", (codes "Bearer " ++ bearer) ∷ []) ∷ []);
}

abbrev pub calls : List (Context × Request)
calls =
    (incoming bob_id, Request.create_event picnic)
    ∷ (incoming ada_id, Request.delete_event party_id)
    ∷ (incoming bob_id, Request.delete_user)
    ∷ []

token_check-IsValid :
    (ctx : Context) (bearer : Bytes) → Keeps IsValid (token_check.verify_token ctx bearer)
token_check-IsValid ctx bearer = record { at = λ w v. v }

run-IsValid_example : IsValid (run interceptor calls start).db
unfolding new_auth_interceptor
run-IsValid_example = run-IsValid interceptor calls start token_check-IsValid tables-IsValid

-- Two calls with Bob's token.
abbrev bobs_calls : List (Context × Request)
bobs_calls =
    (incoming bob_id, Request.delete_event party_id) ∷ (incoming bob_id, Request.delete_user) ∷ []

bob_is_not_ada :
    (w v : World) (id : Bytes)
    → authenticate (new_auth_interceptor token_check) (incoming bob_id) w ≡ returns id v
    → uuid_eq (some_value ada_id) (convert_uuid id) ≡ false
unfolding everything authenticate lookup_claim new_auth_interceptor success
bob_is_not_ada w v id h =
    let same : bob_id ≡ id = result_of bob_id id w v h in
    subst (λ x. uuid_eq (some_value ada_id) (convert_uuid x) ≡ false) same refl

run-others_events_example :
    In party (run (new_auth_interceptor token_check) bobs_calls start).db.events
unfolding new_auth_interceptor
run-others_events_example =
    run-others_events token_check bobs_calls start party (λ ctx bearer. record { at = λ w v. v })
      (bob_is_not_ada start, (bob_is_not_ada _, tt)) (inl refl)

run-others_users_example : In ada (run (new_auth_interceptor token_check) bobs_calls start).db.users
unfolding new_auth_interceptor
run-others_users_example =
    run-others_users token_check bobs_calls start ada (λ ctx bearer. record { at = λ w v. v })
      (bob_is_not_ada start, (bob_is_not_ada _, tt)) (inl refl)

serve-authenticate_example :
    ((req : Request)
      → serve (new_auth_interceptor token_check) (incoming ada_id) req ≡ (
          authenticate (new_auth_interceptor token_check) (incoming ada_id) >>= λ id.
          dispatch (with_user_id (incoming ada_id) id) req))
    × ((event_id : Bytes) (now : Time)
        → serve_stream (new_auth_interceptor token_check) (incoming ada_id) event_id now ≡ (
            authenticate (new_auth_interceptor token_check) (incoming ada_id) >>= λ id.
            open_stream (with_user_id (incoming ada_id) id) event_id now))
serve-authenticate_example = serve-authenticate token_check (incoming ada_id)

authenticate-Identifies_example : Identifies (authenticate interceptor (incoming ada_id) start)
authenticate-Identifies_example = authenticate-Identifies interceptor (incoming ada_id) start

abbrev header : List (Bytes × List Bytes)
header = (codes "authorization", (codes "Bearer " ++ ada_id) ∷ []) ∷ []

extract_token_iff_example :
    (extract_token (incoming ada_id) start ≡ returns ada_id start)
    ↔ (codes "Bearer " ++ ada_id ≡ codes "Bearer " ++ ada_id)
unfolding everything
extract_token_iff_example =
    extract_token_iff (incoming ada_id) header (codes "Bearer " ++ ada_id) [] ada_id start refl refl

convert_uuid_collision_example :
    uuid_eq (convert_uuid (ada_id ++ bob_id)) (convert_uuid (ada_id ++ cleo_id)) ≡ true
convert_uuid_collision_example = convert_uuid_collision ada_id bob_id cleo_id refl
