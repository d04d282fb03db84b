-- ===== src/Interceptor.antt =====
-- internal/interceptors/auth_interceptor.go. The token check is the interface AuthService of that
-- file: a parameter here.
pub mod Laws
use based_backend.Prelude.{
  List, [], ◌∷◌, Bool, true, false, Option, none, some, if◌then◌else◌, ◌==◌, String,
}
use based_backend.Types.{Bytes, bytes_eq, codes}
use based_backend.World.{M, pure, throw, or_fail, ◌>>=◌}
use based_backend.Services.Status.{Status, Code, Context, error, token}

-- A value of a claim: a string, or anything else that JSON allows.
pub data Claim : Type 0 where
  text : Bytes → Claim
  other_value : Claim

-- The Claims of a *jwt.Token: a jwt.MapClaims, or another type.
pub data Claims : Type 0 where
  map_claims : List (Bytes × Claim) → Claims
  other_claims : Claims

pub record Token : Type 0 where
  pub claims : Claims
  pub valid : Bool

-- The error is the text of a Go error.
pub record AuthService : Type 0 where
  pub verify_token : Context → Bytes → M Bytes Token

pub record AuthInterceptor : Type 0 where
  pub auth_service : AuthService
  pub public_paths : List Bytes

abbrev pub health_check : Bytes
health_check = codes "/grpc.health.v1.Health/Check"

unfoldable pub new_auth_interceptor : AuthService → AuthInterceptor
new_auth_interceptor auth = record { auth_service = auth; public_paths = health_check ∷ [] }

unfoldable pub is_public : List Bytes → Bytes → Bool
is_public [] path = false
is_public (p ∷ ps) path = if bytes_eq p path then true else is_public ps path

-- The text behind a prefix: strings.HasPrefix and strings.TrimPrefix at once.
unfoldable pub strip_prefix : Bytes → Bytes → Option Bytes
strip_prefix [] s = some s
strip_prefix (p ∷ ps) [] = none
strip_prefix (p ∷ ps) (c ∷ cs) = if p == c then strip_prefix ps cs else none

-- md.Get(key): the values of a key, none if it is missing. Keys of metadata are in lower case.
unfoldable pub get_values : Bytes → List (Bytes × List Bytes) → List Bytes
get_values key [] = []
get_values key ((k, vs) ∷ md) = if bytes_eq k key then vs else get_values key md

abbrev pub unauthenticated : {A : Type 0} → String → M Status A
unauthenticated message = throw (error Code.unauthenticated message)

abbrev pub stripped : Option Bytes → M Status Bytes
stripped none = unauthenticated "invalid authorization format"
stripped (some rest) = pure rest

abbrev pub first_token : List Bytes → M Status Bytes
first_token [] = unauthenticated "authorization token is not provided"
first_token (value ∷ others) = stripped (strip_prefix (codes "Bearer ") value)

abbrev pub token_of_metadata : Option (List (Bytes × List Bytes)) → M Status Bytes
token_of_metadata none = unauthenticated "metadata is not provided"
token_of_metadata (some md) = first_token (get_values (codes "authorization") md)

unfoldable pub extract_token : Context → M Status Bytes
extract_token ctx = token_of_metadata ctx.metadata

unfoldable pub lookup_claim : Bytes → List (Bytes × Claim) → Option Claim
lookup_claim key [] = none
lookup_claim key ((k, c) ∷ cs) = if bytes_eq k key then some c else lookup_claim key cs

abbrev pub user_id_of_sub : Option Claim → M Status Bytes
user_id_of_sub (some (text (c ∷ cs))) = pure (c ∷ cs)
user_id_of_sub _ = unauthenticated "missing user ID in token"

abbrev pub user_id_of_claims : Claims → M Status Bytes
user_id_of_claims (map_claims cs) = user_id_of_sub (lookup_claim (codes "sub") cs)
user_id_of_claims other_claims = unauthenticated "invalid token claims"

-- context.WithValue(ctx, userIDKey, userID)
abbrev pub with_user_id : Context → Bytes → Context
with_user_id ctx id = record ctx { user_id = some id }

abbrev pub invalid_token : Bytes → Status
invalid_token e = record {
  code = Code.unauthenticated;
  message = "invalid token";
  cause = some (token e);
}

-- What Unary and Stream do alike: the user id of the call's token.
unfoldable pub authenticate : AuthInterceptor → Context → M Status Bytes
authenticate i ctx = do
  bearer ← extract_token ctx
  verified ← or_fail (i.auth_service.verify_token ctx bearer) invalid_token
  user_id_of_claims verified.claims

unfoldable pub unary :
    {A : Type 0} → AuthInterceptor → Context → Bytes → (Context → M Status A) → M Status A
unary i ctx full_method handler =
    if is_public i.public_paths full_method
    then handler ctx
    else authenticate i ctx >>= λ id. handler (with_user_id ctx id)

-- A stream passes its context by Context(); wrappedServerStream replaces it.
unfoldable pub stream :
    {A : Type 0} → AuthInterceptor → Context → Bytes → (Context → M Status A) → M Status A
stream i ctx full_method handler =
    if is_public i.public_paths full_method
    then handler ctx
    else authenticate i ctx >>= λ id. handler (with_user_id ctx id)
