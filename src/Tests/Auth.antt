-- ===== src/Tests/Auth.antt =====
-- Runs of the token check, with a JWT library that knows one token.
use based_backend.Prelude.{
  ◌≡◌, refl, sym, ap, inl, inr, [], ◌∷◌, Bool, true, false, some, if◌then◌else◌, arith,
}
use based_backend.Types.{Bytes, codes, bytes_eq}
use based_backend.World.{World, Outcome, returns, fails, after}
use based_backend.Config.{Config}
use based_backend.Interceptor.{
  text, map_claims, Token, new_auth_interceptor, lookup_claim, authenticate, strip_prefix,
  get_values, extract_token,
}
use based_backend.Services.Auth.Base64.{
  sextet, without_newlines, quanta, decode_string, letter, encode,
}
use based_backend.Prelude.Int.{to_int64, pos}
use based_backend.Services.Auth.Keys.{
  KeycloakKey, PublicKey, lookup_key, is_signing_key, set_bytes, exponent_bits,
}
use based_backend.Services.Auth.{
  JwtLibrary, UnverifiedToken, KeyError, rsa, jwks_url, auth_service, trim_bearer, verify_token,
  key_func, get_jwks, fetch_public_keys, refill_keys, store_keys, store_key, put_key,
}
use based_backend.Services.Auth.Publication.{Published, Published-nil}
use based_backend.Services.Auth.Verification.{IsVerifying}
use based_backend.Services.Auth.Rotation.{
  Encodes, key_of, AreReadable, IsListed, store_key-Encodes, key_func-IsListed,
}
use based_backend.Server.Authenticity.{IsIdentified, authenticate-IsIdentified}
use based_backend.Tests.{ada_id, start, published_keys}
use based_backend.Tests.Access.{incoming}

-- What a check of a token unfolds.
unfoldable pub checking : Unit {0}
unfolding bytes_eq strip_prefix get_values extract_token lookup_claim authenticate sextet
    without_newlines quanta decode_string to_int64 lookup_key is_signing_key set_bytes exponent_bits
    auth_service trim_bearer verify_token key_func get_jwks fetch_public_keys refill_keys store_keys
    store_key new_auth_interceptor
checking = tt

abbrev pub test_config : Config
test_config = record {
  database_port = codes "5432";
  database_host = codes "localhost";
  database_user = codes "user";
  database_password = codes "password";
  database_name = codes "myservice_db";
  grpc_port = codes "50051";
  max_pool_conns = pos 25;
  max_conn_lifetime_mins = pos 600000000000;
  migrations_dir = codes "file:///srv/../../sql/migrations";
  keycloak_host = codes "localhost";
  keycloak_port = codes "8080";
  keycloak_realm = codes "based";
  keycloak_client_id = codes "go-backend";
  keycloak_client_secret = codes "secret";
}

abbrev unverified : UnverifiedToken
unverified = record { method = rsa; header = (codes "kid", text (codes "sig")) ∷ [] }

abbrev adas_token : Token
adas_token = record {
  claims = map_claims ((codes "aud", text (codes "go-backend")) ∷ (codes "sub", text ada_id) ∷ []);
  valid = true;
}

unfoldable pub test_parse : Bool → Outcome KeyError PublicKey → Outcome Bytes Token
test_parse right (returns k w) =
    if right then returns adas_token w else fails (codes "token signature is invalid") w
test_parse right (fails e w) = fails (codes "token is unverifiable") w

abbrev pub test_jwt : JwtLibrary
test_jwt = record {
  parse = λ s f w. test_parse (bytes_eq s (codes "good")) (f unverified w);
  is_signed = λ s k. bytes_eq s (codes "good");
  contents = λ s. adas_token.claims;
}

test_parse-returns :
    (right : Bool) (o : Outcome KeyError PublicKey) (t : Token) (w : World)
    → test_parse right o ≡ returns t w
    → (k : PublicKey) × (o ≡ returns k w)
      × (right ≡ true)
      × (t.valid ≡ true)
      × (t.claims ≡ adas_token.claims)
unfolding test_parse
test_parse-returns true (returns k v) t w h =
    let e : adas_token ≡ t = cc in
    let f : v ≡ w = cc in
    (k, ap (returns k) f, refl, ap (λ x. x.valid) (sym e), ap (λ x. x.claims) (sym e))
test_parse-returns false (returns k v) t w h = absurd cc
test_parse-returns right (fails e v) t w h = absurd cc

test_parse-after :
    (right : Bool) (o : Outcome KeyError PublicKey) → after (test_parse right o) ≡ after o
unfolding test_parse
test_parse-after true (returns k v) = refl
test_parse-after false (returns k v) = refl
test_parse-after right (fails e v) = refl

pub test_jwt-IsVerifying : IsVerifying test_jwt
test_jwt-IsVerifying = record {
  verified = λ s f w t w' h.
      let (k, found, right, valid, held) = test_parse-returns _ (f unverified w) t w' h in
      (unverified, k, found, right, valid, held);
  calls = λ s f w. inr (unverified, test_parse-after _ (f unverified w));
}

-- The world after Ada's call, which has fetched the keys.
abbrev after_adas_call : World
after_adas_call = after (
    authenticate (new_auth_interceptor (auth_service test_jwt test_config))
      (incoming (codes "good")) start)

adas_call :
    authenticate
      (new_auth_interceptor (auth_service test_jwt test_config))
      (incoming (codes "good"))
      start
    ≡ returns ada_id after_adas_call
unfolding checking test_parse
adas_call = refl

authenticate-IsIdentified_example :
    IsIdentified test_jwt test_config (incoming (codes "good")) ada_id start after_adas_call
    × Published (jwks_url test_config) after_adas_call
authenticate-IsIdentified_example =
    authenticate-IsIdentified test_jwt test_config (incoming (codes "good")) ada_id start
      after_adas_call test_jwt-IsVerifying (Published-nil (jwks_url test_config) start refl)
      adas_call

abbrev signing_key : KeycloakKey
signing_key = record {
  kid = codes "sig";
  kty = codes "RSA";
  alg = codes "RS256";
  use_of = codes "sig";
  n = codes "AQM";
  e = codes "AQAB";
}

signing_key-Encodes : Encodes signing_key (1 ∷ 3 ∷ []) (1 ∷ 0 ∷ 1 ∷ [])
unfolding encode letter set_bytes
signing_key-Encodes = record {
  n = refl;
  e = refl;
  n_small = (omega arith, (omega arith, tt));
  e_small = (omega arith, (omega arith, (omega arith, tt)));
  fits = omega arith;
}

store_key-Encodes_example :
    store_key signing_key start ≡ put_key (codes "sig") (key_of (1 ∷ 3 ∷ []) (1 ∷ 0 ∷ 1 ∷ [])) start
store_key-Encodes_example =
    store_key-Encodes signing_key (1 ∷ 3 ∷ []) (1 ∷ 0 ∷ 1 ∷ []) start signing_key-Encodes

published_keys-AreReadable : AreReadable published_keys
unfolding is_signing_key bytes_eq
published_keys-AreReadable =
    ((λ h. absurd cc), ((λ h. ((1 ∷ 3 ∷ []), (1 ∷ 0 ∷ 1 ∷ []), signing_key-Encodes)), tt))

published_keys-IsListed : IsListed (codes "sig") published_keys
unfolding is_signing_key bytes_eq
published_keys-IsListed = (signing_key, inr (inl refl), refl, refl)

key_func-IsListed_example :
    (k : PublicKey) × (w' : World) × (key_func test_config unverified start ≡ returns k w')
    × (lookup_key (codes "sig") w'.auth.public_keys ≡ some k)
unfolding lookup_claim bytes_eq
key_func-IsListed_example =
    key_func-IsListed test_config unverified (codes "sig") published_keys start refl refl refl
      published_keys-AreReadable published_keys-IsListed
