-- ===== src/Services/Auth.antt =====
-- internal/services/auth_service.go over the map of keys: fetchPublicKeys, NewAuthService, VerifyToken.
-- jwt.Parse is a parameter.
pub mod Base64
pub mod Keys
pub mod Publication
pub mod Verification
pub mod Rotation
pub mod Frame
use based_backend.Prelude.{
  ℕ, suc, List, [], ◌∷◌, ◌++◌, Bool, true, Option, none, some, ◌==◌, if◌then◌else◌,
}
use based_backend.Types.{Bytes, codes, bytes_eq}
use based_backend.World.{World, M, pure, throw, or_fail, ◌>>=◌, ◌>>◌}
use based_backend.Config.{Config}
use based_backend.Interceptor.{
  Claim, Claims, Token, AuthService, strip_prefix, lookup_claim, text, map_claims,
}
use based_backend.Services.Auth.Base64.{decode_string}
use based_backend.Services.Auth.Keys.{
  KeycloakKey, PublicKey, Reply, no_response, response, KeyStore, lookup_key, is_signing_key,
  public_key,
}

-- The errors of fetchPublicKeys, by the text that they begin with; the errors of the JSON and the Base64
-- decoder are left out.
pub data FetchError : Type 0 where
  not_fetched : Bytes → FetchError
  unexpected_status : ℕ → FetchError
  undecodable_response : FetchError
  undecodable_modulus undecodable_exponent : FetchError
  no_signing_keys : FetchError

-- The errors of the function that VerifyToken passes to jwt.Parse.
pub data KeyError : Type 0 where
  unexpected_method : KeyError
  no_kid : KeyError
  not_refreshed : FetchError → KeyError
  unknown_kid : Bytes → KeyError

abbrev modify : {E : Type 0} → (KeyStore → KeyStore) → M E (Unit {0})
modify f w = pure tt (record w { auth = f w.auth })

unfoldable pub jwks_url : Config → Bytes
jwks_url cfg =
    codes "http://"
    ++ cfg.keycloak_host
    ++ codes ":"
    ++ cfg.keycloak_port
    ++ codes "/realms/"
    ++ cfg.keycloak_realm
    ++ codes "/protocol/openid-connect/certs"

abbrev pub decoded : {E A : Type 0} → E → Option A → M E A
decoded e none = throw e
decoded e (some a) = pure a

abbrev pub read_reply : Reply → M FetchError (List KeycloakKey)
read_reply (no_response e) = throw (not_fetched e)
read_reply (response status body) =
    if status == 200 then decoded undecodable_response body else throw (unexpected_status status)

abbrev pub asked : World → World
asked w = record w { auth = record w.auth { requests = suc w.auth.requests } }

-- s.httpClient.Get, the check of the status, and the decoder
unfoldable pub get_jwks : Bytes → M FetchError (List KeycloakKey)
get_jwks url w = read_reply (w.auth.replies url w.auth.requests) (asked w)

abbrev pub clear : M FetchError (Unit {0})
clear = modify (λ a. record a { public_keys = [] })

abbrev pub put_key : Bytes → PublicKey → M FetchError (Unit {0})
put_key kid key = modify (λ a. record a { public_keys = (kid, key) ∷ a.public_keys })

unfoldable pub store_key : KeycloakKey → M FetchError (Unit {0})
store_key key = do
  n_bytes ← decoded undecodable_modulus (decode_string key.n)
  e_bytes ← decoded undecodable_exponent (decode_string key.e)
  put_key key.kid (public_key n_bytes e_bytes)

-- The loop over keycloakKeys.Keys.
unfoldable pub store_keys : List KeycloakKey → M FetchError (Unit {0})
store_keys [] = pure tt
store_keys (key ∷ keys) =
    let rest = store_keys keys in if is_signing_key key then store_key key >> rest else rest

abbrev pub some_key : List (Bytes × PublicKey) → M FetchError (Unit {0})
some_key [] = throw no_signing_keys
some_key (k ∷ ks) = pure tt

abbrev pub check_keys : M FetchError (Unit {0})
check_keys w = some_key w.auth.public_keys w

unfoldable pub refill_keys : List KeycloakKey → M FetchError (Unit {0})
refill_keys keys = clear >> store_keys keys >> check_keys

unfoldable pub fetch_public_keys : Config → M FetchError (Unit {0})
fetch_public_keys cfg = get_jwks (jwks_url cfg) >>= refill_keys

-- token.Method: a *SigningMethodRSA or another one; token.Header.
pub data SigningMethod : Type 0 where
  rsa other_method : SigningMethod

pub record UnverifiedToken : Type 0 where
  pub method : SigningMethod
  pub header : List (Bytes × Claim)

abbrev kid_of : Option Claim → M KeyError Bytes
kid_of (some (text kid)) = pure kid
kid_of _ = throw no_kid

abbrev checked_kid : SigningMethod → Option Claim → M KeyError Bytes
checked_kid rsa kid = kid_of kid
checked_kid other_method kid = throw unexpected_method

-- `s.publicKeys[kid]`
abbrev load_key : Bytes → M KeyError (Option PublicKey)
load_key kid w = pure (lookup_key kid w.auth.public_keys) w

abbrev key_or_refresh : Config → Bytes → Option PublicKey → M KeyError PublicKey
key_or_refresh cfg kid (some key) = pure key
key_or_refresh cfg kid none = or_fail (fetch_public_keys cfg) not_refreshed >>= λ _.
    load_key kid >>= λ found. decoded (unknown_kid kid) found

-- The function literal that VerifyToken passes to jwt.Parse.
unfoldable pub key_func : Config → UnverifiedToken → M KeyError PublicKey
key_func cfg token = do
  kid ← checked_kid token.method (lookup_claim (codes "kid") token.header)
  found ← load_key kid
  key_or_refresh cfg kid found

-- github.com/golang-jwt/jwt/v5: jwt.Parse, which looks for a key by the function that it is given; the
-- signatures that it takes to be right; and the claims that the text of a token holds. An error is its
-- text.
pub record JwtLibrary : Type 0 where
  pub parse : Bytes → (UnverifiedToken → M KeyError PublicKey) → M Bytes Token
  pub is_signed : Bytes → PublicKey → Bool
  pub contents : Bytes → Claims

-- strings.TrimPrefix
abbrev without_prefix : Bytes → Option Bytes → Bytes
without_prefix s none = s
without_prefix s (some rest) = rest

unfoldable pub trim_bearer : Bytes → Bytes
trim_bearer s = without_prefix s (strip_prefix (codes "Bearer ") s)

abbrev pub audience_of : Bytes → Option Claim → Bool
audience_of client_id (some (text aud)) = bytes_eq aud client_id
audience_of client_id _ = true

-- The check of the audience. The check of the issuer is commented out in the source.
abbrev pub is_for : Bytes → Claims → Bool → Bool
is_for client_id (map_claims cs) true = audience_of client_id (lookup_claim (codes "aud") cs)
is_for client_id _ _ = true

abbrev pub check_audience : Config → Token → M Bytes Token
check_audience cfg token =
    if is_for cfg.keycloak_client_id token.claims token.valid
    then pure token
    else throw (codes "invalid audience")

unfoldable pub verify_token : JwtLibrary → Config → Bytes → M Bytes Token
verify_token jwt cfg token_string = do
  token ←
      or_fail (jwt.parse (trim_bearer token_string) (key_func cfg))
        (λ e. codes "failed to parse token: " ++ e)
  check_audience cfg token

-- A *AuthService. Its HTTP client is the replies in the world, and its keys are in the world too.
unfoldable pub auth_service : JwtLibrary → Config → AuthService
auth_service jwt cfg = record {
  verify_token = λ ctx token_string. verify_token jwt cfg token_string;
}

-- NewAuthService, whose error wraps the one of fetchPublicKeys.
unfoldable pub new_auth_service : JwtLibrary → Config → M FetchError AuthService
new_auth_service jwt cfg = clear >> fetch_public_keys cfg >> pure (auth_service jwt cfg)
