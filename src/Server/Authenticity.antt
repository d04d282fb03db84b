-- ===== src/Server/Authenticity.antt =====
-- The interceptor with the token check of internal/services/auth_service.go.
use mathlib.Core.Path.{subst}
use based_backend.Prelude.{◌≡◌, refl, List, [], ◌∷◌, Option, none, some, ap, ◌∙◌, sym}
use based_backend.Types.{Bytes, codes}
use based_backend.World.{World, returns, after}
use based_backend.World.Returns.{recode-returns, continue-returns}
use based_backend.Config.{Config}
use based_backend.Services.Status.{Context}
use based_backend.Interceptor.{
  Claim, text, other_value, Claims, map_claims, other_claims, new_auth_interceptor, stripped,
  first_token, token_of_metadata, strip_prefix, get_values, extract_token, user_id_of_sub,
  user_id_of_claims, authenticate, lookup_claim, invalid_token,
}
use based_backend.Services.Auth.{JwtLibrary, jwks_url, auth_service, verify_token, trim_bearer}
use based_backend.Services.Auth.Publication.{Published, fetch_public_keys-Published}
use based_backend.Services.Auth.Verification.{
  IsVerifying, IsAuthentic, verify_token-IsAuthentic, verify_token-Stable,
}

-- Reading the metadata of a context changes nothing.
extract_token-same :
    (ctx : Context) (bearer : Bytes) (w v : World) → extract_token ctx w ≡ returns bearer v → v ≡ w
unfolding extract_token
extract_token-same ctx bearer w v h = of_metadata ctx.metadata h
  where
    of_stripped : (o : Option Bytes) → stripped o w ≡ returns bearer v → v ≡ w
    of_stripped none h = absurd cc
    of_stripped (some rest) h = cc

    of_values : (vs : List Bytes) → first_token vs w ≡ returns bearer v → v ≡ w
    of_values [] h = absurd cc
    of_values (value ∷ vs) h = of_stripped (strip_prefix (codes "Bearer ") value) h

    of_metadata :
        (md : Option (List (Bytes × List Bytes)))
        → token_of_metadata md w ≡ returns bearer v
        → v ≡ w
    of_metadata none h = absurd cc
    of_metadata (some md) h = of_values (get_values (codes "authorization") md) h

user_id_of_sub-returns :
    (c : Option Claim) (id : Bytes) (v w : World)
    → user_id_of_sub c v ≡ returns id w
    → (c ≡ some (text id)) × (v ≡ w)
user_id_of_sub-returns none id v w h = absurd cc
user_id_of_sub-returns (some other_value) id v w h = absurd cc
user_id_of_sub-returns (some (text [])) id v w h = absurd cc
user_id_of_sub-returns (some (text (c ∷ cs))) id v w h = (cc, cc)

user_id_of_claims-returns :
    (c : Claims) (id : Bytes) (v w : World)
    → user_id_of_claims c v ≡ returns id w
    → (cs : List (Bytes × Claim)) × (c ≡ map_claims cs)
      × (lookup_claim (codes "sub") cs ≡ some (text id))
      × (v ≡ w)
user_id_of_claims-returns other_claims id v w h = absurd cc
user_id_of_claims-returns (map_claims cs) id v w h =
    let (e, same) = user_id_of_sub-returns (lookup_claim (codes "sub") cs) id v w h in
    (cs, refl, e, same)

-- Whom the interceptor takes a caller to be has been shown by a token of the call: the token's text
-- stands in the metadata, it is authentic, and the subject that the text holds is the id.
pub record IsIdentified (jwt : JwtLibrary) (cfg : Config) (ctx : Context) (id : Bytes)
    (w w' : World) : Type 0 where
  pub bearer : Bytes
  pub claims : List (Bytes × Claim)
  pub given : extract_token ctx w ≡ returns bearer w
  pub authentic : IsAuthentic jwt cfg bearer w'
  pub read : jwt.contents (trim_bearer bearer) ≡ map_claims claims
  pub subject : lookup_claim (codes "sub") claims ≡ some (text id)

-- With the token check of the AuthService, if the keys in the map have been published by the realm and the
-- JWT library does what it documents: when the interceptor takes a caller to be some user, then a token
-- stands in the call's metadata whose text holds that user as its subject, is signed with a signing key
-- that the realm has published, and is meant for this client if the audience that it holds is a string. Every key in the map
-- has been published then, too.
pub authenticate-IsIdentified :
    (jwt : JwtLibrary) (cfg : Config) (ctx : Context) (id : Bytes) (w w' : World)
    → IsVerifying jwt
    → Published (jwks_url cfg) w
    → authenticate (new_auth_interceptor (auth_service jwt cfg)) ctx w ≡ returns id w'
    → IsIdentified jwt cfg ctx id w w' × Published (jwks_url cfg) w'
unfolding authenticate new_auth_interceptor auth_service
authenticate-IsIdentified jwt cfg ctx id w w' j p h =
    let (bearer, v, e, h1) = continue-returns _ (extract_token ctx w) id w' h in
    let same = extract_token-same ctx bearer w v e in
    let (t, u, e1, h2) =
      continue-returns (λ verified. user_id_of_claims verified.claims) _ id w' h1 in
    let verified = recode-returns invalid_token (verify_token jwt cfg bearer v) t u e1 in
    let (cs, read, subject, there) = user_id_of_claims-returns t.claims id u w' h2 in
    let url = jwks_url cfg in
    let p' : Published url v = subst (Published url) (sym same) p in
    let (authentic, held) = verify_token-IsAuthentic jwt cfg bearer t v u j p' verified in
    let kept : Published url u =
      subst (Published url) (ap after verified)
        ((verify_token-Stable cfg (fetch_public_keys-Published cfg) jwt bearer j).at v p') in
    (
      record {
        bearer = bearer;
        claims = cs;
        given = e ∙ ap (returns bearer) same;
        authentic = subst (IsAuthentic jwt cfg bearer) there authentic;
        read = sym held ∙ read;
        subject = subject;
      },
      subst (Published url) there kept,
    )
