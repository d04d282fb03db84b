-- ===== src/Services/Auth/Verification.antt =====
-- What a token that VerifyToken lets through has shown, and what VerifyToken leaves behind.
use mathlib.Core.Path.{subst}
use based_backend.Prelude.{
  ◌≡◌, refl, sym, ap, ◌∙◌, List, true, Option, none, some, Bool-cases, ◌⊎◌, inl, inr,
}
use based_backend.Types.{Bytes, codes, eq_of_bytes_eq}
use based_backend.World.{World, returns, M, after, or_fail, throw, pure}
use based_backend.World.Returns.{recode-returns, continue-returns}
use based_backend.World.Stable.{Stable, Stable-pure, Stable-throw, Stable-bind, Stable-or_fail}
use based_backend.Config.{Config}
use based_backend.Interceptor.{Claim, text, other_value, Claims, map_claims, Token, lookup_claim}
use based_backend.Services.Auth.Keys.{PublicKey, lookup_key}
use based_backend.Services.Auth.{
  JwtLibrary, UnverifiedToken, SigningMethod, unknown_kid, not_refreshed, rsa, other_method,
  KeyError, jwks_url, fetch_public_keys, decoded, kid_of, checked_kid, load_key, key_or_refresh,
  key_func, trim_bearer, is_for, audience_of, check_audience, verify_token,
}
use based_backend.Services.Auth.Publication.{
  IsPublished, Published, Published-lookup, fetch_public_keys-Published,
}

-- What the documentation of jwt.Parse says: a token that it returns is valid and has the claims that the
-- given text holds, and its signature has been checked with the key that the given function returned; that
-- function, called at most once, is
-- all that can change the state.
pub record IsVerifying (jwt : JwtLibrary) : Type 0 where
  pub verified :
      (s : Bytes) (f : UnverifiedToken → M KeyError PublicKey) (w : World) (t : Token) (w' : World)
      → jwt.parse s f w ≡ returns t w'
      → (u : UnverifiedToken) × (k : PublicKey) × (f u w ≡ returns k w')
        × (jwt.is_signed s k ≡ true)
        × (t.valid ≡ true)
        × (t.claims ≡ jwt.contents s)
  pub calls :
      (s : Bytes) (f : UnverifiedToken → M KeyError PublicKey) (w : World)
      → (after (jwt.parse s f w) ≡ w)
        ⊎ ((u : UnverifiedToken) × (after (jwt.parse s f w) ≡ after (f u w)))

module _ {P : World → Type 0} where
  pub decoded-Stable : {E A : Type 0} (e : E) (o : Option A) → Stable P (decoded e o)
  decoded-Stable e none = Stable-throw e
  decoded-Stable e (some a) = Stable-pure a

  kid_of-Stable : (c : Option Claim) → Stable P (kid_of c)
  kid_of-Stable none = Stable-throw _
  kid_of-Stable (some other_value) = Stable-throw _
  kid_of-Stable (some (text kid)) = Stable-pure kid

  checked_kid-Stable : (m : SigningMethod) (c : Option Claim) → Stable P (checked_kid m c)
  checked_kid-Stable rsa c = kid_of-Stable c
  checked_kid-Stable other_method c = Stable-throw _

  load_key-Stable : (kid : Bytes) → Stable P (load_key kid)
  load_key-Stable kid = record { at = λ w h. h }

  module _ (cfg : Config) (fetch : Stable P (fetch_public_keys cfg)) where
    key_or_refresh-Stable :
        (kid : Bytes) (o : Option PublicKey) → Stable P (key_or_refresh cfg kid o)
    key_or_refresh-Stable kid (some k) = Stable-pure k
    key_or_refresh-Stable kid none =
        Stable-bind _ _ (Stable-or_fail _ _ fetch)
          λ _. Stable-bind _ _ (load_key-Stable kid) λ o. decoded-Stable (unknown_kid kid) o

    key_func-Stable : (u : UnverifiedToken) → Stable P (key_func cfg u)
    unfolding key_func
    key_func-Stable u =
        Stable-bind _ _ (checked_kid-Stable _ _)
          λ kid. Stable-bind _ _ (load_key-Stable kid) λ o. key_or_refresh-Stable kid o

    check_audience-Stable : (t : Token) → Stable P (check_audience cfg t)
    check_audience-Stable t = elim (Bool-cases (is_for cfg.keycloak_client_id t.claims t.valid)) [
      | inl e ↦ rw e (Stable-pure t)
      | inr e ↦ rw e (Stable-throw _)
    ]

    parse-Stable :
        (jwt : JwtLibrary) (s : Bytes) → IsVerifying jwt → Stable P (jwt.parse s (key_func cfg))
    parse-Stable jwt s j = record {
      at = λ w h. elim (j.calls s (key_func cfg) w) [
        | inl e ↦ subst P (sym e) h
        | inr (u, e) ↦ subst P (sym e) ((key_func-Stable u).at w h)
      ];
    }

    -- What a refresh of the keys keeps, VerifyToken keeps, whatever the token.
    pub verify_token-Stable :
        (jwt : JwtLibrary) (s : Bytes) → IsVerifying jwt → Stable P (verify_token jwt cfg s)
    unfolding verify_token
    verify_token-Stable jwt s j =
        Stable-bind _ _ (Stable-or_fail _ _ (parse-Stable jwt _ j)) check_audience-Stable

load_key-returns :
    (kid : Bytes) (o : Option PublicKey) (k : PublicKey) (v w : World)
    → decoded (unknown_kid kid) o v ≡ returns k w
    → (o ≡ some k) × (v ≡ w)
load_key-returns kid none k v w h = absurd cc
load_key-returns kid (some k') k v w h = (cc, cc)

key_or_refresh-returns :
    (cfg : Config) (kid : Bytes) (o : Option PublicKey) (k : PublicKey) (v w : World)
    → lookup_key kid v.auth.public_keys ≡ o
    → key_or_refresh cfg kid o v ≡ returns k w
    → lookup_key kid w.auth.public_keys ≡ some k
key_or_refresh-returns cfg kid (some k') k v w e h = cc
key_or_refresh-returns cfg kid none k v w e h =
    let (_, v', _, h') =
      continue-returns _ (or_fail (fetch_public_keys cfg) not_refreshed v) k w h in
    let (found, same) = load_key-returns kid (lookup_key kid v'.auth.public_keys) k v' w h' in
    subst (λ x. lookup_key kid x.auth.public_keys ≡ some k) same found

-- The key that key_func gives stands in the map then.
key_func-returns :
    (cfg : Config) (u : UnverifiedToken) (k : PublicKey) (v w : World)
    → key_func cfg u v ≡ returns k w
    → (kid : Bytes) × (lookup_key kid w.auth.public_keys ≡ some k)
unfolding key_func
key_func-returns cfg u k v w h =
    let (kid, v', _, h') =
      continue-returns _ (checked_kid u.method (lookup_claim (codes "kid") u.header) v) k w h in
    (kid, key_or_refresh-returns cfg kid (lookup_key kid v'.auth.public_keys) k v' w refl h')

-- What the text of a token has shown: its signature is right for a key that the realm has published as a
-- signing key, in the map under some id, and the audience that the text holds, if that is a string, is this
-- client.
pub record IsAuthentic (jwt : JwtLibrary) (cfg : Config) (s : Bytes) (w : World) : Type 0 where
  pub kid : Bytes
  pub key : PublicKey
  pub stored : lookup_key kid w.auth.public_keys ≡ some key
  pub published : IsPublished (jwks_url cfg) w.auth.replies w.auth.requests (kid, key)
  pub signed : jwt.is_signed (trim_bearer s) key ≡ true
  pub audience :
      (cs : List (Bytes × Claim)) (aud : Bytes)
      → jwt.contents (trim_bearer s) ≡ map_claims cs
      → lookup_claim (codes "aud") cs ≡ some (text aud)
      → aud ≡ cfg.keycloak_client_id

check_audience-returns :
    (cfg : Config) (t t' : Token) (v w : World)
    → check_audience cfg t v ≡ returns t' w
    → (t ≡ t') × (v ≡ w) × (is_for cfg.keycloak_client_id t.claims t.valid ≡ true)
check_audience-returns cfg t t' v w h =
    elim (Bool-cases (is_for cfg.keycloak_client_id t.claims t.valid)) [
      | inl e ↦ let h' : pure {E = Bytes} t v ≡ returns t' w = rw e at h in (cc, cc, e)
      | inr e ↦ let h' : throw (codes "invalid audience") v ≡ returns t' w = rw e at h in absurd cc
    ]

audience-of_is_for :
    (id : Bytes) (c : Claims) (cs : List (Bytes × Claim)) (aud : Bytes)
    → is_for id c true ≡ true
    → c ≡ map_claims cs
    → lookup_claim (codes "aud") cs ≡ some (text aud)
    → aud ≡ id
audience-of_is_for id c cs aud h e f =
    let h1 : is_for id (map_claims cs) true ≡ true = subst (λ x. is_for id x true ≡ true) e h in
    let h2 : audience_of id (some (text aud)) ≡ true = subst (λ x. audience_of id x ≡ true) f h1 in
    eq_of_bytes_eq aud id h2

-- If the keys of the map have been published by the realm, and the JWT library does what it documents,
-- a token that VerifyToken returns has the claims of the text that it was given, which is signed with a key
-- of the map, one that the realm has published as an RSA signing key before, and whose audience, if that is
-- a string, is this client.
pub verify_token-IsAuthentic :
    (jwt : JwtLibrary) (cfg : Config) (s : Bytes) (t : Token) (w w' : World)
    → IsVerifying jwt
    → Published (jwks_url cfg) w
    → verify_token jwt cfg s w ≡ returns t w'
    → IsAuthentic jwt cfg s w' × (t.claims ≡ jwt.contents (trim_bearer s))
unfolding verify_token
verify_token-IsAuthentic jwt cfg s t w w' j p h =
    let (t', v, e, h') = continue-returns (check_audience cfg) _ t w' h in
    let (same, there, ok) = check_audience-returns cfg t' t v w' h' in
    let parsed = recode-returns _ (jwt.parse (trim_bearer s) (key_func cfg) w) t' v e in
    let (u, key, found, signed, valid, held) = j.verified _ _ w t' v parsed in
    let (kid, stored) = key_func-returns cfg u key w v found in
    let kept : Published (jwks_url cfg) v =
      subst (Published (jwks_url cfg)) (ap after parsed)
        ((parse-Stable cfg (fetch_public_keys-Published cfg) jwt (trim_bearer s) j).at w p) in
    let given : IsAuthentic jwt cfg s v = record {
      kid = kid;
      key = key;
      stored = stored;
      published = Published-lookup (jwks_url cfg) kid key v stored kept;
      signed = signed;
      audience = λ cs aud c a.
          audience-of_is_for cfg.keycloak_client_id t'.claims cs aud
            (subst (λ x. is_for cfg.keycloak_client_id t'.claims x ≡ true) valid ok) (held ∙ c) a;
    } in
    (
      subst (IsAuthentic jwt cfg s) there given,
      subst (λ x. x.claims ≡ jwt.contents (trim_bearer s)) same held,
    )
