-- ===== src/Services/Auth/Frame.antt =====
-- The token check leaves the tables alone.
use based_backend.Prelude.{List, [], ◌∷◌, Bool-cases, inl, inr, ◌==◌}
use based_backend.Types.{Bytes}
use based_backend.World.{M, ◌>>=◌}
use based_backend.World.Stable.{Stable, Stable-pure, Stable-throw, Stable-bind}
use based_backend.Config.{Config}
use based_backend.Sqlc.Database.{Database}
use based_backend.Sqlc.Statement.Keeps.{OnTables}
use based_backend.Interceptor.{new_auth_interceptor}
use based_backend.Services.Auth.Base64.{decode_string}
use based_backend.Services.Auth.Keys.{
  KeycloakKey, PublicKey, Reply, no_response, response, is_signing_key, public_key,
}
use based_backend.Services.Auth.{
  JwtLibrary, FetchError, undecodable_modulus, undecodable_exponent, decoded, read_reply, asked,
  get_jwks, put_key, clear, store_key, store_keys, some_key, refill_keys, fetch_public_keys,
  auth_service, jwks_url,
}
use based_backend.Services.Auth.Verification.{IsVerifying, decoded-Stable, verify_token-Stable}
use based_backend.Server.Keeps.{TokenCheckKeeps}

module _ (P : Database → Type 0) where
  some_key-Stable : (ks : List (Bytes × PublicKey)) → Stable (OnTables P) (some_key ks)
  some_key-Stable [] = Stable-throw _
  some_key-Stable (k ∷ ks) = Stable-pure tt

  read_reply-Stable : (r : Reply) → Stable (OnTables P) (read_reply r)
  read_reply-Stable (no_response e) = Stable-throw _
  read_reply-Stable (response status body) = elim (Bool-cases (status == 200)) [
    | inl e ↦ rw e (decoded-Stable _ body)
    | inr e ↦ rw e (Stable-throw _)
  ]

  store_key-Stable : (key : KeycloakKey) → Stable (OnTables P) (store_key key)
  unfolding store_key
  store_key-Stable key =
      let exponent : M FetchError Bytes = decoded undecodable_exponent (decode_string key.e) in
      let put : Bytes → Bytes → M FetchError (Unit {0}) =
        λ n_bytes e_bytes. put_key key.kid (public_key n_bytes e_bytes) in
      Stable-bind (decoded undecodable_modulus (decode_string key.n))
        (λ n_bytes. exponent >>= put n_bytes)
        (decoded-Stable undecodable_modulus (decode_string key.n))
        λ n_bytes.
          Stable-bind exponent (put n_bytes)
            (decoded-Stable undecodable_exponent (decode_string key.e))
            λ e_bytes. record { at = λ w h. h }

  store_keys-Stable : (keys : List KeycloakKey) → Stable (OnTables P) (store_keys keys)
  unfolding store_keys
  store_keys-Stable [] = Stable-pure tt
  store_keys-Stable (key ∷ keys) = elim (Bool-cases (is_signing_key key)) [
    | inl e ↦ rw e (Stable-bind _ _ (store_key-Stable key) (λ _. store_keys-Stable keys))
    | inr e ↦ rw e (store_keys-Stable keys)
  ]

  fetch_public_keys-Stable : (cfg : Config) → Stable (OnTables P) (fetch_public_keys cfg)
  unfolding fetch_public_keys get_jwks refill_keys
  fetch_public_keys-Stable cfg =
      Stable-bind _ _
        (record {
          at = λ w h.
              (read_reply-Stable (w.auth.replies (jwks_url cfg) w.auth.requests)).at (asked w) h;
        })
        λ keys.
          Stable-bind _ _
            (Stable-bind clear _ (record { at = λ w h. h }) (λ _. store_keys-Stable keys))
            (λ _. record { at = λ w h. (some_key-Stable w.auth.public_keys).at w h })

  -- The token check keeps every property of the tables.
  pub auth_service-TokenCheckKeeps :
      (jwt : JwtLibrary) (cfg : Config)
      → IsVerifying jwt
      → TokenCheckKeeps (OnTables P) (new_auth_interceptor (auth_service jwt cfg))
  unfolding new_auth_interceptor auth_service
  auth_service-TokenCheckKeeps jwt cfg j ctx bearer = record {
    at = (verify_token-Stable cfg (fetch_public_keys-Stable cfg) jwt bearer j).at;
  }
