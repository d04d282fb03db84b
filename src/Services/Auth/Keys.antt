-- ===== src/Services/Auth/Keys.antt =====
-- The keys of internal/services/auth_service.go: the JWKS that Keycloak publishes, and the map
-- `publicKeys` that fetchPublicKeys fills from it.
use based_backend.Prelude.{
  ℕ, ◌+◌, ◌*◌, ◌%◌, ◌^◌, List, [], ◌∷◌, Bool, ◌&&◌, Option, none, some, if◌then◌else◌, ◌≡◌,
}
use based_backend.Prelude.Int.{ℤ, to_int64}
use based_backend.Types.{Bytes, bytes_eq, codes}
use based_backend.Services.Auth.Base64.{decode_string}

pub record KeycloakKey : Type 0 where
  pub kid : Bytes
  pub kty : Bytes
  pub alg : Bytes
  pub use_of : Bytes
  pub n : Bytes
  pub e : Bytes

-- *rsa.PublicKey
pub record PublicKey : Type 0 where
  pub modulus : ℕ
  pub exponent : ℤ

-- What a request for the JWKS gives: an error of the HTTP client, or a status with what
-- the JSON decoder makes of the body, none for an error.
pub data Reply : Type 0 where
  no_response : Bytes → Reply
  response : ℕ → Option (List KeycloakKey) → Reply

-- `publicKeys` of the AuthService, the newest entry first. The n-th request, to a URL, has the reply
-- `replies url n`.
pub record KeyStore : Type 0 where
  pub public_keys : List (Bytes × PublicKey)
  pub replies : Bytes → ℕ → Reply
  pub requests : ℕ

unfoldable pub lookup_key : Bytes → List (Bytes × PublicKey) → Option PublicKey
lookup_key kid [] = none
lookup_key kid ((k, key) ∷ keys) = if bytes_eq k kid then some key else lookup_key kid keys

-- n.SetBytes: the bytes as a big-endian number.
unfoldable pub set_bytes : ℕ → Bytes → ℕ
set_bytes n [] = n
set_bytes n (b ∷ bs) = set_bytes (n * 256 + b) bs

-- `e = e<<8 | int(eBytes[i])`: the 64 bits of an int, whose low 8 bits the shift has cleared.
unfoldable pub exponent_bits : ℕ → Bytes → ℕ
exponent_bits e [] = e
exponent_bits e (b ∷ bs) = exponent_bits (e * 256 % 2 ^ 64 + b) bs

unfoldable pub is_signing_key : KeycloakKey → Bool
is_signing_key key = bytes_eq key.use_of (codes "sig") && bytes_eq key.kty (codes "RSA")

abbrev pub public_key : Bytes → Bytes → PublicKey
public_key n_bytes e_bytes = record {
  modulus = set_bytes 0 n_bytes;
  exponent = to_int64 (exponent_bits 0 e_bytes);
}

-- What an entry of the map holds of a key of the JWKS.
abbrev pub IsDecoded : KeycloakKey → PublicKey → Type 0
IsDecoded key pk =
    (n_bytes e_bytes : Bytes) × (decode_string key.n ≡ some n_bytes)
    × (decode_string key.e ≡ some e_bytes)
    × (pk ≡ public_key n_bytes e_bytes)
