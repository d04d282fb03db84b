-- ===== src/Services/Auth/Rotation.antt =====
-- A refresh of the keys brings in what the realm publishes: the numbers are the ones that the JWKS
-- encodes, and a key whose id is not known yet is found.
use based_backend.Prelude.{
  ℕ, ◌+◌, ◌*◌, ◌%◌, ◌^◌, ◌≤◌, ◌<◌, ◌≡◌, refl, sym, ap, ◌∙◌, List, [], ◌∷◌, true, false, some, In,
  All, Bool-cases, Option-cases, ◌⊎◌, inl, inr, arith,
}
use based_backend.Prelude.Int.{pos, to_int64, to_int64_small}
use based_backend.Types.{Bytes, bytes_eq, codes, bytes_eq_refl}
use based_backend.World.{World, returns, after}
use based_backend.Config.{Config}
use based_backend.Interceptor.{text, lookup_claim}
use based_backend.Services.Auth.Base64.{encode, decode_string, decode_string-encode}
use based_backend.Services.Auth.Keys.{
  KeycloakKey, PublicKey, response, lookup_key, is_signing_key, set_bytes, exponent_bits,
}
use based_backend.Services.Auth.{
  UnverifiedToken, rsa, jwks_url, store_key, store_keys, refill_keys, asked, get_jwks,
  fetch_public_keys, key_func, put_key, clear, some_key,
}

le_set_bytes : (n : ℕ) (bs : Bytes) → n ≤ set_bytes n bs
unfolding set_bytes
le_set_bytes n [] = omega arith
le_set_bytes n (b ∷ bs) = omega (arith, le_set_bytes (n * 256 + b) bs)

exponent_bits_small :
    (e : ℕ) (bs : Bytes) → set_bytes e bs < 2 ^ 64 → exponent_bits e bs ≡ set_bytes e bs
unfolding set_bytes exponent_bits
exponent_bits_small e [] h = refl
exponent_bits_small e (b ∷ bs) h =
    let small : e * 256 % 2 ^ 64 ≡ e * 256 = omega (arith, le_set_bytes (e * 256 + b) bs) in
    rw small (exponent_bits_small (e * 256 + b) bs h)

-- The key of a modulus and an exponent, each in bytes with the highest first.
abbrev pub key_of : Bytes → Bytes → PublicKey
key_of n_bytes e_bytes = record {
  modulus = set_bytes 0 n_bytes;
  exponent = pos (set_bytes 0 e_bytes);
}

-- The JWKS gives the two numbers in base64url, and the exponent fits an int.
pub record Encodes (key : KeycloakKey) (n_bytes e_bytes : Bytes) : Type 0 where
  pub n : key.n ≡ encode n_bytes
  pub e : key.e ≡ encode e_bytes
  pub n_small : All (λ b. b < 256) n_bytes
  pub e_small : All (λ b. b < 256) e_bytes
  pub fits : set_bytes 0 e_bytes < 2 ^ 63

-- If an entry of the JWKS encodes a modulus and an exponent in base64url, and the exponent fits an int,
-- the entry is stored under its id with exactly these two numbers.
pub store_key-Encodes :
    (key : KeycloakKey) (n_bytes e_bytes : Bytes) (w : World)
    → Encodes key n_bytes e_bytes
    → store_key key w ≡ put_key key.kid (key_of n_bytes e_bytes) w
unfolding store_key
store_key-Encodes key n_bytes e_bytes w h =
    let exact : to_int64 (exponent_bits 0 e_bytes) ≡ pos (set_bytes 0 e_bytes) =
      ap to_int64 (exponent_bits_small 0 e_bytes (omega (arith, h.fits)))
      ∙ to_int64_small (set_bytes 0 e_bytes) h.fits in
    rw
      (
        ap decode_string h.n ∙ decode_string-encode n_bytes h.n_small,
        ap decode_string h.e ∙ decode_string-encode e_bytes h.e_small,
        exact,
      )
      refl

HasKey : Bytes → World → Type 0
HasKey kid w = (k : PublicKey) × (lookup_key kid w.auth.public_keys ≡ some k)

-- A signing key of the id is among the keys.
abbrev pub IsListed : Bytes → List KeycloakKey → Type 0
IsListed kid keys =
    (key : KeycloakKey) × In key keys × (is_signing_key key ≡ true) × (key.kid ≡ kid)

abbrev pub AreReadable : List KeycloakKey → Type 0
AreReadable keys =
    All (λ key. is_signing_key key ≡ true → (n_bytes e_bytes : Bytes) × Encodes key n_bytes e_bytes)
      keys

HasKey-put_key :
    (kid kid' : Bytes) (pk : PublicKey) (w : World)
    → HasKey kid w
    → HasKey kid (after (put_key kid' pk w))
unfolding HasKey lookup_key
HasKey-put_key kid kid' pk w (k, h) = elim (Bool-cases (bytes_eq kid' kid)) [
  | inl e ↦ rw e (pk, refl)
  | inr e ↦ rw e (k, h)
]

put_key-HasKey :
    (kid kid' : Bytes) (pk : PublicKey) (w : World)
    → kid' ≡ kid
    → HasKey kid (after (put_key kid' pk w))
unfolding HasKey lookup_key
put_key-HasKey kid kid' pk w e =
    let same : bytes_eq kid' kid ≡ true = ap (λ x. bytes_eq x kid) e ∙ bytes_eq_refl kid in
    rw same (pk, refl)

head_or_tail :
    (kid : Bytes) (key : KeycloakKey) (keys : List KeycloakKey)
    → IsListed kid (key ∷ keys)
    → ((is_signing_key key ≡ true) × (key.kid ≡ kid)) ⊎ IsListed kid keys
head_or_tail kid key keys (k, inl e, s, i) = inl (ap is_signing_key e ∙ s, ap (λ x. x.kid) e ∙ i)
head_or_tail kid key keys (k, inr l, s, i) = inr (k, l, s, i)

store_keys-HasKey :
    (kid : Bytes) (keys : List KeycloakKey) (w : World)
    → AreReadable keys
    → HasKey kid w ⊎ IsListed kid keys
    → (w' : World) × (store_keys keys w ≡ returns tt w') × HasKey kid w'
unfolding store_keys
store_keys-HasKey kid [] w r (inl h) = (w, refl, h)
store_keys-HasKey kid [] w r (inr (key, l, _, _)) = elim l [ ]
store_keys-HasKey kid (key ∷ keys) w (r, rs) h = elim (Bool-cases (is_signing_key key)) [
  | inl e ↦
      let (n_bytes, e_bytes, encodes) = r e in
      let put : World = after (put_key key.kid (key_of n_bytes e_bytes) w) in
      let next : HasKey kid put ⊎ IsListed kid keys = elim h [
        | inl there ↦ inl (HasKey-put_key kid key.kid _ w there)
        | inr listed ↦ elim (head_or_tail kid key keys listed) [
          | inl head ↦ inl (put_key-HasKey kid key.kid _ w head.1)
          | inr tail ↦ inr tail
        ]
      ] in
      rw e rw (store_key-Encodes key n_bytes e_bytes w encodes)
        (store_keys-HasKey kid keys put rs next)
  | inr e ↦
      let next : HasKey kid w ⊎ IsListed kid keys = elim h [
        | inl there ↦ inl there
        | inr listed ↦ elim (head_or_tail kid key keys listed) [
          | inl head ↦ absurd (let clash : true ≡ false = sym head.0 ∙ e in cc)
          | inr tail ↦ inr tail
        ]
      ] in
      rw e (store_keys-HasKey kid keys w rs next)
]

some_key-lookup_key :
    (kid : Bytes) (k : PublicKey) (m : List (Bytes × PublicKey)) (w : World)
    → lookup_key kid m ≡ some k
    → some_key m w ≡ returns tt w
unfolding lookup_key
some_key-lookup_key kid k [] w h = absurd cc
some_key-lookup_key kid k (x ∷ m) w h = refl

refill_keys-HasKey :
    (kid : Bytes) (keys : List KeycloakKey) (w : World)
    → AreReadable keys
    → IsListed kid keys
    → (w' : World) × (refill_keys keys w ≡ returns tt w') × HasKey kid w'
unfolding refill_keys HasKey
refill_keys-HasKey kid keys w r l =
    let (w', e, (k, h)) = store_keys-HasKey kid keys (after (clear w)) r (inr l) in
    (w', rw e (some_key-lookup_key kid k w'.auth.public_keys w' h), (k, h))

-- Keys may be rotated: if the realm's next reply is a JWKS whose signing keys are readable, a token with
-- an RSA method and the id of one of these keys finds a key of that id, whether the map has had the id
-- before or not.
pub key_func-IsListed :
    (cfg : Config) (u : UnverifiedToken) (kid : Bytes) (keys : List KeycloakKey) (w : World)
    → u.method ≡ rsa
    → lookup_claim (codes "kid") u.header ≡ some (text kid)
    → w.auth.replies (jwks_url cfg) w.auth.requests ≡ response 200 (some keys)
    → AreReadable keys
    → IsListed kid keys
    → (k : PublicKey) × (w' : World) × (key_func cfg u w ≡ returns k w')
      × (lookup_key kid w'.auth.public_keys ≡ some k)
unfolding key_func fetch_public_keys get_jwks HasKey
key_func-IsListed cfg u kid keys w m c e r l =
    elim (Option-cases (lookup_key kid w.auth.public_keys)) [
      | inr (k, known) ↦ (k, w, rw (m, c, known) refl, known)
      | inl unknown ↦
          let (w', filled, (k, found)) = refill_keys-HasKey kid keys (asked w) r l in
          (k, w', rw (m, c, unknown, e, filled, found) refl, found)
    ]
