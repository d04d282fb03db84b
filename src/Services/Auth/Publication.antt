-- ===== src/Services/Auth/Publication.antt =====
-- The map of keys holds what the realm has published: fetchPublicKeys and all that calls it.
use mathlib.Core.Path.{subst}
use based_backend.Prelude.{
  sym, ◌==◌, ==_iff, ap, ◌∙◌, ℕ, suc, ◌<◌, ◌≡◌, refl, List, [], ◌∷◌, true, Option, none, some, In,
  All, All-map, Bool-cases, inl, inr, arith,
}
use based_backend.Types.{Bytes, bytes_eq, eq_of_bytes_eq}
use based_backend.World.{World, M, after, ◌>>=◌, continue}
use based_backend.Config.{Config}
use based_backend.World.Stable.{Stable, Stable-pure, Stable-throw, Stable-bind}
use based_backend.Services.Auth.Base64.{decode_string}
use based_backend.Services.Auth.Keys.{
  KeycloakKey, PublicKey, Reply, no_response, response, lookup_key, is_signing_key, public_key,
  IsDecoded,
}
use based_backend.Services.Auth.{
  FetchError, undecodable_modulus, undecodable_exponent, put_key, clear, some_key, read_reply,
  jwks_url, refill_keys, fetch_public_keys, asked, get_jwks, store_key, store_keys, decoded,
}

-- Every entry of the map meets `R`, and the requests are those of `rs` and `n`.
record Holds (rs : Bytes → ℕ → Reply) (n : ℕ) (R : Bytes × PublicKey → Type 0) (w : World)
    : Type 0 where
  replies : w.auth.replies ≡ rs
  requests : w.auth.requests ≡ n
  entries : All R w.auth.public_keys

decoded-Stable :
    {E A B : Type 0} (P : World → Type 0) (e : E) (o : Option A) (f : A → M E B)
    → ((a : A) → o ≡ some a → Stable P (f a))
    → Stable P (decoded e o >>= f)
decoded-Stable P e none f h = record { at = λ w r. r }
decoded-Stable P e (some a) f h = h a refl

module _ (rs : Bytes → ℕ → Reply) (n : ℕ) (R : Bytes × PublicKey → Type 0) where
  store_key-Stable :
      (key : KeycloakKey)
      → ((pk : PublicKey) → IsDecoded key pk → R (key.kid, pk))
      → Stable (Holds rs n R) (store_key key)
  unfolding store_key
  store_key-Stable key h =
      let exponent = decode_string key.e in
      let put : Bytes → Bytes → M FetchError (Unit {0}) =
        λ n_bytes e_bytes. put_key key.kid (public_key n_bytes e_bytes) in
      decoded-Stable _ undecodable_modulus (decode_string key.n)
        (λ n_bytes. decoded undecodable_exponent exponent >>= put n_bytes)
        λ n_bytes hn. decoded-Stable _ undecodable_exponent exponent (put n_bytes) λ e_bytes he.
          record {
            at = λ w r. record {
              replies = r.replies;
              requests = r.requests;
              entries = (h _ (n_bytes, e_bytes, hn, he, refl), r.entries);
            };
          }

  store_keys-Stable :
      (keys : List KeycloakKey)
      → ((key : KeycloakKey) (pk : PublicKey)
          → In key keys
          → is_signing_key key ≡ true
          → IsDecoded key pk
          → R (key.kid, pk))
      → Stable (Holds rs n R) (store_keys keys)
  unfolding store_keys
  store_keys-Stable [] h = Stable-pure tt
  store_keys-Stable (key ∷ keys) h =
      let rest = store_keys-Stable keys (λ k pk i. h k pk (inr i)) in
      elim (Bool-cases (is_signing_key key)) [
        | inl e ↦
            rw e (Stable-bind _ _ (store_key-Stable key (λ pk. h key pk (inl refl) e)) (λ _. rest))
        | inr e ↦ rw e rest
      ]

-- A reply from the URL, before the n-th, has a signing key that gives the entry.
pub record IsPublished (url : Bytes) (rs : Bytes → ℕ → Reply) (n : ℕ) (entry : Bytes × PublicKey)
    : Type 0 where
  pub request : ℕ
  pub keys : List KeycloakKey
  pub key : KeycloakKey
  pub earlier : request < n
  pub reply : rs url request ≡ response 200 (some keys)
  pub listed : In key keys
  pub signing : is_signing_key key ≡ true
  pub id : key.kid ≡ entry.0
  pub value : IsDecoded key entry.1

-- Every entry of the map has been published under the URL.
unfoldable pub Published : Bytes → World → Type 0
Published url w = All (IsPublished url w.auth.replies w.auth.requests) w.auth.public_keys

IsPublished-later :
    (url : Bytes) (rs : Bytes → ℕ → Reply) (n : ℕ) (entry : Bytes × PublicKey)
    → IsPublished url rs n entry
    → IsPublished url rs (suc n) entry
IsPublished-later url rs n entry h = record {
  request = h.request;
  keys = h.keys;
  key = h.key;
  earlier = omega (arith, h.earlier);
  reply = h.reply;
  listed = h.listed;
  signing = h.signing;
  id = h.id;
  value = h.value;
}

Published-of_Holds :
    (url : Bytes) (rs : Bytes → ℕ → Reply) (n : ℕ) (w : World)
    → Holds rs n (IsPublished url rs n) w
    → Published url w
unfolding Published
Published-of_Holds url rs n w h =
    subst (λ x. All (IsPublished url x w.auth.requests) w.auth.public_keys) (sym h.replies)
      (subst (λ x. All (IsPublished url rs x) w.auth.public_keys) (sym h.requests) h.entries)

some_key-Stable : {P : World → Type 0} (ks : List (Bytes × PublicKey)) → Stable P (some_key ks)
some_key-Stable [] = Stable-throw _
some_key-Stable (k ∷ ks) = Stable-pure tt

refill_keys-Published :
    (url : Bytes) (keys : List KeycloakKey) (i : ℕ) (w : World)
    → i < w.auth.requests
    → w.auth.replies url i ≡ response 200 (some keys)
    → Published url (after (refill_keys keys w))
unfolding refill_keys
refill_keys-Published url keys i w lt e =
    let rs = w.auth.replies in
    let n = w.auth.requests in
    let published : (key : KeycloakKey) (pk : PublicKey)
        → In key keys
        → is_signing_key key ≡ true
        → IsDecoded key pk
        → IsPublished url rs n (key.kid, pk) =
      λ key pk l s d. record {
        request = i;
        keys = keys;
        key = key;
        earlier = lt;
        reply = e;
        listed = l;
        signing = s;
        id = refl;
        value = d;
      } in
    let empty : Holds rs n (IsPublished url rs n) (after (clear w)) = record {
      replies = refl;
      requests = refl;
      entries = tt;
    } in
    Published-of_Holds url rs n _ (
      (Stable-bind _ _ (store_keys-Stable rs n _ keys published) (λ _. record {
        at = λ v h.
            (some_key-Stable {P = Holds rs n (IsPublished url rs n)} v.auth.public_keys).at v h;
      })).at
        _ empty)

-- A refresh ends with keys that the realm has published, even if it fails, if the keys before were.
pub fetch_public_keys-Published :
    (cfg : Config) → Stable (Published (jwks_url cfg)) (fetch_public_keys cfg)
unfolding fetch_public_keys get_jwks Published
fetch_public_keys-Published cfg = record { at = λ w h. on_reply w _ refl h }
  where
    url : Bytes
    url = jwks_url cfg

    on_reply :
        (w : World) (r : Reply)
        → w.auth.replies url w.auth.requests ≡ r
        → Published url w
        → Published url (after (continue refill_keys (read_reply r (asked w))))
    on_reply w (no_response e) h p = All-map (IsPublished-later url _ _) _ p
    on_reply w (response status none) h p = elim (Bool-cases (status == 200)) [
      | inl e ↦ rw e (All-map (IsPublished-later url _ _) _ p)
      | inr e ↦ rw e (All-map (IsPublished-later url _ _) _ p)
    ]
    on_reply w (response status (some keys)) h p = elim (Bool-cases (status == 200)) [
      | inl e ↦
          let ok : status ≡ 200 = (==_iff status 200).0 e in
          rw e (
            refill_keys-Published url keys w.auth.requests (asked w) (omega arith)
              (h ∙ ap (λ x. response x (some keys)) ok))
      | inr e ↦ rw e (All-map (IsPublished-later url _ _) _ p)
    ]

lookup_key-All :
    (R : Bytes × PublicKey → Type 0) (kid : Bytes) (k : PublicKey) (m : List (Bytes × PublicKey))
    → lookup_key kid m ≡ some k
    → All R m
    → R (kid, k)
unfolding lookup_key
lookup_key-All R kid k [] h a = absurd cc
lookup_key-All R kid k ((kid', k') ∷ m) h (r, a) = elim (Bool-cases (bytes_eq kid' kid)) [
  | inl e ↦
      let h' : some k' ≡ some k = rw e at h in
      let same : k' ≡ k = cc in
      subst (λ x. R (kid, x)) same (subst (λ x. R (x, k')) (eq_of_bytes_eq kid' kid e) r)
  | inr e ↦ let h' : lookup_key kid m ≡ some k = rw e at h in lookup_key-All R kid k m h' a
]

pub Published-lookup :
    (url kid : Bytes) (key : PublicKey) (w : World)
    → lookup_key kid w.auth.public_keys ≡ some key
    → Published url w
    → IsPublished url w.auth.replies w.auth.requests (kid, key)
unfolding Published
Published-lookup url kid key w h p = lookup_key-All _ kid key _ h p

pub Published-nil : (url : Bytes) (w : World) → w.auth.public_keys ≡ [] → Published url w
unfolding Published
Published-nil url w e = rw e tt
