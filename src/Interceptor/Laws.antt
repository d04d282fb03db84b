-- ===== src/Interceptor/Laws.antt =====
-- What the interceptor asks of a call, and whom it takes the caller to be.
use based_backend.Services.Status.{Code, Status, Context}
use based_backend.Interceptor.{
  text, Claim, Claims, AuthInterceptor, strip_prefix, get_values, stripped, first_token,
  token_of_metadata, extract_token, user_id_of_sub, user_id_of_claims, invalid_token, authenticate,
  other_value, map_claims, other_claims,
}
use based_backend.World.{World, Outcome, M, continue, recode, returns, fails}
use based_backend.Types.{Bytes, codes}
use based_backend.Prelude.{
  ◌≡◌, refl, List, [], ◌∷◌, Option, none, some, Option-cases, ◌≢◌, ◌↔◌, inl, inr, ◌++◌, arith,
}

strip_prefix-append : (p s : Bytes) → strip_prefix p (p ++ s) ≡ some s
unfolding strip_prefix
strip_prefix-append [] s = refl
strip_prefix-append (c ∷ p) s = ground (arith, strip_prefix-append p s)

append_of_strip_prefix : (p s rest : Bytes) → strip_prefix p s ≡ some rest → s ≡ p ++ rest
unfolding strip_prefix
append_of_strip_prefix [] s rest h = cc
append_of_strip_prefix (c ∷ p) [] rest h = ground arith
append_of_strip_prefix (c ∷ p) (d ∷ s) rest h = ground (arith, append_of_strip_prefix p s rest)

token_of_first :
    (value bearer : Bytes) (w w' : World)
    → stripped (strip_prefix (codes "Bearer ") value) w ≡ returns bearer w'
    → value ≡ codes "Bearer " ++ bearer
token_of_first value bearer w w' h = elim (Option-cases (strip_prefix (codes "Bearer ") value)) [
  | inl e ↦ absurd (let h' : stripped none w ≡ returns bearer w' = rw e at h in cc)
  | inr (rest, e) ↦
      let h' : stripped (some rest) w ≡ returns bearer w' = rw e at h in
      let same : rest ≡ bearer = cc in append_of_strip_prefix _ value bearer (rw same at e)
]

-- If the metadata has a value under "authorization", extractToken returns a text and leaves the
-- world as it is exactly when the first such value is that text behind "Bearer ".
pub extract_token_iff :
    (ctx : Context) (md : List (Bytes × List Bytes)) (value : Bytes) (others : List Bytes)
    (bearer : Bytes) (w : World)
    → ctx.metadata ≡ some md
    → get_values (codes "authorization") md ≡ value ∷ others
    → (extract_token ctx w ≡ returns bearer w) ↔ (value ≡ codes "Bearer " ++ bearer)
unfolding extract_token
extract_token_iff ctx md value others bearer w e f = (
  λ h. token_of_first value bearer w w (rw (e, f) at h),
  λ h. rw (e, f, h, strip_prefix-append (codes "Bearer ") bearer) refl,
)

-- An outcome that is no success has the code Unauthenticated; a success is a nonempty id.
abbrev pub Identifies : Outcome Status Bytes → Type 0
Identifies (returns id w) = id ≢ []
Identifies (fails e w) = e.code ≡ Code.unauthenticated

abbrev Refuses : {A : Type 0} → Outcome Status A → Type 0
Refuses (returns a w) = Unit {0}
Refuses (fails e w) = e.code ≡ Code.unauthenticated

user_id_of_sub-Identifies : (c : Option Claim) (w : World) → Identifies (user_id_of_sub c w)
user_id_of_sub-Identifies none w = refl
user_id_of_sub-Identifies (some other_value) w = refl
user_id_of_sub-Identifies (some (text [])) w = refl
user_id_of_sub-Identifies (some (text (c ∷ cs))) w = λ h. ground arith

user_id_of_claims-Identifies : (c : Claims) (w : World) → Identifies (user_id_of_claims c w)
user_id_of_claims-Identifies (map_claims cs) w = user_id_of_sub-Identifies _ w
user_id_of_claims-Identifies other_claims w = refl

stripped-Refuses : (s : Option Bytes) (w : World) → Refuses (stripped s w)
stripped-Refuses none w = refl
stripped-Refuses (some rest) w = tt

first_token-Refuses : (vs : List Bytes) (w : World) → Refuses (first_token vs w)
first_token-Refuses [] w = refl
first_token-Refuses (v ∷ vs) w = stripped-Refuses _ w

token_of_metadata-Refuses :
    (md : Option (List (Bytes × List Bytes))) (w : World) → Refuses (token_of_metadata md w)
token_of_metadata-Refuses none w = refl
token_of_metadata-Refuses (some md) w = first_token-Refuses _ w

continue-Identifies :
    {A : Type 0} (o : Outcome Status A) (f : A → M Status Bytes)
    → Refuses o
    → ((a : A) (w : World) → Identifies (f a w))
    → Identifies (continue f o)
continue-Identifies (returns a w) f r k = k a w
continue-Identifies (fails e w) f r k = r

recode-Refuses : {A : Type 0} (o : Outcome Bytes A) → Refuses (recode invalid_token o)
recode-Refuses (returns a w) = tt
recode-Refuses (fails e w) = refl

-- The check of a call either fails with the code Unauthenticated, or gives an id that is not empty,
-- whatever the token check answers.
pub authenticate-Identifies :
    (i : AuthInterceptor) (ctx : Context) (w : World) → Identifies (authenticate i ctx w)
unfolding authenticate extract_token
authenticate-Identifies i ctx w =
    continue-Identifies _ _ (token_of_metadata-Refuses ctx.metadata w) λ bearer w'.
      continue-Identifies _ _ (recode-Refuses (i.auth_service.verify_token ctx bearer w'))
        (λ verified w''. user_id_of_claims-Identifies verified.claims w'')
