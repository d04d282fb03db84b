-- ===== src/Services/Auth/Base64.antt =====
-- encoding/base64's RawURLEncoding, by which a JWKS writes numbers: DecodeString, and the encoding that
-- RFC 4648 describes, of which it is the inverse.
use Prim.Native.Nat.{◌/◌}
use based_backend.Prelude.{
  ℕ, ◌+◌, ◌*◌, ◌-◌, ◌%◌, ◌<◌, ◌≡◌, refl, [], ◌∷◌, ◌||◌, Option, none, some, ◌==◌, leb, ltb, ◌&&◌,
  if◌then◌else◌, arith, All,
}
use based_backend.Types.{Bytes}

-- A character's six bits.
unfoldable pub sextet : ℕ → Option ℕ
sextet c =
    if leb b'A' c && leb c b'Z'
    then some (c - b'A')
    else if leb b'a' c && leb c b'z'
    then some (c - b'a' + 26)
    else if leb b'0' c && leb c b'9'
    then some (c - b'0' + 52)
    else if c == b'-'
    then some 62
    else if c == b'_'
    then some 63
    else none

-- DecodeString skips the ends of lines.
unfoldable pub without_newlines : Bytes → Bytes
without_newlines [] = []
without_newlines (c ∷ s) =
    let rest = without_newlines s in if c == 10 || c == 13 then rest else c ∷ rest

abbrev and_also : {A B : Type 0} → Option A → (A → Option B) → Option B
and_also none f = none
and_also (some a) f = f a

-- Four characters give three bytes. The last two or three give one or two, whatever their spare bits are.
unfoldable pub quanta : Bytes → Option Bytes
quanta [] = some []
quanta (a ∷ []) = none
quanta (a ∷ b ∷ []) = and_also (sextet a) λ x. and_also (sextet b) λ y. some ((x * 4 + y / 16) ∷ [])
quanta (a ∷ b ∷ c ∷ []) = and_also (sextet a) λ x.
    and_also (sextet b)
      λ y. and_also (sextet c) λ z. some ((x * 4 + y / 16) ∷ (y % 16 * 16 + z / 4) ∷ [])
quanta (a ∷ b ∷ c ∷ d ∷ s) = and_also (sextet a) λ x. and_also (sextet b) λ y.
    and_also (sextet c) λ z. and_also (sextet d) λ u.
      and_also (quanta s)
        λ rest. some ((x * 4 + y / 16) ∷ (y % 16 * 16 + z / 4) ∷ (z % 4 * 64 + u) ∷ rest)

-- none for a CorruptInputError
unfoldable pub decode_string : Bytes → Option Bytes
decode_string s = quanta (without_newlines s)

unfoldable pub letter : ℕ → ℕ
letter v =
    if ltb v 26
    then b'A' + v
    else if ltb v 52
    then b'a' + (v - 26)
    else if ltb v 62
    then b'0' + (v - 52)
    else if v == 62
    then b'-'
    else b'_'

unfoldable pub encode : Bytes → Bytes
encode [] = []
encode (p ∷ []) = letter (p / 4) ∷ letter (p % 4 * 16) ∷ []
encode (p ∷ q ∷ []) = letter (p / 4) ∷ letter (p % 4 * 16 + q / 16) ∷ letter (q % 16 * 4) ∷ []
encode (p ∷ q ∷ r ∷ s) =
    letter (p / 4)
    ∷ letter (p % 4 * 16 + q / 16)
    ∷ letter (q % 16 * 4 + r / 64)
    ∷ letter (r % 64)
    ∷ encode s

sextet-letter : (v : ℕ) → v < 64 → sextet (letter v) ≡ some v
unfolding sextet letter
sextet-letter v h = ground arith

IsOneLine : Bytes → Type 0
IsOneLine s = without_newlines s ≡ s

IsOneLine-nil : IsOneLine []
unfolding IsOneLine without_newlines
IsOneLine-nil = refl

IsOneLine-letter : (v : ℕ) (s : Bytes) → IsOneLine s → IsOneLine (letter v ∷ s)
unfolding IsOneLine without_newlines letter
IsOneLine-letter v s h = rw h ground arith

encode-IsOneLine : (bs : Bytes) → IsOneLine (encode bs)
unfolding encode
encode-IsOneLine [] = IsOneLine-nil
encode-IsOneLine (p ∷ []) = search (IsOneLine-letter, IsOneLine-nil) depth 6
encode-IsOneLine (p ∷ q ∷ []) = search (IsOneLine-letter, IsOneLine-nil) depth 6
encode-IsOneLine (p ∷ q ∷ r ∷ s) = search (IsOneLine-letter, encode-IsOneLine s) depth 6

quanta-encode : (bs : Bytes) → All (λ b. b < 256) bs → quanta (encode bs) ≡ some bs
unfolding quanta encode
quanta-encode [] h = refl
quanta-encode (p ∷ []) (hp, h) =
    rw (sextet-letter (p / 4) (omega arith), sextet-letter (p % 4 * 16) (omega arith)) ground arith
quanta-encode (p ∷ q ∷ []) (hp, (hq, h)) =
    rw
      (
        sextet-letter (p / 4) (omega arith),
        sextet-letter (p % 4 * 16 + q / 16) (omega arith),
        sextet-letter (q % 16 * 4) (omega arith),
      )
      ground arith
quanta-encode (p ∷ q ∷ r ∷ s) (hp, (hq, (hr, h))) =
    rw
      (
        sextet-letter (p / 4) (omega arith),
        sextet-letter (p % 4 * 16 + q / 16) (omega arith),
        sextet-letter (q % 16 * 4 + r / 64) (omega arith),
        sextet-letter (r % 64) (omega arith),
        quanta-encode s h,
      )
      ground arith

pub decode_string-encode :
    (bs : Bytes) → All (λ b. b < 256) bs → decode_string (encode bs) ≡ some bs
unfolding decode_string IsOneLine
decode_string-encode bs h =
    let plain : without_newlines (encode bs) ≡ encode bs = encode-IsOneLine bs in
    rw plain (quanta-encode bs h)
