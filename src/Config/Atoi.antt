-- ===== src/Config/Atoi.antt =====
-- strconv.Atoi reads back what strconv.Itoa prints.
use Prim.Native.Nat.{◌/◌}
use based_backend.Prelude.{
  ℕ, zero, suc, ◌+◌, ◌*◌, ◌%◌, ◌^◌, ◌<◌, ◌≡◌, refl, [], ◌∷◌, Bool, true, false, ◌&&◌, some, leb,
  ltb, if◌then◌else◌, arith,
}
use based_backend.Prelude.Int.{ℤ, pos, negsuc, InInt64}
use based_backend.Types.{Bytes}
use based_backend.Config.{scan_digits, atoi, in_range}

-- The decimal digits of a number below 10 ^ k, in front of `out`.
emit : ℕ → ℕ → Bytes → Bytes
emit zero n out = out
emit (suc k) n out = if ltb n 10 then (b'0' + n) ∷ out else emit k (n / 10) ((b'0' + n % 10) ∷ out)

-- strconv.Itoa: an int64 has at most 19 digits.
pub itoa : ℤ → Bytes
itoa (pos n) = emit 19 n []
itoa (negsuc n) = b'-' ∷ emit 19 (suc n) []

digit_first : Bytes → Bool
digit_first [] = false
digit_first (c ∷ s) = leb b'0' c && leb c b'9'

digit_first-emit :
    (k n : ℕ) (out : Bytes) → digit_first out ≡ true → digit_first (emit k n out) ≡ true
unfolding emit digit_first
digit_first-emit zero n out h = h
digit_first-emit (suc k) n out h =
    ground (arith, digit_first-emit k (n / 10) ((b'0' + n % 10) ∷ out))

digit_first-emit-suc : (k n : ℕ) (out : Bytes) → digit_first (emit (suc k) n out) ≡ true
unfolding emit digit_first
digit_first-emit-suc k n out = ground (arith, digit_first-emit k (n / 10) ((b'0' + n % 10) ∷ out))

scan_digits-digit :
    (m d : ℕ) (out : Bytes)
    → d < 10
    → m * 10 + d < 2 ^ 64
    → scan_digits m ((b'0' + d) ∷ out) ≡ scan_digits (m * 10 + d) out
unfolding scan_digits
scan_digits-digit m d out h b = ground arith

scan_digits-emit :
    (k n : ℕ) (out : Bytes)
    → n < 10 ^ k
    → n < 2 ^ 64
    → scan_digits 0 (emit k n out) ≡ scan_digits n out
unfolding emit
scan_digits-emit zero n out h b = grind arith
scan_digits-emit (suc k) n out h b = ground (
  arith,
  scan_digits-digit 0 n out,
  scan_digits-emit k (n / 10) ((b'0' + n % 10) ∷ out),
  scan_digits-digit (n / 10) (n % 10) out,
)

atoi-of_digits : (s : Bytes) → digit_first s ≡ true → atoi s ≡ in_range false (scan_digits 0 s)
unfolding atoi digit_first
atoi-of_digits [] h = absurd cc
atoi-of_digits (c ∷ s) h = ground arith

atoi-of_minus :
    (s : Bytes) → digit_first s ≡ true → atoi (b'-' ∷ s) ≡ in_range true (scan_digits 0 s)
unfolding atoi digit_first
atoi-of_minus [] h = absurd cc
atoi-of_minus (c ∷ s) h = refl

pub atoi-itoa : (z : ℤ) → InInt64 z → atoi (itoa z) ≡ some z
unfolding itoa scan_digits
atoi-itoa (pos n) h =
    rw (atoi-of_digits _ (digit_first-emit-suc 18 n [])) rw
      (scan_digits-emit 19 n [] (omega arith) (omega arith)) ground arith
atoi-itoa (negsuc n) h =
    rw (atoi-of_minus _ (digit_first-emit-suc 18 (suc n) [])) rw
      (scan_digits-emit 19 (suc n) [] (omega arith) (omega arith)) ground arith
