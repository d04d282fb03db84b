-- ===== src/Types.antt =====
-- The value types that every component uses: byte strings, nullable values of pgtype, UUIDs, times
-- and floating-point numbers.
use based_backend.Prelude.{
  ℕ, ◌≡◌, refl, List, [], ◌∷◌, Bool, true, false, ◌&&◌, ◌==◌, arith, String,
}
use based_backend.Prelude.Int.{ℤ, leb_ℤ}
use Prim.Native.Char.{code}

-- A Go string is a sequence of bytes, as a []byte is.
abbrev pub Bytes : Type 0
Bytes = List ℕ

-- The bytes of an ASCII literal.
abbrev pub codes : String → Bytes
codes String.[] = []
codes (String.◌∷◌ c s) = code c ∷ codes s

unfoldable pub bytes_eq : Bytes → Bytes → Bool
bytes_eq [] [] = true
bytes_eq [] (b ∷ bs) = false
bytes_eq (a ∷ as') [] = false
bytes_eq (a ∷ as') (b ∷ bs) = a == b && bytes_eq as' bs

pub bytes_eq_refl : (a : Bytes) → bytes_eq a a ≡ true
unfolding bytes_eq
bytes_eq_refl [] = refl
bytes_eq_refl (a ∷ as') = ground (arith, bytes_eq_refl as')

pub eq_of_bytes_eq : (a b : Bytes) → bytes_eq a b ≡ true → a ≡ b
unfolding bytes_eq
eq_of_bytes_eq [] [] h = refl
eq_of_bytes_eq [] (b ∷ bs) h = ground arith
eq_of_bytes_eq (a ∷ as') [] h = ground arith
eq_of_bytes_eq (a ∷ as') (b ∷ bs) h = ground (arith, eq_of_bytes_eq as' bs)

-- pgtype's UUID, Text, Int4, Timestamptz and Date: a value, and whether it is not NULL.
pub record Nullable (A : Type 0) : Type 0 where
  pub value : A
  pub valid : Bool

abbrev pub some_value : {A : Type 0} → A → Nullable A
some_value a = record { value = a; valid = true }

abbrev pub Uuid : Type 0
Uuid = Nullable Bytes

-- SQL's equality: NULL is equal to nothing.
unfoldable pub uuid_eq : Uuid → Uuid → Bool
uuid_eq a b = a.valid && b.valid && bytes_eq a.value b.value

pub uuid_eq_refl : (a : Uuid) → a.valid ≡ true → uuid_eq a a ≡ true
unfolding uuid_eq
uuid_eq_refl a h = ground (arith, bytes_eq_refl a.value)

pub eq_of_uuid_eq : (a b : Uuid) → uuid_eq a b ≡ true → a ≡ b
unfolding uuid_eq
eq_of_uuid_eq a b h = ground (arith, eq_of_bytes_eq a.value b.value)

-- A time.Time, as nanoseconds from the Unix epoch.
pub record Time : Type 0 where
  pub nanoseconds : ℤ

unfoldable pub epoch : Time
epoch = record { nanoseconds = ℤ.pos 0 }

abbrev pub not_after : Time → Time → Bool
not_after a b = leb_ℤ a.nanoseconds b.nanoseconds

-- A float64, as its bit pattern. The program only passes such values on.
pub record Float64 : Type 0 where
  pub bits : ℕ

pub bytes_eq_comm : (a b : Bytes) → bytes_eq a b ≡ bytes_eq b a
unfolding bytes_eq
bytes_eq_comm [] [] = refl
bytes_eq_comm [] (b ∷ bs) = refl
bytes_eq_comm (a ∷ as') [] = refl
bytes_eq_comm (a ∷ as') (b ∷ bs) = ground (arith, bytes_eq_comm as' bs)

pub uuid_eq_comm : (a b : Uuid) → uuid_eq a b ≡ uuid_eq b a
unfolding uuid_eq
uuid_eq_comm a b = ground (arith, bytes_eq_comm a.value b.value)

pub uuid_eq_join : (a b c : Uuid) → uuid_eq a c ≡ true → uuid_eq b c ≡ true → uuid_eq a b ≡ true
unfolding uuid_eq
uuid_eq_join a b c h k =
    let e : bytes_eq a.value c.value ≡ true = ground arith in
    let f : bytes_eq b.value c.value ≡ true = ground arith in
    ground (
      arith,
      eq_of_bytes_eq a.value c.value e,
      eq_of_bytes_eq b.value c.value f,
      bytes_eq_refl c.value,
    )
