-- ===== src/Bytes/Numbers.antt =====
-- The bytes of a number.
use routeweiler_python_sdk.Prelude.{
  ℕ, zero, suc, ◌+◌, ◌*◌, ◌/◌, ◌%◌, ◌^◌, ◌≤◌, ◌<◌, ◌≡◌, refl, inl, inr, Bool, true, [], ◌∷◌, ◌++◌,
  ◌&&◌, ltb, ◌==◌, length, length-append, All, All-append, arith, Bool-cases,
}
use routeweiler_python_sdk.Bytes.{
  Bytes, IsByte, bits_of, bit_length, byte_length, to_bytes, from_bytes,
}

-- More fuel than the number changes nothing.
bits_of_fuel : (n m v : ℕ) → v ≤ n → v ≤ m → bits_of n v ≡ bits_of m v
unfolding bits_of
bits_of_fuel zero zero v h k = refl
bits_of_fuel zero (suc m) v h k = ground arith
bits_of_fuel (suc n) zero v h k = ground arith
bits_of_fuel (suc n) (suc m) v h k = ground (arith, bits_of_fuel n m (v / 2))

bit_length_half : (v : ℕ) → 0 < v → bit_length v ≡ suc (bit_length (v / 2))
unfolding bits_of
bit_length_half zero h = omega (arith, h)
bit_length_half (suc v) h = ground (arith, bits_of_fuel v (suc v / 2) (suc v / 2))

abbrev one_byte : ℕ → Bool
one_byte zero = true
one_byte (suc n) = (byte_length (suc n) == 1) && one_byte n

one_byte_at : (n v : ℕ) → one_byte n ≡ true → 0 < v → v ≤ n → byte_length v ≡ 1
one_byte_at zero v h lo hi = absurd (omega (arith, lo, hi))
one_byte_at (suc n) v h lo hi = elim (Bool-cases (v == suc n)) [
  | inl last ↦ ground (arith, h, last)
  | inr less ↦ one_byte_at n v (ground (arith, h)) lo (ground (arith, less, hi))
]

pub byte_length-zero : byte_length 0 ≡ 0
unfolding byte_length
byte_length-zero = refl

small_byte_length : (v : ℕ) → 0 < v → v < 256 → byte_length v ≡ 1
unfolding byte_length
small_byte_length v lo hi = one_byte_at 255 v refl lo (omega (arith, hi))

-- The length of a number in bits, half by half.
abbrev halves : ℕ → ℕ → ℕ
halves zero v = v
halves (suc n) v = halves n (v / 2)

halves-pos : (n v : ℕ) → 0 < halves n v → 0 < v
halves-pos zero v h = h
halves-pos (suc n) v h = omega (arith, halves-pos n (v / 2) h)

bit_length-halves : (n v : ℕ) → 0 < halves n v → bit_length v ≡ n + 1 + bit_length (halves n v / 2)
bit_length-halves zero v h = omega (arith, bit_length_half v h)
bit_length-halves (suc n) v h =
    omega (arith, bit_length_half v (halves-pos (suc n) v h), bit_length-halves n (v / 2) h)

byte_length_large : (v : ℕ) → 256 ≤ v → byte_length v ≡ suc (byte_length (v / 256))
unfolding byte_length
byte_length_large v h =
    let halved : halves 7 v / 2 ≡ v / 256 = omega arith in
    let wide : bit_length v ≡ 8 + bit_length (v / 256) =
      rw halved at (bit_length-halves 7 v (omega (arith, h))) in
    omega (arith, wide)

-- The last byte and the number before it.
pub byte_length_step : (v : ℕ) → 0 < v → byte_length v ≡ suc (byte_length (v / 256))
byte_length_step v h = elim (Bool-cases (ltb v 256)) [
  | inl small ↦
      let none_before : v / 256 ≡ 0 = ground (arith, small) in
      rw (none_before, byte_length-zero) (small_byte_length v h (ground (arith, small)))
  | inr large ↦ byte_length_large v (ground (arith, large))
]

pub from_bytes-append :
    (acc : ℕ) (xs ys : Bytes) → from_bytes acc (xs ++ ys) ≡ from_bytes (from_bytes acc xs) ys
unfolding from_bytes
from_bytes-append acc [] ys = refl
from_bytes-append acc (x ∷ xs) ys = from_bytes-append (acc * 256 + x) xs ys

pub length-to_bytes : (n v : ℕ) → length (to_bytes n v) ≡ n
unfolding to_bytes
length-to_bytes zero v = refl
length-to_bytes (suc n) v =
    omega (arith, length-append (to_bytes n (v / 256)) (v % 256 ∷ []), length-to_bytes n (v / 256))

pub to_bytes-IsByte : (n v : ℕ) → All IsByte (to_bytes n v)
unfolding to_bytes
to_bytes-IsByte zero v = tt
to_bytes-IsByte (suc n) v =
    All-append IsByte (to_bytes n (v / 256)) (v % 256 ∷ []) (to_bytes-IsByte n (v / 256))
      (omega arith, tt)

-- The number is not too large for n bytes.
abbrev pub Fits : ℕ → ℕ → Type 0
Fits zero v = v ≡ 0
Fits (suc n) v = Fits n (v / 256)

pub from_bytes-to_bytes : (n v : ℕ) → Fits n v → from_bytes 0 (to_bytes n v) ≡ v
unfolding to_bytes from_bytes
from_bytes-to_bytes zero v h = omega (arith, h)
from_bytes-to_bytes (suc n) v h = omega (
  arith,
  from_bytes-append 0 (to_bytes n (v / 256)) (v % 256 ∷ []),
  from_bytes-to_bytes n (v / 256) h,
)

-- The shortest form has room for the number.
Fits-byte_length_fuel : (fuel v : ℕ) → v ≤ fuel → Fits (byte_length v) v
Fits-byte_length_fuel fuel zero h = rw byte_length-zero refl
Fits-byte_length_fuel zero (suc v) h = absurd (omega (arith, h))
Fits-byte_length_fuel (suc fuel) (suc v) h =
    rw (byte_length_step (suc v) (omega arith))
      (Fits-byte_length_fuel fuel (suc v / 256) (omega (arith, h)))

pub Fits-byte_length : (v : ℕ) → Fits (byte_length v) v
Fits-byte_length v = Fits-byte_length_fuel v v (omega arith)

-- A number that fits n bytes takes no more of them.
pub byte_length-le : (n v : ℕ) → Fits n v → byte_length v ≤ n
byte_length-le zero v h = rw h (omega (arith, byte_length-zero))
byte_length-le (suc n) zero h = omega (arith, byte_length-zero)
byte_length-le (suc n) (suc v) h =
    omega (arith, byte_length_step (suc v) (omega arith), byte_length-le n (suc v / 256) h)

pub Fits-word : (v : ℕ) → v < 2 ^ 64 → Fits 8 v
Fits-word v h = omega (arith, h)
