-- ===== src/Bytes.antt =====
-- The operations of Python's int, bytes and str on bytes that src/routeweiler/rails/ uses. Bytes and
-- texts are lists of numbers.
pub mod Numbers
pub mod Hex
use routeweiler_python_sdk.Prelude.{
  ℕ, zero, suc, ◌+◌, ◌-◌, ◌*◌, ◌/◌, ◌%◌, ◌<◌, Bool, true, false, Option, none, some, List, [], ◌∷◌,
  ◌++◌, ◌&&◌, ◌||◌, ltb, leb, ◌==◌, length, All, if◌then◌else◌,
}

abbrev pub Bytes : Type 0
Bytes = List ℕ

abbrev pub IsByte : ℕ → Type 0
IsByte b = b < 256

-- `bit_length`; the fuel is the number itself.
unfoldable pub bits_of : ℕ → ℕ → ℕ
bits_of zero v = 0
bits_of (suc fuel) v = let rest = bits_of fuel (v / 2) in if v == 0 then 0 else suc rest

abbrev pub bit_length : ℕ → ℕ
bit_length v = bits_of v v

-- `(v.bit_length() + 7) // 8`
unfoldable pub byte_length : ℕ → ℕ
unfolding bits_of
byte_length v = (bit_length v + 7) / 8

-- `v.to_bytes(n, "big")`, of the lowest n bytes.
unfoldable pub to_bytes : ℕ → ℕ → Bytes
to_bytes zero v = []
to_bytes (suc n) v = to_bytes n (v / 256) ++ (v % 256) ∷ []

-- `int.from_bytes(bs, "big")`, with the value so far.
unfoldable pub from_bytes : ℕ → Bytes → ℕ
from_bytes acc [] = acc
from_bytes acc (b ∷ bs) = from_bytes (acc * 256 + b) bs

unfoldable pub zeros : ℕ → Bytes
zeros zero = []
zeros (suc n) = 0 ∷ zeros n
