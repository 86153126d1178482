-- ===== src/Bytes/Hex.antt =====
-- `bytes.hex`, `bytes.fromhex` and the methods of str around them, on the codes of ASCII texts.
use routeweiler_python_sdk.Prelude.{
  ℕ, zero, suc, ◌+◌, ◌-◌, ◌*◌, ◌/◌, ◌%◌, ◌<◌, ◌≡◌, refl, ap, inl, inr, Bool-cases, Bool, false,
  Option, none, some, List, [], ◌∷◌, ◌++◌, ◌&&◌, ◌||◌, ltb, leb, ◌==◌, length, All, arith,
  if◌then◌else◌,
}
use routeweiler_python_sdk.Bytes.{Bytes, IsByte}

abbrev pub hex_digit : ℕ → ℕ
hex_digit n = if ltb n 10 then b'0' + n else b'a' + (n - 10)

-- `bs.hex()`
unfoldable pub hex : Bytes → List ℕ
hex [] = []
hex (b ∷ bs) = hex_digit (b / 16) ∷ hex_digit (b % 16) ∷ hex bs

abbrev pub digit_value : ℕ → Option ℕ
digit_value c =
    if leb b'0' c && leb c b'9'
    then some (c - b'0')
    else if leb b'a' c && leb c b'f'
    then some (c - b'a' + 10)
    else if leb b'A' c && leb c b'F'
    then some (c - b'A' + 10)
    else none

abbrev pub is_space : ℕ → Bool
is_space c = c == b' ' || (leb 9 c && leb c 13)

abbrev pub join_digits : Option ℕ → Option ℕ → Option Bytes → Option Bytes
join_digits (some hi) (some lo) (some bs) = some ((hi * 16 + lo) ∷ bs)
join_digits _ _ _ = none

-- `bytes.fromhex(s)`: pairs of digits, with spaces between pairs.
unfoldable pub fromhex : List ℕ → Option Bytes
fromhex [] = some []
fromhex (c ∷ []) = if is_space c then some [] else none
fromhex (c ∷ d ∷ rest) =
    let later = fromhex (d ∷ rest) in
    let paired = join_digits (digit_value c) (digit_value d) (fromhex rest) in
    if is_space c then later else paired

-- `s.removeprefix("0x")`
unfoldable pub remove_0x : List ℕ → List ℕ
remove_0x [] = []
remove_0x (c ∷ []) = c ∷ []
remove_0x (c ∷ d ∷ rest) = if c == b'0' && d == b'x' then rest else c ∷ d ∷ rest

unfoldable pub repeat : ℕ → ℕ → List ℕ
repeat zero c = []
repeat (suc n) c = c ∷ repeat n c

-- `s.zfill(n)`: the zeros stand behind a sign.
unfoldable pub zfill : ℕ → List ℕ → List ℕ
unfolding repeat
zfill n [] = repeat n b'0'
zfill n (c ∷ s) =
    let pad = repeat (n - suc (length s)) b'0' in
    if c == b'+' || c == b'-' then c ∷ (pad ++ s) else pad ++ c ∷ s

pub hex_digit_value : (n : ℕ) → n < 16 → digit_value (hex_digit n) ≡ some n
hex_digit_value n h = ground (arith, h)

hex_digit_space : (n : ℕ) → n < 16 → is_space (hex_digit n) ≡ false
hex_digit_space n h = ground (arith, h)

-- What `hex` writes, `fromhex` reads.
pub fromhex-hex : (bs : Bytes) → All IsByte bs → fromhex (hex bs) ≡ some bs
unfolding fromhex hex
fromhex-hex [] h = refl
fromhex-hex (b ∷ bs) h =
    rw
      (
        hex_digit_space (b / 16) (omega (arith, h.0)),
        hex_digit_value (b / 16) (omega (arith, h.0)),
        hex_digit_value (b % 16) (omega arith),
        fromhex-hex bs h.1,
      )
      (ap (λ (v : ℕ). some (v ∷ bs)) (omega arith))

digit_value-lt : (c n : ℕ) → digit_value c ≡ some n → n < 16
digit_value-lt c n h = ground (arith, h)

join_digits-IsByte :
    (a b : Option ℕ) (rest : Option Bytes) {bs : Bytes}
    → ((n : ℕ) → a ≡ some n → n < 16)
    → ((n : ℕ) → b ≡ some n → n < 16)
    → ((cs : Bytes) → rest ≡ some cs → All IsByte cs)
    → join_digits a b rest ≡ some bs
    → All IsByte bs
join_digits-IsByte none b rest ha hb hr h = cc
join_digits-IsByte (some hi) none rest ha hb hr h = cc
join_digits-IsByte (some hi) (some lo) none ha hb hr h = cc
join_digits-IsByte (some hi) (some lo) (some cs) {bs} ha hb hr h =
    let same : (hi * 16 + lo) ∷ cs ≡ bs = cc in
    rw (← same) (omega (arith, ha hi refl, hb lo refl), hr cs refl)

-- What `fromhex` returns are bytes.
pub fromhex-IsByte : (s : List ℕ) {bs : Bytes} → fromhex s ≡ some bs → All IsByte bs
unfolding fromhex
fromhex-IsByte [] {bs} h = let same : [] ≡ bs = cc in rw (← same) tt
fromhex-IsByte (c ∷ []) {bs} h = elim (Bool-cases (is_space c)) [
  | inl space ↦ let same : [] ≡ bs = ground (arith, h, space) in rw (← same) tt
  | inr other ↦ ground (arith, h, other)
]
fromhex-IsByte (c ∷ d ∷ rest) h = elim (Bool-cases (is_space c)) [
  | inl space ↦ fromhex-IsByte (d ∷ rest) (rw space at h)
  | inr other ↦
      join_digits-IsByte (digit_value c) (digit_value d) (fromhex rest) (digit_value-lt c)
        (digit_value-lt d) (λ cs. fromhex-IsByte rest) (rw other at h)
]
