-- ===== src/Budgets/Fmv/Peg.antt =====
-- The exact conversion of a stablecoin into the currency of its peg.
use routeweiler_python_sdk.Prelude.{
  ℕ, zero, suc, ◌+◌, ◌*◌, ◌-◌, ◌^◌, ◌≤◌, ◌<◌, ◌≡◌, refl, Option, none, some, arith,
}
use native.Mathlib.Nat.{mul-le-mul_right}
use routeweiler_python_sdk.Prelude.Int.{ℤ, pos, negsuc, ◌+ℤ◌, ◌≤ℤ◌, +ℤ_parts}
use routeweiler_python_sdk.Texts.{Text, codes, remove_suffix, text_eq_refl}
use routeweiler_python_sdk.Budgets.Schema.{Currency}
use routeweiler_python_sdk.Budgets.Fmv.{
  Decimals, Rates, stablecoin_peg, iso, minor_per_major, stablecoin, ◌*ℕ◌, ◌//◌, peg_minor_units,
  from_stablecoin, amount_to_envelope_minor_units,
}

pub pow_pos : (n : ℕ) → 0 < 10 ^ n
pow_pos zero = omega arith
pow_pos (suc n) = grind (arith, pow_pos n)

-- `//` rounds down.
//-le : (x : ℤ) (d : ℕ) → 0 < d → (x // d) *ℕ d ≤ℤ x
unfolding ◌//◌ ◌*ℕ◌
//-le (pos n) d h = grind arith
//-le (negsuc n) d h = grind arith

lt-// : (x : ℤ) (d : ℕ) → 0 < d → x ≤ℤ (x // d) *ℕ d +ℤ pos (d - 1)
unfolding ◌//◌ ◌*ℕ◌ ◌+ℤ◌
lt-// (pos n) d h = grind arith
lt-// (negsuc n) d h = grind arith

pub //-mono : (x y : ℤ) (d : ℕ) → 0 < d → x ≤ℤ y → x // d ≤ℤ y // d
unfolding ◌//◌
//-mono (pos n) (pos m) d h le = grind arith
//-mono (pos n) (negsuc m) d h le = absurd (omega (arith, le))
//-mono (negsuc n) (pos m) d h le = omega arith
//-mono (negsuc n) (negsuc m) d h le = grind arith

pub *ℕ-mono : (x y : ℤ) (m : ℕ) → x ≤ℤ y → x *ℕ m ≤ℤ y *ℕ m
unfolding ◌*ℕ◌
*ℕ-mono (pos n) (pos k) m le = grind arith
*ℕ-mono (pos n) (negsuc k) m le = absurd (omega (arith, le))
*ℕ-mono (negsuc n) (pos k) m le = grind arith
*ℕ-mono (negsuc n) (negsuc k) m le =
    let more : (k + 1) * m ≤ (n + 1) * m = mul-le-mul_right m (omega (arith, le)) in
    ground (arith, more)

-- More of a stablecoin is never worth less.
pub peg_minor_units-mono :
    (a b : ℤ) (mpm decimals : ℕ)
    → a ≤ℤ b
    → peg_minor_units a mpm (10 ^ decimals) ≤ℤ peg_minor_units b mpm (10 ^ decimals)
unfolding peg_minor_units
peg_minor_units-mono a b mpm decimals h =
    let d = 10 ^ decimals in
    //-mono (a *ℕ mpm +ℤ pos (d - 1)) (b *ℕ mpm +ℤ pos (d - 1)) d (pow_pos decimals) (
      omega (
        arith,
        *ℕ-mono a b mpm h,
        +ℤ_parts (a *ℕ mpm) (pos (d - 1)),
        +ℤ_parts (b *ℕ mpm) (pos (d - 1)),
      ))

peg_minor_units_bounds :
    (a : ℤ) (mpm decimals : ℕ)
    → (a *ℕ mpm ≤ℤ peg_minor_units a mpm (10 ^ decimals) *ℕ (10 ^ decimals))
      × (peg_minor_units a mpm (10 ^ decimals) *ℕ (10 ^ decimals)
          ≤ℤ a *ℕ mpm +ℤ pos (10 ^ decimals - 1))
unfolding peg_minor_units
peg_minor_units_bounds a mpm decimals =
    let d = 10 ^ decimals in
    let x = a *ℕ mpm +ℤ pos (d - 1) in
    let down = //-le x d (pow_pos decimals) in
    (
      omega (
        arith,
        lt-// x d (pow_pos decimals),
        +ℤ_parts (a *ℕ mpm) (pos (d - 1)),
        +ℤ_parts ((x // d) *ℕ d) (pos (d - 1)),
      ),
      down,
    )

module _ (dec : Decimals) where
  -- An amount of a stablecoin in an envelope of the currency of its peg is worth the least number of
  -- minor units that is not below the exact value: times 10 to the decimal places of the token it is at
  -- least the amount times the minor units of a major one, and exceeds that by less than the factor. No
  -- rate and no buffer is used.
  pub amount_to_envelope_minor_units-peg :
      (rail : Text) (amount : ℤ) (cur : Currency) (decimals : ℕ) (rates : Option (Rates dec))
      → remove_suffix (codes "-fiat") rail ≡ none
      → stablecoin rail ≡ some (iso cur, decimals)
      → (q : ℤ) × (amount_to_envelope_minor_units dec rail amount cur rates
          ≡ some (q, stablecoin_peg))
        × (amount *ℕ minor_per_major cur ≤ℤ q *ℕ (10 ^ decimals))
        × (q *ℕ (10 ^ decimals) ≤ℤ amount *ℕ minor_per_major cur +ℤ pos (10 ^ decimals - 1))
  unfolding amount_to_envelope_minor_units from_stablecoin
  amount_to_envelope_minor_units-peg rail amount cur decimals rates other registered =
      let (low, high) = peg_minor_units_bounds amount (minor_per_major cur) decimals in
      (
        peg_minor_units amount (minor_per_major cur) (10 ^ decimals),
        rw (other, amount_to_envelope_minor_units)
            (rw (registered) (rw (text_eq_refl (iso cur)) refl)),
        low,
        high,
      )
