-- ===== src/Tests/Decimal.antt =====
-- A concrete Decimal: hundred-millionths, rounded down, none below 0.
use Prim.Native.Nat.{◌+◌}
use native.Mathlib.Nat.{mul-le-mul_right}
use routeweiler_python_sdk.Prelude.{
  ℕ, ◌-◌, ◌*◌, ◌/◌, ◌%◌, ◌^◌, ◌≤◌, ◌<◌, ◌≡◌, refl, ltb, arith, if◌then◌else◌,
}
use routeweiler_python_sdk.Prelude.Int.{ℤ, pos, negsuc, pos_part, ◌≤ℤ◌}
use routeweiler_python_sdk.Budgets.Fmv.{Decimals}
use routeweiler_python_sdk.Budgets.Fmv.Charge.{IsOrdered, IsRate}

abbrev pub unit : ℕ
unit = 100_000_000

abbrev pub half_even : ℕ → ℕ
half_even x =
    if ltb (x % unit * 2) unit
    then x / unit
    else if ltb unit (x % unit * 2)
    then x / unit + 1
    else x / unit + x / unit % 2

abbrev pub divide : ℕ → ℕ → ℕ
divide a b = a * unit / b

abbrev pub decimals : Decimals
decimals = record {
  Decimal = ℕ;
  of_int = λ n. pos_part n * unit;
  literal = λ n k. n * unit / 10 ^ k;
  add = λ a b. a + b;
  mul = λ a b. a * b / unit;
  div = divide;
  round_ceiling = λ a. pos ((a + (unit - 1)) / unit);
  round_half_even = λ a. pos (half_even a);
}

of_int_mono : (a b : ℤ) → a ≤ℤ b → pos_part a * unit ≤ pos_part b * unit
of_int_mono (pos a) (pos b) h = omega (arith, h)
of_int_mono (pos a) (negsuc b) h = absurd (omega (arith, h))
of_int_mono (negsuc a) b h = omega arith

mul_mono : (a b c : ℕ) → a ≤ b → a * c / unit ≤ b * c / unit
mul_mono a b c h = let more : a * c ≤ b * c = mul-le-mul_right c h in omega (arith, more)

div_mono : (a b d : ℕ) → a ≤ b → 0 < d → divide a (d * unit) ≤ divide b (d * unit)
div_mono a b d h k = grind arith

zero_div : (d : ℕ) → 0 < d → divide 0 (d * unit) ≡ 0
zero_div d k = grind arith

pub ordered : IsOrdered decimals
ordered = record {
  le = λ (a b : ℕ). a ≤ b;
  of_int_mono = of_int_mono;
  literal_nonneg = λ n k. omega arith;
  add_nonneg = λ a b h k. omega arith;
  mul_mono = λ a b c h k. mul_mono a b c h;
  mul_zero = λ c. grind arith;
  div_mono = div_mono;
  zero_div = zero_div;
  round_ceiling_mono = λ a b h. omega (arith, h);
  round_ceiling_zero = refl;
}

pub fair : (rate : ℕ) → IsRate decimals ordered rate
unfolding ordered
fair rate = omega arith
