-- ===== src/Budgets/Fmv/Nonneg.antt =====
-- Nothing costs nothing, and no amount that is not negative is charged below 0.
use routeweiler_python_sdk.Prelude.{
  ℕ, ◌/◌, ◌-◌, ◌^◌, ◌<◌, ◌≡◌, refl, ap, ◌∙◌, Bool, true, false, Option, none, some, arith,
  Option-cases, inl, inr, if◌then◌else◌,
}
use routeweiler_python_sdk.Prelude.Int.{ℤ, pos, pos_part, neg_part, ◌≤ℤ◌, ◌+ℤ◌}
use routeweiler_python_sdk.Texts.{Text, codes, text_eq, remove_suffix}
use routeweiler_python_sdk.Budgets.Schema.{Currency}
use routeweiler_python_sdk.Budgets.Fmv.{
  Decimals, Rates, FmvQuality, stablecoin_peg, fx_leg, coingecko_simple, iso, minor_per_major,
  stablecoin, is_bitcoin, resolve_rate, apply_rate_with_buffer, major, converted, ◌*ℕ◌, ◌//◌,
  peg_minor_units, from_fiat, from_stablecoin, from_sats, amount_to_envelope_minor_units,
}
use routeweiler_python_sdk.Budgets.Fmv.Peg.{pow_pos}
use routeweiler_python_sdk.Budgets.Fmv.Charge.{
  IsOrdered, HasRates, Below, amount_to_envelope_minor_units_mono,
}

abbrev IsFree : Option (ℤ × FmvQuality) → Type 0
IsFree none = Unit {0}
IsFree (some (q, _)) = q ≡ pos 0

if-IsFree :
    (t : Bool) (x y : Option (ℤ × FmvQuality)) → IsFree x → IsFree y → IsFree (if t then x else y)
if-IsFree true x y h k = h
if-IsFree false x y h k = k

small-div : (d : ℕ) → 0 < d → (d - 1) / d ≡ 0
small-div d h = grind arith

add_to_zero : (mpm n : ℕ) → pos 0 *ℕ mpm +ℤ pos n ≡ pos n
unfolding ◌*ℕ◌ ◌+ℤ◌
add_to_zero mpm n = ground arith

peg_minor_units-zero : (mpm decimals : ℕ) → peg_minor_units (pos 0) mpm (10 ^ decimals) ≡ pos 0
unfolding peg_minor_units ◌//◌
peg_minor_units-zero mpm decimals =
    ap (λ x. x // (10 ^ decimals)) (add_to_zero mpm (10 ^ decimals - 1))
    ∙ ap pos (small-div (10 ^ decimals) (pow_pos decimals))

module _ (dec : Decimals) (ord : IsOrdered dec) where
  open dec use {Decimal, of_int, literal, add, mul, div, round_ceiling}

  converted-IsFree :
      (quality : FmvQuality) (a : Decimal) (mpm : ℕ) (rate : Option Decimal)
      → a ≡ of_int (pos 0)
      → IsFree (converted dec quality a mpm rate)
  unfolding apply_rate_with_buffer
  converted-IsFree quality a mpm none h = tt
  converted-IsFree quality a mpm (some rate) h =
      let buffer = add (literal 1 0) (literal 5 2) in
      let unit = of_int (pos mpm) in
      ap (λ (x : Decimal). round_ceiling (mul (mul (mul x rate) buffer) unit)) h
      ∙ ap (λ (x : Decimal). round_ceiling (mul (mul x buffer) unit)) (ord.mul_zero rate)
      ∙ ap (λ (x : Decimal). round_ceiling (mul x unit)) (ord.mul_zero buffer)
      ∙ ap round_ceiling (ord.mul_zero unit)
      ∙ ord.round_ceiling_zero

  module _ (cur : Currency) (rates : Option (Rates dec)) where
    from_stablecoin-IsFree :
        (peg : Text) (decimals : ℕ) → IsFree (from_stablecoin dec peg decimals (pos 0) cur rates)
    unfolding from_stablecoin
    from_stablecoin-IsFree peg decimals =
        if-IsFree (text_eq peg (iso cur)) (some (_, stablecoin_peg)) _
          (peg_minor_units-zero (minor_per_major cur) decimals)
          (converted-IsFree fx_leg (major dec (pos 0) decimals) (minor_per_major cur)
            (resolve_rate dec peg (iso cur) rates)
            (ord.zero_div (10 ^ decimals) (pow_pos decimals)))

    amount_to_envelope_minor_units-IsFree :
        (rail : Text) → IsFree (amount_to_envelope_minor_units dec rail (pos 0) cur rates)
    unfolding amount_to_envelope_minor_units from_fiat from_sats
    amount_to_envelope_minor_units-IsFree rail =
        elim (Option-cases (remove_suffix (codes "-fiat") rail)) [
          | inr (src, fiat) ↦
              rw (fiat, amount_to_envelope_minor_units)
                (if-IsFree (text_eq src (iso cur)) (some (pos 0, stablecoin_peg)) _ refl (
                  converted-IsFree fx_leg (of_int (pos 0)) 1 (resolve_rate dec src (iso cur) rates)
                    refl))
          | inl other ↦ elim (Option-cases (stablecoin rail)) [
            | inr ((peg, decimals), coin) ↦
                rw (other, amount_to_envelope_minor_units)
                  (rw coin (from_stablecoin-IsFree peg decimals))
            | inl unknown ↦
                rw (other, amount_to_envelope_minor_units)
                  (rw unknown (
                    if-IsFree (is_bitcoin rail) _ none
                      (converted-IsFree coingecko_simple (of_int (pos 0)) (minor_per_major cur)
                        (resolve_rate dec (codes "sats") (iso cur) rates) refl)
                      tt))
          ]
        ]

  between :
      (x y : Option (ℤ × FmvQuality)) {q : ℤ} {k : FmvQuality}
      → Below x y
      → IsFree x
      → y ≡ some (q, k)
      → pos 0 ≤ℤ q
  between none none h f e = cc
  between none (some y) h f e = elim h [ ]
  between (some x) none h f e = cc
  between (some (p, _)) (some (r, _)) {q} h f e =
      let same : r ≡ q = cc in rw (← same) (omega (arith, h.0, ap pos_part f, ap neg_part f))

  -- With a snapshot that has no negative rate, an amount that is not negative is never converted to a
  -- negative number of minor units.
  pub amount_to_envelope_minor_units-nonneg :
      (rail : Text) (amount : ℤ) (cur : Currency) (rates : Option (Rates dec)) {q : ℤ}
      {k : FmvQuality}
      → HasRates dec ord rates
      → pos 0 ≤ℤ amount
      → amount_to_envelope_minor_units dec rail amount cur rates ≡ some (q, k)
      → pos 0 ≤ℤ q
  amount_to_envelope_minor_units-nonneg rail amount cur rates fair h e =
      between (amount_to_envelope_minor_units dec rail (pos 0) cur rates)
        (amount_to_envelope_minor_units dec rail amount cur rates)
        (amount_to_envelope_minor_units_mono dec ord (pos 0) amount h cur rates fair rail)
        (amount_to_envelope_minor_units-IsFree cur rates rail) e
