-- ===== src/Budgets/Fmv/Charge.antt =====
-- What the conversion charges: more for more, and nothing below 0.
use routeweiler_python_sdk.Prelude.{
  ℕ, ◌^◌, ◌<◌, ◌≡◌, refl, Bool, true, false, Option, none, some, List, [], ◌∷◌, All, arith,
  Option-cases, Bool-cases, inl, inr, ◌&&◌, if◌then◌else◌,
}
use routeweiler_python_sdk.Prelude.Int.{ℤ, pos, ◌≤ℤ◌}
use routeweiler_python_sdk.Texts.{Text, codes, text_eq, remove_suffix, get, lower}
use routeweiler_python_sdk.Budgets.Schema.{Currency}
use routeweiler_python_sdk.Budgets.Fmv.{
  Decimals, Rates, FmvQuality, stablecoin_peg, fx_leg, coingecko_simple, iso, minor_per_major,
  stablecoin, is_bitcoin, rate_key, ecb_offline_fallback, fallback_in, ecb_rate, or_rate,
  snapshot_rate, resolve_rate, apply_rate_with_buffer, major, converted, peg_minor_units, from_fiat,
  from_stablecoin, from_sats, amount_to_envelope_minor_units,
}
use routeweiler_python_sdk.Budgets.Fmv.Peg.{pow_pos, peg_minor_units-mono}

-- What the conversion relies on of Decimal: rounding to the context's precision keeps the order.
pub record IsOrdered (dec : Decimals) : Type 1 where
  pub le : dec.Decimal → dec.Decimal → Type 0
  pub of_int_mono : (a b : ℤ) → a ≤ℤ b → le (dec.of_int a) (dec.of_int b)
  pub literal_nonneg : (n k : ℕ) → le (dec.of_int (pos 0)) (dec.literal n k)
  pub add_nonneg :
      (a b : dec.Decimal)
      → le (dec.of_int (pos 0)) a
      → le (dec.of_int (pos 0)) b
      → le (dec.of_int (pos 0)) (dec.add a b)
  pub mul_mono :
      (a b c : dec.Decimal) → le a b → le (dec.of_int (pos 0)) c → le (dec.mul a c) (dec.mul b c)
  pub mul_zero : (c : dec.Decimal) → dec.mul (dec.of_int (pos 0)) c ≡ dec.of_int (pos 0)
  pub div_mono :
      (a b : dec.Decimal) (d : ℕ)
      → le a b
      → 0 < d
      → le (dec.div a (dec.of_int (pos d))) (dec.div b (dec.of_int (pos d)))
  pub zero_div :
      (d : ℕ) → 0 < d → dec.div (dec.of_int (pos 0)) (dec.of_int (pos d)) ≡ dec.of_int (pos 0)
  pub round_ceiling_mono : (a b : dec.Decimal) → le a b → dec.round_ceiling a ≤ℤ dec.round_ceiling b
  pub round_ceiling_zero : dec.round_ceiling (dec.of_int (pos 0)) ≡ pos 0

-- Two conversions both raise, or both return an amount of the same quality, the first not above the second.
abbrev pub Below : Option (ℤ × FmvQuality) → Option (ℤ × FmvQuality) → Type 0
Below none none = Unit {0}
Below (some (q, k)) (some (r, l)) = (q ≤ℤ r) × (k ≡ l)
Below _ _ = ⊥

if-Below :
    (t : Bool) (x x' y y' : Option (ℤ × FmvQuality))
    → Below x x'
    → Below y y'
    → Below (if t then x else y) (if t then x' else y')
if-Below true x x' y y' h k = h
if-Below false x x' y y' h k = k

module _ (dec : Decimals) (ord : IsOrdered dec) where
  open dec use {Decimal, of_int, literal, add, mul, div, round_ceiling}

  abbrev pub IsRate : Decimal → Type 0
  IsRate d = ord.le (of_int (pos 0)) d

  abbrev pub IsRateOr : Option Decimal → Type 0
  IsRateOr none = Unit {0}
  IsRateOr (some d) = IsRate d

  -- A snapshot without negative rates.
  abbrev pub HasRates : Option (Rates dec) → Type 0
  HasRates none = Unit {0}
  HasRates (some rates) = All (λ p. IsRate p.1) rates

  get-IsRate : (k : Text) (rates : Rates dec) → All (λ p. IsRate p.1) rates → IsRateOr (get k rates)
  unfolding get
  get-IsRate k [] h = tt
  get-IsRate k ((j, d) ∷ rates) h = elim (Bool-cases (text_eq j k)) [
    | inl e ↦ rw e h.0
    | inr e ↦ rw e (get-IsRate k rates h.1)
  ]

  fallback_in-IsRate :
      (s d : Text) (table : List ((Text × Text) × Decimal))
      → All (λ p. IsRate p.1) table
      → IsRateOr (fallback_in dec s d table)
  unfolding fallback_in
  fallback_in-IsRate s d [] h = tt
  fallback_in-IsRate s d (((i, j), r) ∷ table) h = elim (Bool-cases (text_eq i s && text_eq j d)) [
    | inl e ↦ rw e h.0
    | inr e ↦ rw e (fallback_in-IsRate s d table h.1)
  ]

  ecb_offline_fallback-IsRate : All (λ p. IsRate p.1) (ecb_offline_fallback dec)
  unfolding ecb_offline_fallback
  ecb_offline_fallback-IsRate =
      let l = ord.literal_nonneg in
      (l 92 2, (l 1087 3, (l 79 2, (l 1266 3, (l 1535 1, (l 652 5, (l 858 3, (l 1166 3, tt))))))))

  ecb_rate-IsRate : (s d : Text) → IsRateOr (ecb_rate dec s d)
  unfolding ecb_rate
  ecb_rate-IsRate s d = elim (Bool-cases (text_eq s d)) [
    | inl e ↦ rw e (ord.literal_nonneg 1 0)
    | inr e ↦ rw e (
        fallback_in-IsRate (lower s) (lower d) (ecb_offline_fallback dec)
          ecb_offline_fallback-IsRate)
  ]

  or_rate-IsRate : (a b : Option Decimal) → IsRateOr a → IsRateOr b → IsRateOr (or_rate dec a b)
  or_rate-IsRate none b h k = k
  or_rate-IsRate (some a) b h k = h

  snapshot_rate-IsRate :
      (key : Text) (rates : Option (Rates dec))
      → HasRates rates
      → IsRateOr (snapshot_rate dec key rates)
  snapshot_rate-IsRate key none h = tt
  snapshot_rate-IsRate key (some rates) h = get-IsRate key rates h

  resolve_rate-IsRate :
      (s d : Text) (rates : Option (Rates dec))
      → HasRates rates
      → IsRateOr (resolve_rate dec s d rates)
  unfolding resolve_rate
  resolve_rate-IsRate s d rates h =
      or_rate-IsRate (snapshot_rate dec (rate_key s d) rates) (ecb_rate dec s d)
        (snapshot_rate-IsRate (rate_key s d) rates h) (ecb_rate-IsRate s d)

  apply_rate_with_buffer-mono :
      (a b rate : Decimal) (mpm : ℕ)
      → ord.le a b
      → IsRate rate
      → apply_rate_with_buffer dec a rate mpm ≤ℤ apply_rate_with_buffer dec b rate mpm
  unfolding apply_rate_with_buffer
  apply_rate_with_buffer-mono a b rate mpm h r =
      let buffer = add (literal 1 0) (literal 5 2) in
      let buffer-IsRate =
        ord.add_nonneg (literal 1 0) (literal 5 2) (ord.literal_nonneg 1 0)
          (ord.literal_nonneg 5 2) in
      let rated = ord.mul_mono a b rate h r in
      let buffered = ord.mul_mono (mul a rate) (mul b rate) buffer rated buffer-IsRate in
      ord.round_ceiling_mono _ _ (
        ord.mul_mono (mul (mul a rate) buffer) (mul (mul b rate) buffer) (of_int (pos mpm)) buffered
          (ord.of_int_mono (pos 0) (pos mpm) (omega arith)))

  converted-Below :
      (quality : FmvQuality) (a b : Decimal) (mpm : ℕ) (rate : Option Decimal)
      → ord.le a b
      → IsRateOr rate
      → Below (converted dec quality a mpm rate) (converted dec quality b mpm rate)
  converted-Below quality a b mpm none h r = tt
  converted-Below quality a b mpm (some rate) h r =
      (apply_rate_with_buffer-mono a b rate mpm h r, refl)

  module _ (a b : ℤ) (le : a ≤ℤ b) (cur : Currency) (rates : Option (Rates dec))
      (fair : HasRates rates) where
    from_fiat-Below :
        (src : Text) → Below (from_fiat dec src a cur rates) (from_fiat dec src b cur rates)
    unfolding from_fiat
    from_fiat-Below src =
        if-Below (text_eq src (iso cur)) (some (a, stablecoin_peg)) (some (b, stablecoin_peg)) _ _
          (le, refl)
          (converted-Below fx_leg (of_int a) (of_int b) 1 (resolve_rate dec src (iso cur) rates)
            (ord.of_int_mono a b le) (resolve_rate-IsRate src (iso cur) rates fair))

    from_stablecoin-Below :
        (peg : Text) (decimals : ℕ)
        → Below
            (from_stablecoin dec peg decimals a cur rates)
            (from_stablecoin dec peg decimals b cur rates)
    unfolding from_stablecoin
    from_stablecoin-Below peg decimals =
        if-Below (text_eq peg (iso cur))
          (some (peg_minor_units a (minor_per_major cur) (10 ^ decimals), stablecoin_peg))
          (some (peg_minor_units b (minor_per_major cur) (10 ^ decimals), stablecoin_peg)) _ _
          (peg_minor_units-mono a b (minor_per_major cur) decimals le, refl)
          (converted-Below fx_leg (major dec a decimals) (major dec b decimals)
            (minor_per_major cur) (resolve_rate dec peg (iso cur) rates)
            (ord.div_mono (of_int a) (of_int b) (10 ^ decimals) (ord.of_int_mono a b le)
              (pow_pos decimals))
            (resolve_rate-IsRate peg (iso cur) rates fair))

    from_sats-Below :
        (rail : Text) → Below (from_sats dec rail a cur rates) (from_sats dec rail b cur rates)
    unfolding from_sats
    from_sats-Below rail =
        if-Below (is_bitcoin rail) _ _ none none
          (converted-Below coingecko_simple (of_int a) (of_int b) (minor_per_major cur)
            (resolve_rate dec (codes "sats") (iso cur) rates) (ord.of_int_mono a b le)
            (resolve_rate-IsRate (codes "sats") (iso cur) rates fair))
          tt

    -- With a snapshot that has no negative rate, of two amounts of one rail currency the larger is
    -- charged no less and at the same quality, or the conversion raises for both.
    pub amount_to_envelope_minor_units_mono :
        (rail : Text)
        → Below
            (amount_to_envelope_minor_units dec rail a cur rates)
            (amount_to_envelope_minor_units dec rail b cur rates)
    unfolding amount_to_envelope_minor_units
    amount_to_envelope_minor_units_mono rail =
        elim (Option-cases (remove_suffix (codes "-fiat") rail)) [
          | inr (src, fiat) ↦ rw (fiat, amount_to_envelope_minor_units) (from_fiat-Below src)
          | inl other ↦ elim (Option-cases (stablecoin rail)) [
            | inr ((peg, decimals), coin) ↦
                rw (other, amount_to_envelope_minor_units)
                  (rw coin (from_stablecoin-Below peg decimals))
            | inl unknown ↦
                rw (other, amount_to_envelope_minor_units) (rw unknown (from_sats-Below rail))
          ]
        ]
