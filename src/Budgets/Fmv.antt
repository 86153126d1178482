-- ===== src/Budgets/Fmv.antt =====
-- src/routeweiler/budgets/fmv.py: amounts of a rail in minor units of an envelope's currency. Python's
-- Decimal is a parameter. `none` is FmvUnavailableError; log messages are left out.
pub mod Trace
pub mod Capture
pub mod Peg
pub mod Charge
pub mod Nonneg
use routeweiler_python_sdk.Prelude.{
  ℕ, ◌+◌, ◌*◌, ◌/◌, ◌-◌, ◌^◌, ◌≤◌, String, Bool, true, false, Option, none, some, List, [], ◌∷◌,
  ◌++◌, ◌&&◌, ◌||◌, if◌then◌else◌,
}
use routeweiler_python_sdk.Prelude.Int.{ℤ, pos, negsuc, sub_ℕ, ◌+ℤ◌, ◌≤ℤ◌}
use routeweiler_python_sdk.Texts.{
  Text, codes, text_eq, remove_suffix, is_in, after_last, lower, get, put,
}
use routeweiler_python_sdk.Assets.{AssetMetadata, assets_by_address}
use routeweiler_python_sdk.Budgets.Schema.{Currency, usd, eur, gbp, jpy}

-- `decimal.Decimal`: `literal n k` is n / 10 ^ k, and the two roundings go to an integer.
pub record Decimals : Type 1 where
  pub Decimal : Type 0
  pub of_int : ℤ → Decimal
  pub literal : ℕ → ℕ → Decimal
  pub add : Decimal → Decimal → Decimal
  pub mul : Decimal → Decimal → Decimal
  pub div : Decimal → Decimal → Decimal
  pub round_ceiling : Decimal → ℤ
  pub round_half_even : Decimal → ℤ

-- `FmvQuality`
pub data FmvQuality : Type 0 where
  stablecoin_peg fx_leg coingecko_simple unavailable : FmvQuality

-- A currency is its ISO code in lower case.
abbrev pub iso : Currency → Text
iso usd = codes "usd"
iso eur = codes "eur"
iso gbp = codes "gbp"
iso jpy = codes "jpy"

-- `MINOR_PER_MAJOR`
abbrev pub minor_per_major : Currency → ℕ
minor_per_major usd = 100
minor_per_major eur = 100
minor_per_major gbp = 100
minor_per_major jpy = 1

-- `STABLECOIN_PEG`
unfoldable pub pegs : List (Text × AssetMetadata) → List (Text × Text)
pegs [] = []
pegs ((addr, meta) ∷ rest) = elim meta.peg_currency [
  | none ↦ pegs rest
  | some peg ↦ (addr, peg) ∷ pegs rest
]

unfoldable pub stablecoin_peg_of : Text → Option Text
unfolding pegs get assets_by_address
stablecoin_peg_of address = get address (pegs assets_by_address)

-- The decimal places of an address, 6 without an entry.
abbrev pub decimals_or_6 : Option AssetMetadata → ℕ
decimals_or_6 none = 6
decimals_or_6 (some meta) = meta.decimals

unfoldable pub decimals_of : Text → ℕ
unfolding get assets_by_address
decimals_of address = decimals_or_6 (get address assets_by_address)

-- `_erc20_address`
unfoldable pub erc20_address : Text → Option Text
unfolding is_in after_last lower
erc20_address caip19 =
    if is_in (codes "/erc20:") caip19
    then some (lower (after_last (codes "/erc20:") caip19))
    else none

-- `_tip20_address`
unfoldable pub tip20_address : Text → Option Text
unfolding remove_suffix lower
tip20_address currency = elim (remove_suffix (codes "-tip20") currency) [
  | none ↦ none
  | some address ↦ some (lower address)
]

-- `a or b`: an empty text counts as nothing.
abbrev pub or_text : Option Text → Option Text → Option Text
or_text (some (c ∷ s)) other = some (c ∷ s)
or_text _ other = other

abbrev pub peg_of_address : Option Text → Option (Text × ℕ)
peg_of_address none = none
peg_of_address (some address) = elim (stablecoin_peg_of address) [
  | none ↦ none
  | some peg ↦ some (peg, decimals_of address)
]

-- The peg currency and the decimal places of a rail currency that is a registered stablecoin.
unfoldable pub stablecoin : Text → Option (Text × ℕ)
unfolding erc20_address tip20_address stablecoin_peg_of decimals_of
stablecoin rail = peg_of_address (or_text (erc20_address rail) (tip20_address rail))

-- `"sats" in rail.lower() or "btc" in rail.lower()`
unfoldable pub is_bitcoin : Text → Bool
unfolding is_in lower
is_bitcoin rail = is_in (codes "sats") (lower rail) || is_in (codes "btc") (lower rail)

-- Python's `//` by a positive number rounds down.
infixl 70 ◌*ℕ◌ ◌//◌
unfoldable pub ◌*ℕ◌ : ℤ → ℕ → ℤ
pos n *ℕ m = pos (n * m)
negsuc n *ℕ m = sub_ℕ 0 ((n + 1) * m)

unfoldable pub ◌//◌ : ℤ → ℕ → ℤ
pos n // d = pos (n / d)
negsuc n // d = negsuc (n / d)

-- `(amount * minor_per_major + divisor - 1) // divisor`
unfoldable pub peg_minor_units : ℤ → ℕ → ℕ → ℤ
unfolding ◌*ℕ◌ ◌//◌ ◌+ℤ◌
peg_minor_units amount mpm divisor = (amount *ℕ mpm +ℤ pos (divisor - 1)) // divisor

abbrev pub rate_key : Text → Text → Text
rate_key src dst = src ++ codes "->" ++ dst

module _ (dec : Decimals) where
  open dec use {Decimal, of_int, literal, add, mul, div, round_ceiling, round_half_even}

  abbrev pub Rates : Type 0
  Rates = List (Text × Decimal)

  -- `_ECB_OFFLINE_FALLBACK`
  unfoldable pub ecb_offline_fallback : List ((Text × Text) × Decimal)
  ecb_offline_fallback =
      ((codes "usd", codes "eur"), literal 92 2)
      ∷ ((codes "eur", codes "usd"), literal 1087 3)
      ∷ ((codes "usd", codes "gbp"), literal 79 2)
      ∷ ((codes "gbp", codes "usd"), literal 1266 3)
      ∷ ((codes "usd", codes "jpy"), literal 1535 1)
      ∷ ((codes "jpy", codes "usd"), literal 652 5)
      ∷ ((codes "eur", codes "gbp"), literal 858 3)
      ∷ ((codes "gbp", codes "eur"), literal 1166 3)
      ∷ []

  unfoldable pub fallback_in : Text → Text → List ((Text × Text) × Decimal) → Option Decimal
  fallback_in src dst [] = none
  fallback_in src dst (((s, d), rate) ∷ rest) =
      if text_eq s src && text_eq d dst then some rate else fallback_in src dst rest

  -- `ecb_rate`
  unfoldable pub ecb_rate : Text → Text → Option Decimal
  unfolding ecb_offline_fallback fallback_in lower
  ecb_rate src dst =
      if text_eq src dst
      then some (literal 1 0)
      else fallback_in (lower src) (lower dst) ecb_offline_fallback

  abbrev pub or_rate : Option Decimal → Option Decimal → Option Decimal
  or_rate (some rate) other = some rate
  or_rate none other = other

  -- `snapshot_rates.get(key)`, of no snapshot nothing.
  abbrev pub snapshot_rate : Text → Option Rates → Option Decimal
  snapshot_rate key none = none
  snapshot_rate key (some rates) = get key rates

  -- `_resolve_rate`
  unfoldable pub resolve_rate : Text → Text → Option Rates → Option Decimal
  unfolding ecb_rate get
  resolve_rate src dst rates = or_rate (snapshot_rate (rate_key src dst) rates) (ecb_rate src dst)

  -- `_apply_rate_with_buffer`, with FMV_BUFFER
  unfoldable pub apply_rate_with_buffer : Decimal → Decimal → ℕ → ℤ
  apply_rate_with_buffer amount_major rate mpm =
      let buffered = mul (mul amount_major rate) (add (literal 1 0) (literal 5 2)) in
      round_ceiling (mul buffered (of_int (pos mpm)))

  -- `Decimal(amount_native) / Decimal(10**decimals)`
  abbrev pub major : ℤ → ℕ → Decimal
  major amount decimals = div (of_int amount) (of_int (pos (10 ^ decimals)))

  abbrev pub converted : FmvQuality → Decimal → ℕ → Option Decimal → Option (ℤ × FmvQuality)
  converted quality amount mpm none = none
  converted quality amount mpm (some rate) = some (apply_rate_with_buffer amount rate mpm, quality)

  -- A rail that quotes in minor units of a currency.
  unfoldable pub from_fiat : Text → ℤ → Currency → Option Rates → Option (ℤ × FmvQuality)
  unfolding resolve_rate apply_rate_with_buffer text_eq
  from_fiat src amount cur rates =
      if text_eq src (iso cur)
      then some (amount, stablecoin_peg)
      else converted fx_leg (of_int amount) 1 (resolve_rate src (iso cur) rates)

  unfoldable pub from_stablecoin : Text → ℕ → ℤ → Currency → Option Rates → Option (ℤ × FmvQuality)
  unfolding resolve_rate apply_rate_with_buffer text_eq peg_minor_units
  from_stablecoin peg decimals amount cur rates =
      if text_eq peg (iso cur)
      then some (peg_minor_units amount (minor_per_major cur) (10 ^ decimals), stablecoin_peg)
      else converted fx_leg (major amount decimals) (minor_per_major cur)
          (resolve_rate peg (iso cur) rates)

  unfoldable pub from_sats : Text → ℤ → Currency → Option Rates → Option (ℤ × FmvQuality)
  unfolding resolve_rate apply_rate_with_buffer is_bitcoin
  from_sats rail amount cur rates =
      if is_bitcoin rail
      then converted coingecko_simple (of_int amount) (minor_per_major cur)
          (resolve_rate (codes "sats") (iso cur) rates)
      else none

  -- `amount_to_envelope_minor_units`
  unfoldable pub amount_to_envelope_minor_units :
      Text → ℤ → Currency → Option Rates → Option (ℤ × FmvQuality)
  unfolding from_fiat from_stablecoin from_sats stablecoin remove_suffix
  amount_to_envelope_minor_units rail amount cur rates = elim (remove_suffix (codes "-fiat") rail) [
    | some src ↦ from_fiat src amount cur rates
    | none ↦ elim (stablecoin rail) [
      | some (peg, decimals) ↦ from_stablecoin peg decimals amount cur rates
      | none ↦ from_sats rail amount cur rates
    ]
  ]
