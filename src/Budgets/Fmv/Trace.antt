-- ===== src/Budgets/Fmv/Trace.antt =====
-- src/routeweiler/budgets/fmv.py: what a trace event records. It has no buffer and rounds half to even.
use routeweiler_python_sdk.Prelude.{ℕ, Option, none, some, if◌then◌else◌}
use routeweiler_python_sdk.Prelude.Int.{ℤ, pos}
use routeweiler_python_sdk.Texts.{Text, codes, text_eq, remove_suffix, get}
use routeweiler_python_sdk.Budgets.Schema.{Currency}
use routeweiler_python_sdk.Budgets.Fmv.{
  Decimals, Rates, FmvQuality, stablecoin_peg, fx_leg, coingecko_simple, unavailable, iso,
  minor_per_major, stablecoin, is_bitcoin, rate_key, snapshot_rate, resolve_rate, major,
}

module _ (dec : Decimals) where
  open dec use {Decimal, of_int, mul, round_half_even}

  abbrev pub rounded : FmvQuality → Option Decimal → Option ℤ × FmvQuality
  rounded quality none = (none, unavailable)
  rounded quality (some d) = (some (round_half_even d), quality)

  abbrev pub scaled : Decimal → Option Decimal → Option Decimal
  scaled amount none = none
  scaled amount (some rate) = some (mul amount rate)

  abbrev pub scaled_by : Decimal → Option Decimal → ℕ → Option Decimal
  scaled_by amount none mpm = none
  scaled_by amount (some rate) mpm = some (mul (mul amount rate) (of_int (pos mpm)))

  -- The branch of `fmv_for_trace` for bitcoin.
  unfoldable pub trace_sats : Text → ℤ → Currency → Option (Rates dec) → Option ℤ × FmvQuality
  unfolding is_bitcoin get
  trace_sats rail amount cur rates =
      let rate = snapshot_rate dec (rate_key (codes "sats") (iso cur)) rates in
      let priced =
        rounded coingecko_simple (scaled_by (of_int amount) rate (minor_per_major cur)) in
      if is_bitcoin rail then priced else (none, unavailable)

  abbrev pub or_sats : Option Decimal → Option ℤ × FmvQuality → Option ℤ × FmvQuality
  or_sats none other = other
  or_sats (some d) other = (some (round_half_even d), fx_leg)

  -- The branch for stablecoins, which falls through to that for bitcoin where the snapshot has no rate.
  unfoldable pub trace_stablecoin :
      Text → Text → ℕ → ℤ → Currency → Option (Rates dec) → Option ℤ × FmvQuality
  unfolding trace_sats text_eq get
  trace_stablecoin rail peg decimals amount cur rates =
      let worth = mul (major dec amount decimals) (of_int (pos (minor_per_major cur))) in
      let rate = snapshot_rate dec (rate_key peg (iso cur)) rates in
      let cross = scaled_by (major dec amount decimals) rate (minor_per_major cur) in
      if text_eq peg (iso cur)
      then (some (round_half_even worth), stablecoin_peg)
      else or_sats cross (trace_sats rail amount cur rates)

  unfoldable pub trace_fiat : Text → ℤ → Currency → Option (Rates dec) → Option ℤ × FmvQuality
  unfolding resolve_rate text_eq
  trace_fiat src amount cur rates =
      if text_eq src (iso cur)
      then (some amount, stablecoin_peg)
      else rounded fx_leg (scaled (of_int amount) (resolve_rate dec src (iso cur) rates))

  -- `fmv_for_trace`
  unfoldable pub fmv_for_trace : Text → ℤ → Currency → Option (Rates dec) → Option ℤ × FmvQuality
  unfolding trace_fiat trace_stablecoin trace_sats stablecoin remove_suffix
  fmv_for_trace rail amount cur rates = elim (remove_suffix (codes "-fiat") rail) [
    | some src ↦ trace_fiat src amount cur rates
    | none ↦ elim (stablecoin rail) [
      | some (peg, decimals) ↦ trace_stablecoin rail peg decimals amount cur rates
      | none ↦ trace_sats rail amount cur rates
    ]
  ]
