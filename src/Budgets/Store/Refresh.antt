-- ===== src/Budgets/Store/Refresh.antt =====
-- src/routeweiler/budgets/local.py: the refresh of the rates of the envelopes. Where a provider raises
-- does not matter: any exception counts as no rate.
use routeweiler_python_sdk.Prelude.{
  ℕ, String, Bool, Option, none, some, List, [], ◌∷◌, ◌&&◌, ltb, filter, if◌then◌else◌,
}
use routeweiler_python_sdk.Normalized.{l402}
use routeweiler_python_sdk.Texts.{Text, text_eq, get}
use routeweiler_python_sdk.Budgets.Schema.{Currency, is_active, Envelope}
use routeweiler_python_sdk.Budgets.Errors.{Action, pure, gets, ◌>>=◌}
use routeweiler_python_sdk.Budgets.Receipts.{Ed25519}
use routeweiler_python_sdk.Budgets.Fmv.{Decimals, iso, rate_key}
use routeweiler_python_sdk.Budgets.Fmv.Capture.{or_empty, capture_fmv_snapshot}
use routeweiler_python_sdk.Budgets.Store.{
  Fetched, fetched, known_fiats, Rates, Store, load_fmv_snapshot_sync, upsert_snapshot_sync,
  sats_key,
}
use routeweiler_python_sdk.Routing.{mem_rail}

module _ (ed : Ed25519) (dec : Decimals) where
  open dec use {Decimal}

  -- What a call gives, or else the rate of the snapshot before.
  abbrev pub carried : Fetched Decimal → Option Decimal → Option Decimal
  carried (fetched rate) prior = some rate
  carried _ prior = prior

  abbrev pub with_sats : String → Currency → Option Decimal → Action (Store ed dec) Unit
  with_sats i cur none = pure tt
  with_sats i cur (some rate) =
      let sats_rates = (sats_key ed dec cur, rate) ∷ [] in
      upsert_snapshot_sync ed dec i (capture_fmv_snapshot dec cur (some sats_rates) none)

  -- `_refresh_sats_leg`
  unfoldable pub refresh_sats_leg :
      (Currency → Fetched Decimal) → String → Currency → Action (Store ed dec) Unit
  unfolding get upsert_snapshot_sync load_fmv_snapshot_sync
  refresh_sats_leg fetch_btc_to i cur = do
    prior ← gets (load_fmv_snapshot_sync ed dec i)
    with_sats i cur (carried (fetch_btc_to cur) (get (sats_key ed dec cur) (or_empty dec prior)))

  abbrev pub add_carried : Text → Option Decimal → Rates ed dec → Rates ed dec
  add_carried key none rates = rates
  add_carried key (some rate) rates = (key, rate) ∷ rates

  unfoldable pub carried_rates :
      (Text → Text → Fetched Decimal) → Text → Rates ed dec → List Text → Rates ed dec
  unfolding get text_eq
  carried_rates fetch_rate cur prior [] = []
  carried_rates fetch_rate cur prior (src ∷ more) =
      let key = rate_key src cur in
      let rest = carried_rates fetch_rate cur prior more in
      if text_eq src cur
      then rest
      else add_carried key (carried (fetch_rate src cur) (get key prior)) rest

  -- `_refresh_ecb_legs`
  unfoldable pub refresh_ecb_legs :
      (Text → Text → Fetched Decimal) → String → Currency → Action (Store ed dec) Unit
  unfolding carried_rates upsert_snapshot_sync load_fmv_snapshot_sync
  refresh_ecb_legs fetch_rate i cur = do
    prior ← gets (load_fmv_snapshot_sync ed dec i)
    let cross_rates = carried_rates fetch_rate (iso cur) (or_empty dec prior) known_fiats
    upsert_snapshot_sync ed dec i (capture_fmv_snapshot dec cur none (some cross_rates))

  -- The loop over the selected rows; an exception is logged and the row skipped.
  unfoldable pub for_rows :
      (String → Currency → Action (Store ed dec) Unit) → List Envelope → Store ed dec → Store ed dec
  for_rows refresh [] s = s
  for_rows refresh (row ∷ rows) s = for_rows refresh rows (refresh row.id row.cap_currency s).1

  abbrev pub is_live : ℕ → Envelope → Bool
  is_live now e = is_active e.status && ltb now e.expires_at

  -- `_refresh_all_btc_snapshots`
  unfoldable pub refresh_all_btc_snapshots :
      (Currency → Fetched Decimal) → ℕ → Store ed dec → Store ed dec
  unfolding for_rows refresh_sats_leg
  refresh_all_btc_snapshots fetch_btc_to now s =
      let rows = filter (λ e. is_live now e && mem_rail l402 e.allowed_rails) s.db.envelopes in
      for_rows (refresh_sats_leg fetch_btc_to) rows s

  -- `_refresh_all_ecb_snapshots`
  unfoldable pub refresh_all_ecb_snapshots :
      (Text → Text → Fetched Decimal) → ℕ → Store ed dec → Store ed dec
  unfolding for_rows refresh_ecb_legs
  refresh_all_ecb_snapshots fetch_rate now s =
      for_rows (refresh_ecb_legs fetch_rate) (filter (is_live now) s.db.envelopes) s
