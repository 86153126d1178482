-- ===== src/Budgets/Store/Rates.antt =====
-- What a refresh leaves of the rates of an envelope.
use routeweiler_python_sdk.Prelude.{
  ◌≡◌, refl, String, true, Option, none, some, List, [], ◌∷◌, not, filter, str_eq, eq_refl, inl,
  inr, Bool-cases,
}
use routeweiler_python_sdk.Prelude.Int.{ℤ}
use routeweiler_python_sdk.Texts.{Text, codes, text_eq, get, remove_suffix}
use routeweiler_python_sdk.Budgets.Schema.{Currency, usd, eur, gbp, jpy}
use routeweiler_python_sdk.Budgets.Errors.{ok}
use routeweiler_python_sdk.Budgets.Receipts.{Ed25519}
use routeweiler_python_sdk.Budgets.Fmv.{
  Decimals, iso, rate_key, stablecoin, is_bitcoin, ecb_rate, resolve_rate, from_sats,
  amount_to_envelope_minor_units,
}
use routeweiler_python_sdk.Budgets.Fmv.Capture.{or_empty, capture_fmv_snapshot}
use routeweiler_python_sdk.Budgets.Store.{
  Fetched, known_fiats, Rates, Store, load_fmv_snapshot_sync, upsert_snapshot_sync,
  envelope_exists_sync, sats_key,
}
use routeweiler_python_sdk.Budgets.Store.Refresh.{
  carried, carried_rates, refresh_sats_leg, refresh_ecb_legs,
}

module _ (dec : Decimals) where
  open dec use {Decimal}

  -- A snapshot that is captured without sats rates has none.
  capture-no-sats :
      (cur : Currency) (cross : Option (List (Text × Decimal)))
      → get (rate_key (codes "sats") (iso cur)) (capture_fmv_snapshot dec cur none cross) ≡ none
  unfolding get capture_fmv_snapshot
  capture-no-sats usd cross = refl
  capture-no-sats eur cross = refl
  capture-no-sats gbp cross = refl
  capture-no-sats jpy cross = refl

  no-offline-sats : (cur : Currency) → ecb_rate dec (codes "sats") (iso cur) ≡ none
  unfolding ecb_rate text_eq
  no-offline-sats usd = refl
  no-offline-sats eur = refl
  no-offline-sats gbp = refl
  no-offline-sats jpy = refl

  no-sats-rate :
      (cur : Currency) (cross : Option (List (Text × Decimal)))
      → resolve_rate dec (codes "sats") (iso cur) (some (capture_fmv_snapshot dec cur none cross))
        ≡ none
  unfolding resolve_rate
  no-sats-rate cur cross = rw (capture-no-sats cur cross) (no-offline-sats cur)

  bitcoin-raises :
      (rail : Text) (amount : ℤ) (cur : Currency) (cross : Option (List (Text × Decimal)))
      → remove_suffix (codes "-fiat") rail ≡ none
      → stablecoin rail ≡ none
      → amount_to_envelope_minor_units dec rail amount cur
          (some (capture_fmv_snapshot dec cur none cross))
        ≡ none
  unfolding amount_to_envelope_minor_units from_sats
  bitcoin-raises rail amount cur cross h k =
      rw (h, amount_to_envelope_minor_units)
        (rw k (elim (Bool-cases (is_bitcoin rail)) [
          | inl e ↦ rw (e, no-sats-rate cur cross) refl
          | inr e ↦ rw e refl
        ]))

  -- With sats rates alone the pairs of fiat currencies have the offline rates.
  capture-offline :
      (cur : Currency) (rate : Decimal) (src : Currency)
      → resolve_rate dec (iso src) (iso cur) (
          some (
            capture_fmv_snapshot dec cur
              (some ((rate_key (codes "sats") (iso cur), rate) ∷ []))
              none))
        ≡ ecb_rate dec (iso src) (iso cur)
  unfolding resolve_rate capture_fmv_snapshot get ecb_rate text_eq
  capture-offline usd rate usd = refl
  capture-offline usd rate eur = refl
  capture-offline usd rate gbp = refl
  capture-offline usd rate jpy = refl
  capture-offline eur rate usd = refl
  capture-offline eur rate eur = refl
  capture-offline eur rate gbp = refl
  capture-offline eur rate jpy = refl
  capture-offline gbp rate usd = refl
  capture-offline gbp rate eur = refl
  capture-offline gbp rate gbp = refl
  capture-offline gbp rate jpy = refl
  capture-offline jpy rate usd = refl
  capture-offline jpy rate eur = refl
  capture-offline jpy rate gbp = refl
  capture-offline jpy rate jpy = refl

  capture-sats :
      (cur : Currency) (rate : Decimal)
      → resolve_rate dec (codes "sats") (iso cur) (
          some (
            capture_fmv_snapshot dec cur
              (some ((rate_key (codes "sats") (iso cur), rate) ∷ []))
              none))
        ≡ some rate
  unfolding resolve_rate capture_fmv_snapshot get text_eq
  capture-sats usd rate = refl
  capture-sats eur rate = refl
  capture-sats gbp rate = refl
  capture-sats jpy rate = refl

module _ (ed : Ed25519) (dec : Decimals) where
  open dec use {Decimal}

  -- What an upsert does to the snapshots.
  upsert_snapshot_sync_lem :
      (i : String) (rates : Rates ed dec) (s : Store ed dec)
      → envelope_exists_sync ed dec i s ≡ true
      → (s' : Store ed dec) × (upsert_snapshot_sync ed dec i rates s ≡ (ok tt, s'))
        × (load_fmv_snapshot_sync ed dec i s' ≡ some rates)
  unfolding upsert_snapshot_sync envelope_exists_sync load_fmv_snapshot_sync
  upsert_snapshot_sync_lem i rates s h = (
    record s { snapshots = (i, rates) ∷ filter (λ p. not (str_eq p.0 i)) s.snapshots },
    rw h refl,
    rw (eq_refl i) refl,
  )

  -- A refresh of the ECB rates of an envelope that exists always succeeds, and drops the sats rate of the
  -- snapshot: afterwards the conversion of every rail currency that is neither fiat nor a registered
  -- stablecoin raises FmvUnavailableError, bitcoin included, whatever the snapshot held before.
  pub refresh_ecb_legs-drops-sats :
      (fetch_rate : Text → Text → Fetched Decimal) (i : String) (cur : Currency) (s : Store ed dec)
      → envelope_exists_sync ed dec i s ≡ true
      → (s' : Store ed dec) × (refresh_ecb_legs ed dec fetch_rate i cur s ≡ (ok tt, s'))
        × ((rail : Text) (amount : ℤ)
            → remove_suffix (codes "-fiat") rail ≡ none
            → stablecoin rail ≡ none
            → amount_to_envelope_minor_units dec rail amount cur
                (load_fmv_snapshot_sync ed dec i s')
              ≡ none)
  unfolding refresh_ecb_legs
  refresh_ecb_legs-drops-sats fetch_rate i cur s h =
      let cross = some (
        carried_rates ed dec fetch_rate (iso cur) (or_empty dec (load_fmv_snapshot_sync ed dec i s))
          known_fiats) in
      let (s', ran, loaded) =
        upsert_snapshot_sync_lem i (capture_fmv_snapshot dec cur none cross) s h in
      (
        s',
        ran,
        λ rail amount fiat coin. rw loaded (bitcoin-raises dec rail amount cur cross fiat coin),
      )

  -- A refresh of the sats rate of an envelope that exists, where the provider gives a rate or the snapshot
  -- had one, leaves that rate for sats, and for every pair of fiat currencies the offline rate, whatever
  -- live rates the snapshot held before.
  refresh_sats_leg-offline :
      (fetch_btc_to : Currency → Fetched Decimal) (i : String) (cur : Currency) (s : Store ed dec)
      (rate : Decimal)
      → envelope_exists_sync ed dec i s ≡ true
      → carried ed dec
          (fetch_btc_to cur)
          (get (sats_key ed dec cur) (or_empty dec (load_fmv_snapshot_sync ed dec i s)))
        ≡ some rate
      → (s' : Store ed dec) × (refresh_sats_leg ed dec fetch_btc_to i cur s ≡ (ok tt, s'))
        × (resolve_rate dec (codes "sats") (iso cur) (load_fmv_snapshot_sync ed dec i s')
            ≡ some rate)
        × ((src : Currency)
            → resolve_rate dec (iso src) (iso cur) (load_fmv_snapshot_sync ed dec i s')
              ≡ ecb_rate dec (iso src) (iso cur))
  unfolding refresh_sats_leg
  refresh_sats_leg-offline fetch_btc_to i cur s rate h given =
      let sats_rates = some ((sats_key ed dec cur, rate) ∷ []) in
      let (s', ran, loaded) =
        upsert_snapshot_sync_lem i (capture_fmv_snapshot dec cur sats_rates none) s h in
      (
        s',
        rw given ran,
        rw loaded (capture-sats dec cur rate),
        λ src. rw loaded (capture-offline dec cur rate src),
      )
