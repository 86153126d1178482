-- ===== src/Tests/Money.antt =====
-- Amounts and rates, and the creation of an envelope: src/routeweiler/budgets/fmv.py and local.py.
use routeweiler_python_sdk.Prelude.{
  ℕ, ◌-◌, ◌^◌, ◌≡◌, refl, String, Bool, true, false, Option, none, some, List, [], ◌∷◌, arith,
}
use routeweiler_python_sdk.Prelude.Int.{ℤ, pos, ◌≤ℤ◌, ◌+ℤ◌}
use routeweiler_python_sdk.Normalized.{l402}
use routeweiler_python_sdk.Texts.{Text, codes, remove_suffix}
use routeweiler_python_sdk.Budgets.Schema.{usd}
use routeweiler_python_sdk.Budgets.Errors.{ok, err, value_error, keystore_already_exists}
use routeweiler_python_sdk.Budgets.Keystore.{load}
use routeweiler_python_sdk.Budgets.Fmv.{
  stablecoin_peg, coingecko_simple, iso, stablecoin, ◌*ℕ◌, amount_to_envelope_minor_units,
}
use routeweiler_python_sdk.Budgets.Fmv.Peg.{amount_to_envelope_minor_units-peg}
use routeweiler_python_sdk.Budgets.Fmv.Nonneg.{amount_to_envelope_minor_units-nonneg}
use routeweiler_python_sdk.Budgets.Fmv.Capture.{capture_fmv_snapshot}
use routeweiler_python_sdk.Budgets.Store.{
  BudgetEnvelope, Fetched, fetched, Providers, Store, load_fmv_snapshot_sync, envelope_exists_sync,
  sats_rates_of, provider_cross, fetch_rates, create_envelope, create_envelope_if_absent,
}
use routeweiler_python_sdk.Budgets.Store.Refresh.{refresh_ecb_legs}
use routeweiler_python_sdk.Budgets.Store.Rates.{refresh_ecb_legs-drops-sats}
use routeweiler_python_sdk.Budgets.Store.Created.{
  with_envelope, create_envelope_lem, create_envelope-orphan,
}
use routeweiler_python_sdk.Budgets.Store.Once.{create_envelope_if_absent-once}
use routeweiler_python_sdk.Tests.{ed, empty, files}
use routeweiler_python_sdk.Tests.Decimal.{decimals, ordered, fair}

abbrev usdc_on_base : Text
usdc_on_base = codes "eip155:8453/erc20:0x833589fCD6eDb6E08f4c7C32D4f71b54bdA02913"

not_fiat : remove_suffix (codes "-fiat") usdc_on_base ≡ none
unfolding remove_suffix
not_fiat = refl

usdc_known : stablecoin usdc_on_base ≡ some (iso usd, 6)
unfolding stablecoin
usdc_known = refl

amount_to_envelope_minor_units-peg_example :
    (q : ℤ) × (amount_to_envelope_minor_units decimals usdc_on_base (pos 12_345) usd none
      ≡ some (q, stablecoin_peg))
    × (pos 12_345 *ℕ 100 ≤ℤ q *ℕ (10 ^ 6))
    × (q *ℕ (10 ^ 6) ≤ℤ pos 12_345 *ℕ 100 +ℤ pos (10 ^ 6 - 1))
amount_to_envelope_minor_units-peg_example =
    amount_to_envelope_minor_units-peg decimals usdc_on_base (pos 12_345) usd 6 none not_fiat
      usdc_known

abbrev lightning : Text
lightning = codes "btc-lightning"

-- A satoshi is 0.00065 dollars.
abbrev pub snapshot : Option (List (Text × ℕ))
snapshot = some ((codes "sats->usd", 65_000) ∷ [])

thousand_sats :
    amount_to_envelope_minor_units decimals lightning (pos 1_000) usd snapshot
    ≡ some (pos 69, coingecko_simple)
unfolding amount_to_envelope_minor_units
thousand_sats = refl

amount_to_envelope_minor_units-nonneg_example : pos 0 ≤ℤ pos 69
amount_to_envelope_minor_units-nonneg_example =
    amount_to_envelope_minor_units-nonneg decimals ordered lightning (pos 1_000) usd snapshot
      (fair 65_000, tt) (omega arith) thousand_sats

abbrev store : Store ed decimals
store = record {
  db = empty;
  files = files;
  snapshots = ("env", (codes "sats->usd", 65_000) ∷ []) ∷ [];
}

abbrev ecb : Text → Text → Fetched ℕ
ecb src dst = fetched 91_000_000

there_is : envelope_exists_sync ed decimals "env" store ≡ true
unfolding envelope_exists_sync
there_is = refl

session_missing : envelope_exists_sync ed decimals "session" store ≡ false
unfolding envelope_exists_sync
session_missing = refl

env_there : envelope_exists_sync ed decimals "env" (record store { files = [] }) ≡ true
unfolding envelope_exists_sync
env_there = refl

refresh_ecb_legs-drops-sats_example :
    (s' : Store ed decimals) × (refresh_ecb_legs ed decimals ecb "env" usd store ≡ (ok tt, s'))
    × ((rail : Text) (amount : ℤ)
        → remove_suffix (codes "-fiat") rail ≡ none
        → stablecoin rail ≡ none
        → amount_to_envelope_minor_units decimals rail amount usd
            (load_fmv_snapshot_sync ed decimals "env" s')
          ≡ none)
refresh_ecb_legs-drops-sats_example =
    refresh_ecb_legs-drops-sats ed decimals ecb "env" usd store there_is

abbrev spec : BudgetEnvelope
spec = record {
  id = "session";
  cap_minor_units = pos 500;
  cap_currency = usd;
  allowed_rails = l402 ∷ [];
  ttl_seconds = 3_600;
  allowed_origins_glob = [];
}

abbrev providers : Providers ed decimals
providers = record { fmv = some (λ cur. fetched 65_000); ecb = some ecb }

abbrev sats : Option (List (Text × ℕ))
sats = some ((codes "sats->usd", 65_000) ∷ [])

abbrev crosses : Option (List (Text × ℕ))
crosses = some (
    (codes "eur->usd", 91_000_000)
    ∷ (codes "gbp->usd", 91_000_000)
    ∷ (codes "jpy->usd", 91_000_000)
    ∷ [])

sats_given : sats_rates_of ed decimals providers spec ≡ ok sats
unfolding sats_rates_of
sats_given = refl

crosses_given : provider_cross ed decimals usd providers.ecb ≡ ok crosses
unfolding fetch_rates
crosses_given = refl

create_envelope_lem_example :
    (s' : Store ed decimals) × (create_envelope ed decimals providers 7 "fresh" "public" spec store
      ≡ (ok tt, s'))
    × (s'
        ≡ with_envelope ed decimals 7 "fresh" "public" spec
            (capture_fmv_snapshot decimals usd sats crosses)
            store)
    × ((posix : Bool) → load posix "session" s'.files ≡ ok "fresh")
    × (load_fmv_snapshot_sync ed decimals "session" s'
        ≡ some (capture_fmv_snapshot decimals usd sats crosses))
    × (envelope_exists_sync ed decimals "session" s' ≡ true)
create_envelope_lem_example =
    create_envelope_lem ed decimals providers 7 "fresh" "public" spec store refl session_missing
      sats_given crosses_given

-- No provider for the rate of an L402 envelope.
abbrev no_provider : Providers ed decimals
no_provider = record { fmv = none; ecb = none }

refused : sats_rates_of ed decimals no_provider spec ≡ err value_error
unfolding sats_rates_of
refused = refl

create_envelope-orphan_example :
    (s' : Store ed decimals) × (create_envelope ed decimals no_provider 7 "fresh" "public" spec
        store
      ≡ (err value_error, s'))
    × (s'.db ≡ store.db)
    × ((p' : Providers ed decimals) (now' : ℕ) (key' : String) (pub_key' : String)
          (spec' : BudgetEnvelope)
        → spec'.id ≡ "session"
        → create_envelope ed decimals p' now' key' pub_key' spec' s'
          ≡ (err keystore_already_exists, s'))
create_envelope-orphan_example =
    create_envelope-orphan ed decimals no_provider 7 "fresh" "public" spec store refl refused

abbrev no_files : Store ed decimals
no_files = record store { files = [] }

abbrev again : BudgetEnvelope
again = record spec { id = "env" }

again_given : sats_rates_of ed decimals providers again ≡ ok sats
unfolding sats_rates_of
again_given = refl

there :
    create_envelope_if_absent ed decimals providers 7 "fresh" "public" again store
    ≡ (ok false, store)
unfolding create_envelope_if_absent envelope_exists_sync
there = refl

create_envelope_if_absent-once_example :
    (envelope_exists_sync ed decimals "env" store ≡ true)
    × ((p' : Providers ed decimals) (now' : ℕ) (key' : String) (pub_key' : String)
          (spec' : BudgetEnvelope)
        → spec'.id ≡ "env"
        → create_envelope_if_absent ed decimals p' now' key' pub_key' spec' store
          ≡ (ok false, store))
create_envelope_if_absent-once_example =
    create_envelope_if_absent-once ed decimals providers 7 "fresh" "public" again store there
