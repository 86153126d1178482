-- ===== src/Budgets/Store.antt =====
-- src/routeweiler/budgets/local.py, _snapshot.py and _sync_reads.py: the budget store. Its methods run
-- one at a time under the lock; what the clock, the key generator and the rate providers return is
-- given. The tables, the key directory and the snapshots are one state. Tasks and logs are left out.
pub mod Refresh
pub mod Created
pub mod Once
pub mod Rates
use routeweiler_python_sdk.Prelude.{
  ℕ, ◌+◌, ◌*◌, String, Bool, true, false, Option, none, some, List, [], ◌∷◌, ◌++◌, not, ◌&&◌, ltb,
  str_eq, find?, any, filter, if◌then◌else◌,
}
use routeweiler_python_sdk.Prelude.Int.{ℤ}
use routeweiler_python_sdk.Normalized.{Rail, l402}
use routeweiler_python_sdk.Texts.{Text, codes, text_eq}
use routeweiler_python_sdk.Budgets.Schema.{Currency, active, is_active, Envelope, DrawReceipt, Db}
use routeweiler_python_sdk.Budgets.Errors.{
  Result, ok, err, Error, Action, integrity, value_error, provider_error, pure, raise, lift, gets,
  raise_if, modify, ◌>>=◌, ◌>>◌,
}
use routeweiler_python_sdk.Budgets.Receipts.{Ed25519}
use routeweiler_python_sdk.Budgets.Keystore.{Files, create, delete}
use routeweiler_python_sdk.Budgets.Draw.{
  second, has_envelope_id, DrawRequest, draw_sync, confirm_sync, rollback_sync, reap_sync,
}
use routeweiler_python_sdk.Budgets.Fmv.{Decimals, iso, rate_key}
use routeweiler_python_sdk.Budgets.Fmv as Fmv
use routeweiler_python_sdk.Budgets.Fmv.Capture.{capture_fmv_snapshot}
use routeweiler_python_sdk.Routing.{mem_rail}

-- `BudgetEnvelope`, which has the arguments of `create_envelope`; the owner is not used.
pub record BudgetEnvelope : Type 0 where
  pub id : String
  pub cap_minor_units : ℤ
  pub cap_currency : Currency
  pub allowed_rails : List Rail
  pub ttl_seconds : ℕ
  pub allowed_origins_glob : List String

-- What a call of a provider returns or raises.
pub data Fetched (D : Type 0) : Type 0 where
  fetched : D → Fetched D
  fmv_unavailable failed : Fetched D

-- `allowed_origins_glob or ["*"]`
abbrev pub or_any : List String → List String
or_any [] = "*" ∷ []
or_any globs = globs

-- The fiat currencies that the providers are asked for.
abbrev pub known_fiats : List Text
known_fiats = codes "usd" ∷ codes "eur" ∷ codes "gbp" ∷ codes "jpy" ∷ []

module _ (ed : Ed25519) (dec : Decimals) where
  open ed use {PrivateKey}
  open dec use {Decimal}

  abbrev pub Rates : Type 0
  Rates = Fmv.Rates dec

  -- `BudgetStore` with its tables and its key directory.
  pub record Store : Type 0 where
    pub db : Db
    pub files : Files PrivateKey
    pub snapshots : List (String × Rates)

  -- `fmv_provider` and `ecb_provider`, with what their calls give.
  pub record Providers : Type 0 where
    pub fmv : Option (Currency → Fetched Decimal)
    pub ecb : Option (Text → Text → Fetched Decimal)

  abbrev pub on_db : {A : Type 0} → Action Db A → Action Store A
  on_db m s = let (r, db') = m s.db in (r, record s { db = db' })

  abbrev pub on_files :
      {A : Type 0} → (Files PrivateKey → Result A × Files PrivateKey) → Action Store A
  on_files m s = let (r, files') = m s.files in (r, record s { files = files' })

  unfoldable pub snapshot_at : String → List (String × Rates) → Option Rates
  snapshot_at i [] = none
  snapshot_at i ((j, rates) ∷ rest) = if str_eq j i then some rates else snapshot_at i rest

  -- `load_fmv_snapshot_sync`
  unfoldable pub load_fmv_snapshot_sync : String → Store → Option Rates
  unfolding snapshot_at
  load_fmv_snapshot_sync i s = snapshot_at i s.snapshots

  abbrev pub others : String → List (String × Rates) → List (String × Rates)
  others i = filter (λ p. not (str_eq p.0 i))

  -- `upsert_snapshot_sync`: INSERT OR REPLACE, with the reference to `envelopes`.
  unfoldable pub upsert_snapshot_sync : String → Rates → Action Store Unit
  upsert_snapshot_sync i rates = do
    parent ← gets (λ s. any (has_envelope_id i) s.db.envelopes)
    raise_if (not parent) integrity
    modify (λ s. record s { snapshots = (i, rates) ∷ others i s.snapshots })

  -- `envelope_exists_sync`
  unfoldable pub envelope_exists_sync : String → Store → Bool
  envelope_exists_sync i s = any (has_envelope_id i) s.db.envelopes

  abbrev pub currency_of_row : Option Envelope → Option Currency
  currency_of_row none = none
  currency_of_row (some e) = some e.cap_currency

  -- `get_envelope_currency_sync`
  unfoldable pub get_envelope_currency_sync : String → Store → Option Currency
  get_envelope_currency_sync i s = currency_of_row (find? (has_envelope_id i) s.db.envelopes)

  abbrev pub rails_of_row : Option Envelope → List Rail
  rails_of_row none = []
  rails_of_row (some e) = e.allowed_rails

  -- `get_envelope_allowed_rails_sync`
  unfoldable pub get_envelope_allowed_rails_sync : String → Store → List Rail
  get_envelope_allowed_rails_sync i s = rails_of_row (find? (has_envelope_id i) s.db.envelopes)

  abbrev pub sats_key : Currency → Text
  sats_key cur = rate_key (codes "sats") (iso cur)

  abbrev pub fetched_sats : Currency → Fetched Decimal → Result (Option Rates)
  fetched_sats cur (fetched rate) = ok (some ((sats_key cur, rate) ∷ []))
  fetched_sats cur fmv_unavailable = ok none
  fetched_sats cur failed = err provider_error

  abbrev pub provider_sats : Currency → Option (Currency → Fetched Decimal) → Result (Option Rates)
  provider_sats cur none = err value_error
  provider_sats cur (some fetch_btc_to) = fetched_sats cur (fetch_btc_to cur)

  -- The sats rate of a new envelope.
  unfoldable pub sats_rates_of : Providers → BudgetEnvelope → Result (Option Rates)
  sats_rates_of p spec =
      if mem_rail l402 spec.allowed_rails then provider_sats spec.cap_currency p.fmv else ok none

  abbrev pub add_rate : Text → Fetched Decimal → Result Rates → Result Rates
  add_rate key (fetched rate) (ok rates) = ok ((key, rate) ∷ rates)
  add_rate key fmv_unavailable rest = rest
  add_rate key failed rest = err provider_error
  add_rate key (fetched rate) (err e) = err e

  unfoldable pub fetch_rates : (Text → Text → Fetched Decimal) → Text → List Text → Result Rates
  unfolding text_eq
  fetch_rates fetch_rate cur [] = ok []
  fetch_rates fetch_rate cur (src ∷ more) =
      let rest = fetch_rates fetch_rate cur more in
      if text_eq src cur then rest else add_rate (rate_key src cur) (fetch_rate src cur) rest

  abbrev pub map_ok : {A B : Type 0} → (A → B) → Result A → Result B
  map_ok f (ok a) = ok (f a)
  map_ok f (err e) = err e

  abbrev pub provider_cross :
      Currency → Option (Text → Text → Fetched Decimal) → Result (Option Rates)
  provider_cross cur none = ok none
  provider_cross cur (some fetch_rate) = map_ok some (fetch_rates fetch_rate (iso cur) known_fiats)

  -- The row of a new envelope.
  abbrev pub new_row : ℕ → String → BudgetEnvelope → Envelope
  new_row now pub_key spec = record {
    id = spec.id;
    cap_minor_units = spec.cap_minor_units;
    cap_currency = spec.cap_currency;
    allowed_rails = spec.allowed_rails;
    allowed_origins_glob = or_any spec.allowed_origins_glob;
    status = active;
    created_at = now;
    expires_at = now + spec.ttl_seconds * second;
    counter_public_key = pub_key;
  }

  -- `_create_envelope_sync`: INSERT INTO envelopes, with its PRIMARY KEY, and the snapshot.
  unfoldable pub create_envelope_sync : Envelope → Rates → Action Store Unit
  unfolding upsert_snapshot_sync
  create_envelope_sync row rates = do
    clash ← gets (λ s. any (has_envelope_id row.id) s.db.envelopes)
    raise_if clash integrity
    modify (λ s. record s { db = record s.db { envelopes = s.db.envelopes ++ row ∷ [] } })
    upsert_snapshot_sync row.id rates

  -- The handler of IntegrityError removes the key file.
  abbrev pub or_delete : String → Action Store Unit → Action Store Unit
  or_delete i m s =
      let (r, s') = m s in
      elim r [
        | ok _ ↦ (ok tt, s')
        | err integrity ↦ (err integrity, record s' { files = delete i s'.files })
        | err e ↦ (err e, s')
      ]

  -- `create_envelope`, with the key that the keystore generates and its public key.
  unfoldable pub create_envelope :
      Providers → ℕ → PrivateKey → String → BudgetEnvelope → Action Store Unit
  create_envelope p now generated pub_key spec = do
    on_files (create spec.id generated)
    sats_rates ← lift (sats_rates_of p spec)
    cross_rates ← lift (provider_cross spec.cap_currency p.ecb)
    let rates = capture_fmv_snapshot dec spec.cap_currency sats_rates cross_rates
    or_delete spec.id (create_envelope_sync (new_row now pub_key spec) rates)

  -- `create_envelope_if_absent`
  unfoldable pub create_envelope_if_absent :
      Providers → ℕ → PrivateKey → String → BudgetEnvelope → Action Store Bool
  create_envelope_if_absent p now generated pub_key spec s =
      let created = (create_envelope p now generated pub_key spec >> pure true) s in
      if envelope_exists_sync spec.id s then (ok false, s) else created

  -- `draw`, `confirm`, `rollback` and the pass of the reaper
  unfoldable pub draw : Bool → ℕ → String → DrawRequest → Action Store DrawReceipt
  unfolding draw_sync
  draw posix now i q s = on_db (draw_sync ed posix s.files now i q) s

  unfoldable pub confirm : ℕ → String → ℤ → Action Store Unit
  confirm now i amount = on_db (confirm_sync now i amount)

  unfoldable pub rollback : String → Action Store Unit
  rollback i = on_db (rollback_sync i)

  unfoldable pub reap : ℕ → Store → Store
  reap now s = record s { db = (reap_sync now s.db).1 }
