-- ===== src/Budgets/Schema.antt =====
-- The models of src/routeweiler/budgets/schema.py and the rows of the tables that
-- src/routeweiler/_storage.py declares. A datetime is a number of microseconds.
use routeweiler_python_sdk.Prelude.{ℕ, String, Bool, true, false, Option, List}
use routeweiler_python_sdk.Prelude.Int.{ℤ}
use routeweiler_python_sdk.Normalized.{Rail}

-- `EnvelopeCurrency`
pub data Currency : Type 0 where
  usd eur jpy gbp : Currency

-- `EnvelopeStatus`
pub data EnvelopeStatus : Type 0 where
  active frozen expired revoked : EnvelopeStatus

abbrev pub is_active : EnvelopeStatus → Bool
is_active active = true
is_active _ = false

-- `DrawState`
pub data DrawState : Type 0 where
  reserved settled rolled_back : DrawState

abbrev pub is_reserved : DrawState → Bool
is_reserved reserved = true
is_reserved _ = false

abbrev pub is_settled : DrawState → Bool
is_settled settled = true
is_settled _ = false

-- A row of `envelopes`; the JSON columns are the lists that they encode.
pub record Envelope : Type 0 where
  pub id : String
  pub cap_minor_units : ℤ
  pub cap_currency : Currency
  pub allowed_rails : List Rail
  pub allowed_origins_glob : List String
  pub status : EnvelopeStatus
  pub created_at : ℕ
  pub expires_at : ℕ
  pub counter_public_key : String

-- A row of `draws`.
pub record Draw : Type 0 where
  pub id : String
  pub envelope_id : String
  pub request_id : String
  pub idempotency_key : String
  pub amount_reserved : ℤ
  pub amount_settled : Option ℤ
  pub rail_quoted : Rail
  pub state : DrawState
  pub issued_at : ℕ
  pub expires_at : ℕ
  pub settled_at : Option ℕ

-- `DrawReceipt`
pub record DrawReceipt : Type 0 where
  pub receipt_id : String
  pub envelope_id : String
  pub request_id : String
  pub idempotency_key : String
  pub amount_reserved : ℤ
  pub currency : Currency
  pub rail_quoted : Rail
  pub issued_at : ℕ
  pub expires_at : ℕ
  pub counter_public_key : String
  pub signature : String

-- The two tables that a draw reads and writes.
pub record Db : Type 0 where
  pub envelopes : List Envelope
  pub draws : List Draw
