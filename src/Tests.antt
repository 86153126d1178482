-- ===== src/Tests.antt =====
-- Concrete inputs for the components, and the theorems at these inputs.
pub mod Counter
pub mod Rules
pub mod Store
pub mod Flow
pub mod Wire
pub mod Decimal
pub mod Money
pub mod Recovery
pub mod Invoice
pub mod Mpp
pub mod Rails
use routeweiler_python_sdk.Prelude.{
  ℕ, zero, suc, String, Bool, true, false, Option, none, some, List, [], ◌∷◌, str_eq,
}
use routeweiler_python_sdk.Prelude.Int.{ℤ, pos}
use routeweiler_python_sdk.Normalized.{
  Rail, l402, mpp_tempo, exact, l402_raw, mpp_tempo_raw, preimage, NormalizedChallenge,
}
use routeweiler_python_sdk.Budgets.Schema.{Envelope, Draw, Db, usd, active, reserved, rolled_back}
use routeweiler_python_sdk.Budgets.Receipts.{Ed25519}
use routeweiler_python_sdk.Budgets.Keystore.{Files}
use routeweiler_python_sdk.Budgets.Draw.{DrawRequest, new_draw, roll_back}
use routeweiler_python_sdk.Policy.{UrlLib, PolicyRule, Policy, RuleMatch, when, unset}
use routeweiler_python_sdk.Routing.{Adapter, PayOutcome, paid, failed, PaymentResult, Setup}
use routeweiler_python_sdk.Routing.Sticky.{StickyKey}
use routeweiler_python_sdk.Auth.{Auth, World, Times}

-- One key, which signs everything alike.
abbrev pub ed : Ed25519
ed = record {
  PrivateKey = String;
  sign = λ key payload. "signed";
  accepts = λ public_key signature payload. str_eq signature "signed";
}

abbrev pub envelope : Envelope
envelope = record {
  id = "env";
  cap_minor_units = pos 100;
  cap_currency = usd;
  allowed_rails = l402 ∷ mpp_tempo ∷ [];
  allowed_origins_glob = [];
  status = active;
  created_at = 0;
  expires_at = 1_000_000_000;
  counter_public_key = "public";
}

abbrev pub files : Files String
files = ("env", record { mode = 0o600; key = "private" }) ∷ []

abbrev pub request : DrawRequest
request = record {
  envelope_id = "env";
  request_id = "request";
  idempotency_key = "first";
  amount = pos 40;
  rail_quoted = l402;
  ttl_seconds = 60;
}

abbrev pub large : DrawRequest
large = record request { amount = pos 120 }

abbrev pub empty : Db
empty = record { envelopes = envelope ∷ []; draws = [] }

abbrev pub row : Draw
row = new_draw 5 "draw" request

abbrev pub one_draw : Db
one_draw = record { envelopes = envelope ∷ []; draws = row ∷ [] }

abbrev pub one_rolled_back : Db
one_rolled_back = record { envelopes = envelope ∷ []; draws = roll_back row ∷ [] }

abbrev pub lib : UrlLib
lib = record {
  hostname = λ url. some "api.example.com";
  lower = λ s. s;
  fnmatchcase = λ name pattern. str_eq name pattern;
}

abbrev pub challenge : Rail → NormalizedChallenge
challenge r = record {
  rail = r;
  method = "GET";
  url = "https://api.example.com/data";
  price = record { amount = pos 40; currency = "USD"; human_amount = "0.40" };
  payee = "payee";
  scheme = exact;
  nonce = "nonce";
  expires_at = 900_000_000;
  raw = l402_raw "macaroon" "invoice";
}

abbrev pub elsewhere : PolicyRule
elsewhere = record {
  name = "elsewhere";
  condition = when (some "other.example.com") none none unset;
  prefer = none;
  deny = true;
  max_per_call = none;
  reason = none;
}

abbrev pub capped : PolicyRule
capped = record {
  name = "capped";
  condition = when (some "api.example.com") none none unset;
  prefer = some (l402 ∷ []);
  deny = false;
  max_per_call = some (pos 50);
  reason = none;
}

abbrev pub policy : Policy
policy = record { default_rail = mpp_tempo; rules = elsewhere ∷ capped ∷ [] }

abbrev pub adapter : Rail → (ℕ → NormalizedChallenge → PayOutcome) → Adapter ℕ ℕ ℕ
adapter r pay = record {
  rail = r;
  can_handle = λ response. true;
  parse = λ req response. some (challenge r);
  match_funding = λ c funding. some 0;
  pay = pay;
}

abbrev pub proof : PaymentResult
proof = record {
  header_name = some "Authorization";
  header_value = some "L402 macaroon:preimage";
  credential = none;
  proof_type = preimage;
  proof_value = none;
}

-- The preferred rail fails, the other one pays.
abbrev pub broken : Adapter ℕ ℕ ℕ
broken = adapter l402 (λ n c. failed)

abbrev pub working : Adapter ℕ ℕ ℕ
working = adapter mpp_tempo (λ n c. paid proof)

abbrev pub setup : Setup ℕ ℕ ℕ
setup = record {
  lib = lib;
  float = λ q. q;
  convert = λ currency amount reference. some (pos 40);
  adapters = working ∷ broken ∷ [];
  policy = some policy;
  funding = 0 ∷ [];
  reference_currency = some usd;
}

-- A key for each attempt.
abbrev pub unary : ℕ → String
unary zero = ""
unary (suc n) = String.◌∷◌ "x" (unary n)

abbrev pub auth : Auth ed ℕ ℕ ℕ ℕ
auth = record {
  setup = setup;
  posix = true;
  files = files;
  budget_store = true;
  envelope_id = some "env";
  envelope_currency = some usd;
  envelope_allowed_rails = l402 ∷ mpp_tempo ∷ [];
  draw_ttl_seconds = 60;
  credential_store = none;
  recoverer = none;
  sticky_ttl = 600_000_000;
  sticky_key = record {
    origin = "https://api.example.com:443";
    agent_id = none;
    session_id = none;
  };
  request = 0;
  url = "https://api.example.com/data";
  request_id = "request";
  idempotency_key = λ request_id n. unary n;
  receipt_id = λ n. unary n;
  times = λ n. record { looked_up = 1; drawn = 2; confirmed = 3; remembered = 4 };
  retry = λ n result. 200;
  status_code = λ response. response;
}

abbrev pub world : World ℕ ℕ ℕ ℕ
world = record { db = empty; sticky = []; credentials = 0; payments = [] }
