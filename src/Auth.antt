-- ===== src/Auth.antt =====
-- src/routeweiler/_auth.py: the failover loop that answers a 402. The state that the flow changes is
-- a `World`; its list of payments records the calls of `pay`, the last one first. What the server, the
-- clock, `uuid7` and SHA-256 return are fields of `Auth`, and so are the operations on the stored
-- credentials. Traces are left out, and errors that the flow swallows leave the state as it is.
pub mod Flow
pub mod Turns
pub mod Rows
pub mod Draws
pub mod Settlement
pub mod Passed
pub mod Payments
use routeweiler_python_sdk.Prelude.{
  ℕ, suc, String, Bool, true, false, Option, none, some, List, [], ◌∷◌, ltb, ◌==◌, if◌then◌else◌,
}
use routeweiler_python_sdk.Prelude.Int.{ℤ, ltb_ℤ}
use routeweiler_python_sdk.Normalized.{Rail, NormalizedChallenge}
use routeweiler_python_sdk.Budgets.Schema.{Currency, DrawReceipt, Db}
use routeweiler_python_sdk.Budgets.Errors.{Error, Result, ok, err}
use routeweiler_python_sdk.Budgets.Receipts.{Ed25519}
use routeweiler_python_sdk.Budgets.Keystore.{Files}
use routeweiler_python_sdk.Budgets.Draw.{DrawRequest, draw_sync, confirm_sync, rollback_sync}
use routeweiler_python_sdk.Policy.{PolicyDecision}
use routeweiler_python_sdk.Routing.{
  PaymentResult, PayOutcome, paid, post_commit, failed, mem_rail, RouteError, Candidate,
  RoutingChoice, Setup, decide,
}
use routeweiler_python_sdk.Routing as Routing
use routeweiler_python_sdk.Routing.Sticky.{StickyKey, StickyEntry, remember, lookup, forget}

-- HTTP_STATUS_PAYMENT_REQUIRED and HTTP_CLIENT_ERROR_THRESHOLD of _constants.py
abbrev pub http_status_payment_required : ℕ
http_status_payment_required = 402

abbrev pub http_client_error_threshold : ℕ
http_client_error_threshold = 400

-- `_FailoverState`
pub record FailoverState : Type 0 where
  pub excluded_rails : List Rail
  pub prior_rail : Option Rail
  pub attempt : ℕ

abbrev pub initial : FailoverState
initial = record { excluded_rails = []; prior_rail = none; attempt = 0 }

abbrev pub advance : Rail → FailoverState → FailoverState
advance failed_rail s = record {
  excluded_rails = failed_rail ∷ s.excluded_rails;
  prior_rail = some failed_rail;
  attempt = suc s.attempt;
}

-- What the flow raises.
pub data Failure : Type 0 where
  route : RouteError → Failure
  fmv_unavailable post_commit_payment : Failure
  -- the rule, the quote and the limit
  max_per_call_exceeded : Option String → ℤ → ℤ → Failure
  budget : Error → Failure

-- How the flow ends: a response that needs no payment, the response after a payment, an error, or no
-- fuel.
pub data Ending (Resp : Type 0) : Type 0 where
  passed delivered : Resp → Ending Resp
  refused : Failure → Ending Resp
  unfinished : Ending Resp

-- One call of `pay`.
pub record Payment (Req Resp Fund : Type 0) : Type 0 where
  pub candidate : Candidate Req Resp Fund
  pub receipt : Option DrawReceipt
  pub outcome : PayOutcome

pub record World (Req Resp Fund Cred : Type 0) : Type 0 where
  pub db : Db
  pub sticky : List StickyEntry
  pub credentials : Cred
  pub payments : List (Payment Req Resp Fund)

-- One turn of the loop ends the flow or fails over.
pub data Next (Req Resp Fund Cred : Type 0) : Type 0 where
  stop : Ending Resp → World Req Resp Fund Cred → Next Req Resp Fund Cred
  again : FailoverState → World Req Resp Fund Cred → Next Req Resp Fund Cred

-- When the calls of one turn happen.
pub record Times : Type 0 where
  pub looked_up : ℕ
  pub drawn : ℕ
  pub confirmed : ℕ
  pub remembered : ℕ

-- What the flow calls of the credential store and the recoverer, on their own state. `persist` finds
-- nothing where it raises; `attempt_recovery` finds the recovered response.
pub record CredentialStore (Cred : Type 0) : Type 0 where
  pub persist : String → Rail → String → String → ℕ → Cred → Option String × Cred

pub record Recoverer (Resp Cred : Type 0) : Type 0 where
  pub mark_redeemed : String → Cred → Cred
  pub attempt_recovery : String → Resp → Cred → Option Resp × Cred

-- `RouteweilerAuth`, with the request and what its environment returns at each attempt.
pub record Auth (ed : Ed25519) (Req Resp Fund Cred : Type 0) : Type 0 where
  pub setup : Setup Req Resp Fund
  pub posix : Bool
  pub files : Files ed.PrivateKey
  pub budget_store : Bool
  pub envelope_id : Option String
  pub envelope_currency : Option Currency
  pub envelope_allowed_rails : List Rail
  pub draw_ttl_seconds : ℕ
  pub credential_store : Option (CredentialStore Cred)
  pub recoverer : Option (Recoverer Resp Cred)
  pub sticky_ttl : ℕ
  pub sticky_key : StickyKey
  pub request : Req
  pub url : String
  pub request_id : String
  pub idempotency_key : String → ℕ → String
  pub receipt_id : ℕ → String
  pub times : ℕ → Times
  pub retry : ℕ → PaymentResult → Resp
  pub status_code : Resp → ℕ
