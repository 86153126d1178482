-- ===== src/Auth/Flow.antt =====
-- src/routeweiler/_auth.py: the gates, the phases and the loop of `async_auth_flow`.
use routeweiler_python_sdk.Prelude.{
  ℕ, suc, zero, String, Bool, true, Option, none, some, List, ◌∷◌, ltb, ◌==◌, if◌then◌else◌,
}
use routeweiler_python_sdk.Prelude.Int.{ℤ, ltb_ℤ}
use routeweiler_python_sdk.Normalized.{Rail, NormalizedChallenge}
use routeweiler_python_sdk.Budgets.Schema.{Currency, DrawReceipt, Db}
use routeweiler_python_sdk.Budgets.Errors.{Result, ok, err}
use routeweiler_python_sdk.Budgets.Receipts.{Ed25519}
use routeweiler_python_sdk.Budgets.Draw.{DrawRequest, draw_sync, confirm_sync, rollback_sync}
use routeweiler_python_sdk.Policy.{PolicyDecision}
use routeweiler_python_sdk.Routing.{
  PaymentResult, PayOutcome, paid, post_commit, failed, mem_rail, RouteError, Candidate,
  RoutingChoice, Setup, decide,
}
use routeweiler_python_sdk.Routing as Routing
use routeweiler_python_sdk.Routing.Sticky.{remember, lookup, forget}
use routeweiler_python_sdk.Auth.{
  FailoverState, initial, advance, Failure, route, fmv_unavailable, post_commit_payment,
  max_per_call_exceeded, budget, Ending, passed, delivered, refused, unfinished, Payment, World,
  Next, stop, again, CredentialStore, Recoverer, Auth, http_status_payment_required,
  http_client_error_threshold,
}

-- The gate on `max_per_call_minor_units`: the limit and the quote.
abbrev pub over_limit : Option String → Option ℤ → Option ℤ → Option Failure
over_limit rule_name none quote = none
over_limit rule_name (some limit) none = some fmv_unavailable
over_limit rule_name (some limit) (some quote) =
    if ltb_ℤ limit quote then some (max_per_call_exceeded rule_name quote limit) else none

-- The gate is open without a reference currency.
abbrev pub max_per_call_gate : Option Currency → PolicyDecision → Option ℤ → Option Failure
max_per_call_gate none decision quote = none
max_per_call_gate (some _) decision quote =
    over_limit decision.rule_name decision.max_per_call quote

-- The envelope that the flow draws from: there is a store, an envelope and its currency.
abbrev pub drawing_envelope : Bool → Option String → Option Currency → Option String
drawing_envelope true (some i) (some _) = some i
drawing_envelope _ _ _ = none

-- How the draw phase ends: with a receipt or none, or with an error.
pub data DrawPhase : Type 0 where
  proceed : Option DrawReceipt → DrawPhase
  halt : Failure → DrawPhase

abbrev pub phase_of : Result DrawReceipt → DrawPhase
phase_of (ok receipt) = proceed (some receipt)
phase_of (err x) = halt (budget x)

-- `_confirm_draw_safe` and `_rollback_safe`
unfoldable pub confirm_draw_safe : ℕ → Option DrawReceipt → Db → Db
confirm_draw_safe now none db = db
confirm_draw_safe now (some receipt) db =
    (confirm_sync now receipt.receipt_id receipt.amount_reserved db).1

unfoldable pub rollback_safe : Option DrawReceipt → Db → Db
rollback_safe none db = db
rollback_safe (some receipt) db = (rollback_sync receipt.receipt_id db).1

module _ {ed : Ed25519} {Req Resp Fund Cred : Type 0} (self : Auth ed Req Resp Fund Cred) where
  abbrev pub draw_request : String → ℤ → Rail → ℕ → DrawRequest
  draw_request envelope_id quote rail attempt = record {
    envelope_id = envelope_id;
    request_id = self.request_id;
    idempotency_key = self.idempotency_key self.request_id attempt;
    amount = quote;
    rail_quoted = rail;
    ttl_seconds = self.draw_ttl_seconds;
  }

  -- The draw of a quote, and what happens without one.
  abbrev pub draw_quote : String → Rail → ℕ → Option ℤ → Db → DrawPhase × Db
  draw_quote envelope_id rail attempt none db =
      (if mem_rail rail self.envelope_allowed_rails then halt fmv_unavailable else proceed none, db)
  draw_quote envelope_id rail attempt (some quote) db =
      let (r, db') =
        draw_sync ed self.posix self.files (self.times attempt).drawn (self.receipt_id attempt)
          (draw_request envelope_id quote rail attempt) db in
      (phase_of r, db')

  unfoldable pub draw_phase : Candidate Req Resp Fund → ℕ → Db → DrawPhase × Db
  draw_phase c attempt db =
      elim (drawing_envelope self.budget_store self.envelope_id self.envelope_currency) [
        | none ↦ (proceed none, db)
        | some i ↦ draw_quote i c.adapter.rail attempt c.quote db
      ]

  -- `_persist_credential_safe`
  abbrev pub persist_credential_safe :
      Option (CredentialStore Cred)
      → Option String
      → Rail
      → NormalizedChallenge
      → Cred
      → Option String × Cred
  persist_credential_safe none payload rail challenge creds = (none, creds)
  persist_credential_safe (some store) none rail challenge creds = (none, creds)
  persist_credential_safe (some store) (some payload) rail challenge creds =
      store.persist self.request_id rail self.url payload challenge.expires_at creds

  -- A recovered response replaces the final one.
  abbrev pub or_final : Resp → Option Resp × Cred → Resp × Cred
  or_final final (none, creds) = (final, creds)
  or_final final (some recovered, creds) = (recovered, creds)

  -- `_handle_credential_post_response`
  unfoldable pub handle_credential_post_response :
      Option (Recoverer Resp Cred) → Option String → Resp → Cred → Resp × Cred
  handle_credential_post_response recoverer none final creds = (final, creds)
  handle_credential_post_response none (some id) final creds = (final, creds)
  handle_credential_post_response (some recoverer) (some id) final creds =
      if ltb (self.status_code final) http_client_error_threshold
      then (final, recoverer.mark_redeemed id creds)
      else or_final final (recoverer.attempt_recovery id final creds)

  -- The retry after `pay` has returned: the credential is stored before it and settled after it.
  unfoldable pub send_retry : ℕ → Candidate Req Resp Fund → PaymentResult → Cred → Resp × Cred
  unfolding handle_credential_post_response
  send_retry attempt c result creds =
      let (id, stored) =
        persist_credential_safe self.credential_store result.credential c.adapter.rail c.challenge
          creds in
      handle_credential_post_response self.recoverer id (self.retry attempt result) stored

  abbrev pub paying :
      Candidate Req Resp Fund
      → Option DrawReceipt
      → PayOutcome
      → World Req Resp Fund Cred
      → List (Payment Req Resp Fund)
  paying c receipt outcome w =
      record { candidate = c; receipt = receipt; outcome = outcome } ∷ w.payments

  -- What follows each outcome of `pay`.
  unfoldable pub settle_outcome :
      FailoverState
      → Candidate Req Resp Fund
      → Option DrawReceipt
      → World Req Resp Fund Cred
      → PayOutcome
      → Next Req Resp Fund Cred
  unfolding send_retry confirm_draw_safe rollback_safe
  settle_outcome s c receipt w post_commit = stop (refused post_commit_payment) (record {
    db = confirm_draw_safe (self.times s.attempt).confirmed receipt w.db;
    sticky = forget self.sticky_key w.sticky;
    credentials = w.credentials;
    payments = paying c receipt post_commit w;
  })
  settle_outcome s c receipt w failed = again (advance c.adapter.rail s) (record {
    db = rollback_safe receipt w.db;
    sticky = forget self.sticky_key w.sticky;
    credentials = w.credentials;
    payments = paying c receipt failed w;
  })
  settle_outcome s c receipt w (paid result) =
      let (response, creds) = send_retry s.attempt c result w.credentials in
      stop (delivered response) (record {
        db = confirm_draw_safe (self.times s.attempt).confirmed receipt w.db;
        sticky =
            remember self.sticky_ttl (self.times s.attempt).remembered self.sticky_key
              c.adapter.rail c.challenge.expires_at w.sticky;
        credentials = creds;
        payments = paying c receipt (paid result) w;
      })

  -- From the choice of a candidate to the call of `pay`.
  unfoldable pub pay_candidate :
      FailoverState → Candidate Req Resp Fund → World Req Resp Fund Cred → Next Req Resp Fund Cred
  unfolding draw_phase settle_outcome
  pay_candidate s c w = elim (max_per_call_gate self.setup.reference_currency c.decision c.quote) [
    | some failure ↦ stop (refused failure) w
    | none ↦
        let (phase, db) = draw_phase c s.attempt w.db in
        elim phase [
          | halt failure ↦ stop (refused failure) (record w { db = db })
          | proceed receipt ↦
              settle_outcome s c receipt (record w { db = db })
                (c.adapter.pay s.attempt c.challenge)
        ]
  ]

  -- The body of the loop.
  unfoldable pub turn : Resp → FailoverState → World Req Resp Fund Cred → Next Req Resp Fund Cred
  unfolding pay_candidate
  turn response s w =
      let (sticky_rail, entries) =
        lookup (self.times s.attempt).looked_up self.sticky_key w.sticky in
      elim (decide self.setup self.request response s.excluded_rails sticky_rail s.prior_rail
        s.attempt) [
          | Routing.err x ↦ stop (refused (route x)) (record w { sticky = entries })
          | Routing.ok choice ↦ pay_candidate s choice.candidate (record w { sticky = entries })
        ]

  unfoldable pub turns :
      ℕ → Resp → FailoverState → World Req Resp Fund Cred → Ending Resp × World Req Resp Fund Cred
  turns zero response s w = (unfinished, w)
  turns (suc fuel) response s w = elim (turn response s w) [
    | stop ending w' ↦ (ending, w')
    | again s' w' ↦ turns fuel response s' w'
  ]

  -- `async_auth_flow`, with the first response; a turn for each rail and one more.
  unfoldable pub async_auth_flow :
      Resp → World Req Resp Fund Cred → Ending Resp × World Req Resp Fund Cred
  unfolding turns
  async_auth_flow response w =
      if self.status_code response == http_status_payment_required
      then turns 5 response initial w
      else (passed response, w)
