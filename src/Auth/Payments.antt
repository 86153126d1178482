-- ===== src/Auth/Payments.antt =====
-- The payments of one run of the failover loop: how many commit, on which rails, and what each of
-- them has passed.
use routeweiler_python_sdk.Prelude.{
  ℕ, suc, ◌<◌, ◌≡◌, ◌≢◌, refl, ap, inl, inr, Bool, true, false, not, Option, none, some, List, [],
  ◌∷◌, All, map, filter, length, Bool-cases, arith, ◌==◌,
}
use routeweiler_python_sdk.Normalized.{Rail, x402, l402, mpp_tempo, mpp_spt}
use routeweiler_python_sdk.Budgets.Schema.{DrawReceipt}
use routeweiler_python_sdk.Budgets.Receipts.{Ed25519}
use routeweiler_python_sdk.Routing.{
  Candidate, PayOutcome, paid, post_commit, failed, mem_rail, decision_for,
}
use routeweiler_python_sdk.Auth.{
  Auth, FailoverState, initial, Failure, Ending, refused, unfinished, World, Payment,
  http_status_payment_required,
}
use routeweiler_python_sdk.Auth.Flow.{
  drawing_envelope, settle_outcome, turn, turns, async_auth_flow,
}
use routeweiler_python_sdk.Auth.Turns.{
  turned_away, undrawn, called, turn-cases, charge, failure_charge, After, turns-After,
}
use routeweiler_python_sdk.Auth.Passed.{WithinLimit, Covered, gate-WithinLimit, draw_phase-Covered}

abbrev all_rails : List Rail
all_rails = x402 ∷ l402 ∷ mpp_tempo ∷ mpp_spt ∷ []

-- How many rails are not yet excluded.
abbrev left : List Rail → ℕ
left excluded = length (filter (λ r. not (mem_rail r excluded)) all_rails)

left-exclude :
    (r : Rail) (excluded : List Rail)
    → mem_rail r excluded ≡ false
    → left excluded ≡ suc (left (r ∷ excluded))
left-exclude x402 excluded h = ground (arith, h)
left-exclude l402 excluded h = ground (arith, h)
left-exclude mpp_tempo excluded h = ground (arith, h)
left-exclude mpp_spt excluded h = ground (arith, h)

-- No rail stands twice.
abbrev pub DistinctRails : List Rail → Type 0
DistinctRails [] = Unit
DistinctRails (r ∷ rs) = (mem_rail r rs ≡ false) × DistinctRails rs

-- Whether the funds have left.
abbrev pub is_committed : PayOutcome → Bool
is_committed failed = false
is_committed _ = true

module _ {ed : Ed25519} {Req Resp Fund Cred : Type 0} (self : Auth ed Req Resp Fund Cred)
    (response : Resp) where
  abbrev pub rail_of : Payment Req Resp Fund → Rail
  rail_of p = p.candidate.adapter.rail

  abbrev pub commits : List (Payment Req Resp Fund) → ℕ
  commits ps = length (filter (λ (p : Payment Req Resp Fund). is_committed p.outcome) ps)

  -- What a payment has passed before `pay` was called.
  pub record IsSafe (p : Payment Req Resp Fund) : Type 0 where
    pub parsed : p.candidate.adapter.parse self.request response ≡ some p.candidate.challenge
    pub decided :
        p.candidate.decision ≡ decision_for self.setup.lib self.setup.policy p.candidate.challenge
    pub permitted : p.candidate.decision.deny ≡ false
    pub funded : p.candidate.adapter.match_funding p.candidate.challenge self.setup.funding ≢ none
    pub within :
        WithinLimit self.setup.reference_currency p.candidate.decision.max_per_call
          p.candidate.quote
    pub covered :
        Covered
          (drawing_envelope self.budget_store self.envelope_id self.envelope_currency)
          self.envelope_allowed_rails
          p.candidate.adapter.rail
          p.candidate.quote
          p.receipt

  -- What holds before a turn, with the fuel that is left.
  record Going (n : ℕ) (s : FailoverState) (w : World Req Resp Fund Cred) : Type 0 where
    room : left s.excluded_rails < n
    none_yet : commits w.payments ≡ 0
    tried : map rail_of w.payments ≡ s.excluded_rails
    distinct : DistinctRails s.excluded_rails
    safe : All IsSafe w.payments

  -- What holds at the end.
  record Done (e : Ending Resp) (w : World Req Resp Fund Cred) : Type 0 where
    ended : e ≢ unfinished
    once : commits w.payments ≡ charge e
    distinct : DistinctRails (map rail_of w.payments)
    safe : All IsSafe w.payments

  Done-refused :
      (n : ℕ) (s : FailoverState) (w w' : World Req Resp Fund Cred) (f : Failure)
      → Going n s w
      → w'.payments ≡ w.payments
      → failure_charge f ≡ 0
      → Done (refused f) w'
  Done-refused n s w w' f g same free = record {
    ended = λ h. cc;
    once = rw (same, free) g.none_yet;
    distinct = rw (same, g.tried) g.distinct;
    safe = rw same g.safe;
  }

  settle_outcome-After :
      (n : ℕ) (s : FailoverState) (c : Candidate Req Resp Fund) (r : Option DrawReceipt)
      (w : World Req Resp Fund Cred) (o : PayOutcome)
      → Going (suc n) s w
      → mem_rail c.adapter.rail s.excluded_rails ≡ false
      → IsSafe (record { candidate = c; receipt = r; outcome = o })
      → After self response (Going n) Done (settle_outcome self s c r w o)
  unfolding settle_outcome
  settle_outcome-After n s c r w post_commit g new safe = record {
    ended = λ h. cc;
    once = ap suc g.none_yet;
    distinct = (rw g.tried new, rw g.tried g.distinct);
    safe = (safe, g.safe);
  }
  settle_outcome-After n s c r w (paid p) g new safe = record {
    ended = λ h. cc;
    once = ap suc g.none_yet;
    distinct = (rw g.tried new, rw g.tried g.distinct);
    safe = (safe, g.safe);
  }
  settle_outcome-After n s c r w failed g new safe = record {
    room = omega (arith, left-exclude c.adapter.rail s.excluded_rails new, g.room);
    none_yet = g.none_yet;
    tried = ap (λ rs. c.adapter.rail ∷ rs) g.tried;
    distinct = (new, g.distinct);
    safe = (safe, g.safe);
  }

  turn-After :
      (n : ℕ) (s : FailoverState) (w : World Req Resp Fund Cred)
      → Going (suc n) s w
      → After self response (Going n) Done (turn self response s w)
  turn-After n s w g = elim (turn-cases self response s w) [
    | turned_away f entries free eq ↦
        rw eq (Done-refused (suc n) s w (record w { sticky = entries }) f g refl free)
    | undrawn c f entries db cleared free drew eq ↦
        rw eq (Done-refused (suc n) s w (record w { sticky = entries; db = db }) f g refl free)
    | called c r entries db cleared drew eq ↦
        let feasible = cleared.filters in
        let gone : Going (suc n) s (record w { sticky = entries; db = db }) = record {
          room = g.room;
          none_yet = g.none_yet;
          tried = g.tried;
          distinct = g.distinct;
          safe = g.safe;
        } in
        rw eq (
          settle_outcome-After n s c r (record w { sticky = entries; db = db })
            (c.adapter.pay s.attempt c.challenge) gone feasible.remaining
            (record {
              parsed = feasible.parsed;
              decided = feasible.decided;
              permitted = feasible.permitted;
              funded = feasible.funded;
              within =
                  gate-WithinLimit self.setup.reference_currency c.decision c.quote cleared.gate;
              covered = draw_phase-Covered self c s.attempt w.db drew;
            }))
  ]

  turns-Done :
      (w : World Req Resp Fund Cred)
      → w.payments ≡ []
      → Done (turns self 5 response initial w).0 (turns self 5 response initial w).1
  turns-Done w h =
      turns-After self response Going Done turn-After
        (λ s w' g. let dry : ⊥ = omega (arith, g.room) in elim dry [ ]) 5 initial w
        (record {
          room = omega arith;
          none_yet = rw h;
          tried = rw h;
          distinct = tt;
          safe = rw h tt;
        })

  module _ (w : World Req Resp Fund Cred) (h : w.payments ≡ []) where
    async_auth_flow-Done :
        Done (async_auth_flow self response w).0 (async_auth_flow self response w).1
    unfolding async_auth_flow
    async_auth_flow-Done =
        elim (Bool-cases (self.status_code response == http_status_payment_required)) [
          | inl asked ↦ rw asked (turns-Done w h)
          | inr free ↦
              rw free (record { ended = λ e. cc; once = rw h; distinct = rw h tt; safe = rw h tt })
        ]

    -- The flow that starts without payments ends: the loop that is bounded by five turns never runs
    -- out of them.
    pub async_auth_flow-ends : (async_auth_flow self response w).0 ≢ unfinished
    async_auth_flow-ends = async_auth_flow-Done.ended

    -- In a flow that starts without payments, exactly one payment commits where the flow delivers a
    -- response after a payment or raises the error of a committed payment, and none where it ends
    -- otherwise.
    pub async_auth_flow-once :
        commits (async_auth_flow self response w).1.payments
        ≡ charge (async_auth_flow self response w).0
    async_auth_flow-once = async_auth_flow-Done.once

    -- A flow that starts without payments calls `pay` at most once on each rail.
    pub async_auth_flow-DistinctRails :
        DistinctRails (map rail_of (async_auth_flow self response w).1.payments)
    async_auth_flow-DistinctRails = async_auth_flow-Done.distinct

    -- In a flow that starts without payments, each call of `pay` is for a challenge that its adapter
    -- parsed from the response, that the policy permits and for which a funding source was found.
    -- Where the flow has a reference currency and the rule has a limit, the quote is known and at
    -- most the limit; without a reference currency no limit is applied. Where the flow draws from an
    -- envelope and the quote is known, the call has a receipt of that envelope, also on a rail that
    -- the envelope does not list; where the quote is unknown, it has no receipt, and the rail is one
    -- that the envelope does not list. Where the flow draws from no envelope, it has no receipt.
    pub async_auth_flow-IsSafe : All IsSafe (async_auth_flow self response w).1.payments
    async_auth_flow-IsSafe = async_auth_flow-Done.safe
