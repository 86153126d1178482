-- ===== src/Auth/Turns.antt =====
-- The ways in which a turn of the failover loop ends, and induction over the turns.
use routeweiler_python_sdk.Prelude.{
  ℕ, zero, suc, String, ◌≡◌, refl, ap, ◌⊎◌, inl, inr, Option, none, some, List, Option-cases,
  Bool-cases, arith,
}
use routeweiler_python_sdk.Prelude.Int.{ℤ, ltb_ℤ}
use routeweiler_python_sdk.Normalized.{Rail}
use routeweiler_python_sdk.Policy.{PolicyDecision}
use routeweiler_python_sdk.Budgets.Schema.{Currency, DrawReceipt, Db}
use routeweiler_python_sdk.Budgets.Errors.{Result, ok, err}
use routeweiler_python_sdk.Budgets.Receipts.{Ed25519}
use routeweiler_python_sdk.Routing.{
  RouteError, RoutingChoice, Routed, Candidate, PayOutcome, paid, post_commit, failed,
  PaymentResult, decide, mem_rail,
}
use routeweiler_python_sdk.Routing as Routing
use routeweiler_python_sdk.Routing.Sticky.{StickyEntry, lookup}
use routeweiler_python_sdk.Routing.Decide.{IsFeasible, decide-IsFeasible}
use routeweiler_python_sdk.Auth.{
  Auth, FailoverState, Failure, route, fmv_unavailable, max_per_call_exceeded, budget,
  post_commit_payment, Ending, delivered, refused, unfinished, World, Next, stop, again,
}
use routeweiler_python_sdk.Auth.Flow.{
  over_limit, max_per_call_gate, drawing_envelope, DrawPhase, proceed, halt, phase_of, draw_quote,
  draw_phase, settle_outcome, pay_candidate, turn, turns,
}

Routed-cases :
    {A : Type 0} (r : Routed A)
    → ((a : A) × (r ≡ Routing.ok a)) ⊎ ((x : RouteError) × (r ≡ Routing.err x))
Routed-cases (Routing.ok a) = inl (a, refl)
Routed-cases (Routing.err x) = inr (x, refl)

DrawPhase-cases :
    (p : DrawPhase × Db)
    → ((r : Option DrawReceipt) × (db : Db) × (p ≡ (proceed r, db)))
      ⊎ ((f : Failure) × (db : Db) × (p ≡ (halt f, db)))
DrawPhase-cases (proceed r, db) = inl (r, db, refl)
DrawPhase-cases (halt f, db) = inr (f, db, refl)

-- How many committed payments an end stands for.
abbrev pub failure_charge : Failure → ℕ
failure_charge post_commit_payment = 1
failure_charge _ = 0

abbrev pub charge : {Resp : Type 0} → Ending Resp → ℕ
charge (delivered _) = 1
charge (refused f) = failure_charge f
charge _ = 0

over_limit-charge :
    (rule : Option String) (limit q : Option ℤ) {f : Failure}
    → over_limit rule limit q ≡ some f
    → failure_charge f ≡ 0
over_limit-charge rule none q h = cc
over_limit-charge rule (some limit) none {f} h = let same : fmv_unavailable ≡ f = cc in rw (← same)
over_limit-charge rule (some limit) (some q) {f} h = elim (Bool-cases (ltb_ℤ limit q)) [
  | inr miss ↦ ground (arith, h, miss)
  | inl hit ↦
      let same : max_per_call_exceeded rule q limit ≡ f = ground (arith, h, hit) in rw (← same)
]

gate-charge :
    (reference : Option Currency) (d : PolicyDecision) (q : Option ℤ) {f : Failure}
    → max_per_call_gate reference d q ≡ some f
    → failure_charge f ≡ 0
gate-charge none d q h = cc
gate-charge (some _) d q h = over_limit-charge d.rule_name d.max_per_call q h

phase_of-charge :
    (r : Result DrawReceipt) {f : Failure} → phase_of r ≡ halt f → failure_charge f ≡ 0
phase_of-charge (ok receipt) h = cc
phase_of-charge (err x) {f} h = let same : budget x ≡ f = cc in rw (← same)

module _ {ed : Ed25519} {Req Resp Fund Cred : Type 0} (self : Auth ed Req Resp Fund Cred)
    (response : Resp) where
  -- The candidate has passed the filters of the router and the gate.
  pub record IsCleared (s : FailoverState) (c : Candidate Req Resp Fund) : Type 0 where
    pub filters : IsFeasible self.setup self.request response s.excluded_rails c
    pub gate : max_per_call_gate self.setup.reference_currency c.decision c.quote ≡ none

  -- An error of the draw phase is none of a committed payment.
  draw_quote-charge :
      (i : String) (rail : Rail) (n : ℕ) (q : Option ℤ) (db : Db) {f : Failure} {db' : Db}
      → draw_quote self i rail n q db ≡ (halt f, db')
      → failure_charge f ≡ 0
  draw_quote-charge i rail n none db {f} h =
      elim (Bool-cases (mem_rail rail self.envelope_allowed_rails)) [
        | inl listed ↦
            let same : fmv_unavailable ≡ f = ground (arith, ap (λ p. p.0) h, listed) in rw (← same)
        | inr other ↦ ground (arith, ap (λ p. p.0) h, other)
      ]
  draw_quote-charge i rail n (some q) db h = phase_of-charge _ (ap (λ p. p.0) h)

  draw_phase-charge :
      (c : Candidate Req Resp Fund) (n : ℕ) (db : Db) {f : Failure} {db' : Db}
      → draw_phase self c n db ≡ (halt f, db')
      → failure_charge f ≡ 0
  unfolding draw_phase
  draw_phase-charge c n db h =
      elim (Option-cases
        (drawing_envelope self.budget_store self.envelope_id self.envelope_currency)) [
          | inl off ↦ cc
          | inr (i, on) ↦ draw_quote-charge i c.adapter.rail n c.quote db (rw (on, draw_phase) at h)
        ]

  pub data TurnEnd (s : FailoverState) (w : World Req Resp Fund Cred) : Type 0 where
    -- The router or the gate raised.
    turned_away :
        (f : Failure) (entries : List StickyEntry)
        → failure_charge f ≡ 0
        → turn self response s w ≡ stop (refused f) (record w { sticky = entries })
        → TurnEnd s w
    -- The draw raised.
    undrawn :
        (c : Candidate Req Resp Fund) (f : Failure) (entries : List StickyEntry) (db : Db)
        → IsCleared s c
        → failure_charge f ≡ 0
        → draw_phase self c s.attempt w.db ≡ (halt f, db)
        → turn self response s w ≡ stop (refused f) (record w { sticky = entries; db = db })
        → TurnEnd s w
    -- `pay` was called.
    called :
        (c : Candidate Req Resp Fund) (r : Option DrawReceipt) (entries : List StickyEntry)
        (db : Db)
        → IsCleared s c
        → draw_phase self c s.attempt w.db ≡ (proceed r, db)
        → turn self response s w
          ≡ settle_outcome self s c r
              (record w { sticky = entries; db = db })
              (c.adapter.pay s.attempt c.challenge)
        → TurnEnd s w

  pub turn-cases : (s : FailoverState) (w : World Req Resp Fund Cred) → TurnEnd s w
  unfolding turn pay_candidate
  turn-cases s w =
      let (sticky_rail, entries) =
        lookup (self.times s.attempt).looked_up self.sticky_key w.sticky in
      elim (Routed-cases (
        decide self.setup self.request response s.excluded_rails sticky_rail s.prior_rail
          s.attempt)) [
            | inr (x, h) ↦ turned_away (route x) entries refl (rw (h, turn))
            | inl (choice, h) ↦
                let c = choice.candidate in
                let feasible =
                  (decide-IsFeasible self.setup self.request response s.excluded_rails sticky_rail
                    s.prior_rail s.attempt h).0 in
                elim (Option-cases
                  (max_per_call_gate self.setup.reference_currency c.decision c.quote)) [
                    | inr (f, closed) ↦
                        turned_away f entries
                          (gate-charge self.setup.reference_currency c.decision c.quote closed)
                          (rw (h, closed, turn, pay_candidate))
                    | inl open_gate ↦
                        let cleared : IsCleared s c = record {
                          filters = feasible;
                          gate = open_gate;
                        } in
                        elim (DrawPhase-cases (draw_phase self c s.attempt w.db)) [
                          | inl (r, db, e) ↦ called c r entries db cleared e (
                              rw (h, open_gate, e, turn, pay_candidate)
                                (rw (ap (λ (p : DrawPhase × Db). p.1) e)))
                          | inr (f, db, e) ↦
                              undrawn c f entries db cleared (draw_phase-charge c s.attempt w.db e)
                                e
                                (rw (h, open_gate, e, turn, pay_candidate)
                                  (rw (ap (λ (p : DrawPhase × Db). p.1) e)))
                        ]
                  ]
          ]

  Next-cases :
      (n : Next Req Resp Fund Cred)
      → ((e : Ending Resp) × (w : World Req Resp Fund Cred) × (n ≡ stop e w))
        ⊎ ((s : FailoverState) × (w : World Req Resp Fund Cred) × (n ≡ again s w))
  Next-cases (stop e w) = inl (e, w, refl)
  Next-cases (again s w) = inr (s, w, refl)

  -- What a turn makes of an invariant of the loop and a property of the end.
  abbrev pub After :
      (FailoverState → World Req Resp Fund Cred → Type 0)
      → (Ending Resp → World Req Resp Fund Cred → Type 0)
      → Next Req Resp Fund Cred
      → Type 0
  After I J (stop e w) = J e w
  After I J (again s w) = I s w

  -- Induction over the turns, with the fuel that is left.
  pub turns-After :
      (I : ℕ → FailoverState → World Req Resp Fund Cred → Type 0)
      (J : Ending Resp → World Req Resp Fund Cred → Type 0)
      → ((n : ℕ) (s : FailoverState) (w : World Req Resp Fund Cred)
          → I (suc n) s w
          → After (I n) J (turn self response s w))
      → ((s : FailoverState) (w : World Req Resp Fund Cred) → I 0 s w → J unfinished w)
      → (fuel : ℕ) (s : FailoverState) (w : World Req Resp Fund Cred) → I fuel s w
      → J (turns self fuel response s w).0 (turns self fuel response s w).1
  unfolding turns
  turns-After I J step dry zero s w h = dry s w h
  turns-After I J step dry (suc fuel) s w h = elim (Next-cases (turn self response s w)) [
    | inl (e, w', eq) ↦ rw (eq, turns) (rw eq at (step fuel s w h))
    | inr (s', w', eq) ↦
        rw (eq, turns) (turns-After I J step dry fuel s' w' (rw eq at (step fuel s w h)))
  ]
