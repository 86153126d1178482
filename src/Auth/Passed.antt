-- ===== src/Auth/Passed.antt =====
-- What a payment has passed before `pay` is called: the limit of its rule, and the draw.
use routeweiler_python_sdk.Prelude.{
  ℕ, String, ◌≡◌, refl, ap, inl, inr, false, Option, none, some, List, Option-cases, Bool-cases,
  arith, eq_iff, find?-some,
}
use routeweiler_python_sdk.Prelude.Int.{ℤ, ◌≤ℤ◌}
use routeweiler_python_sdk.Normalized.{Rail}
use routeweiler_python_sdk.Policy.{PolicyDecision}
use routeweiler_python_sdk.Budgets.Schema.{Currency, DrawReceipt, Db}
use routeweiler_python_sdk.Budgets.Errors.{Result, ok, err}
use routeweiler_python_sdk.Budgets.Receipts.{Ed25519, issue}
use routeweiler_python_sdk.Budgets.Draw.{DrawRequest, draw_sync, has_key, unsigned, new_draw}
use routeweiler_python_sdk.Budgets.Draw.Drawn.{
  unchanged, again, drawn, left_reserved, undone, draw_sync-cases,
}
use routeweiler_python_sdk.Routing.{Candidate, mem_rail}
use routeweiler_python_sdk.Auth.{Auth}
use routeweiler_python_sdk.Auth.Flow.{
  over_limit, max_per_call_gate, drawing_envelope, DrawPhase, proceed, phase_of, draw_quote,
  draw_phase,
}

-- A quote under a limit, where there are a reference currency and a limit.
abbrev pub WithinLimit : Option Currency → Option ℤ → Option ℤ → Type 0
WithinLimit none limit quote = Unit
WithinLimit (some _) none quote = Unit
WithinLimit (some _) (some limit) none = ⊥
WithinLimit (some _) (some limit) (some quote) = quote ≤ℤ limit

-- The receipt of a payment: one of the envelope that is drawn from where the quote is known, and none
-- where there is no envelope or where the quote is unknown on a rail that the envelope does not list.
abbrev pub Covered : Option String → List Rail → Rail → Option ℤ → Option DrawReceipt → Type 0
Covered none allowed rail quote receipt = receipt ≡ none
Covered (some i) allowed rail none receipt = (receipt ≡ none) × (mem_rail rail allowed ≡ false)
Covered (some i) allowed rail (some quote) receipt =
    (r : DrawReceipt) × (receipt ≡ some r) × (r.envelope_id ≡ i)

pub gate-WithinLimit :
    (reference : Option Currency) (d : PolicyDecision) (q : Option ℤ)
    → max_per_call_gate reference d q ≡ none
    → WithinLimit reference d.max_per_call q
gate-WithinLimit none d q h = tt
gate-WithinLimit (some r) d q h = go d.max_per_call q h
  where
    go : (limit q : Option ℤ) → over_limit d.rule_name limit q ≡ none → WithinLimit (some r) limit q
    go none q h = tt
    go (some limit) none h = cc
    go (some limit) (some q) h = ground (arith, h)

module _ {ed : Ed25519} {Req Resp Fund Cred : Type 0} (self : Auth ed Req Resp Fund Cred) where
  draw_sync-envelope :
      (now : ℕ) (i : String) (q : DrawRequest) (db : Db) {r : DrawReceipt}
      → (draw_sync ed self.posix self.files now i q db).0 ≡ ok r
      → r.envelope_id ≡ q.envelope_id
  unfolding issue
  draw_sync-envelope now i q db {r} h = elim (draw_sync-cases ed self.posix self.files now i q db) [
    | unchanged x eq ↦ cc
    | again e d key he hk hl eq ↦
        let known : r ≡ issue ed key (unsigned e d) = cc in
        let row = find?-some (has_key q.envelope_id q.idempotency_key) db.draws hk in
        rw known (ground (arith, row, eq_iff d.envelope_id q.envelope_id))
    | drawn e key he hk fresh fits hl eq ↦
        let known : r ≡ issue ed key (unsigned e (new_draw now i q)) = cc in rw known
    | left_reserved e x he hk fresh fits hl eq ↦ cc
    | undone e fresh eq ↦ cc
  ]

  pub phase_of-receipt :
      (r : Result DrawReceipt) {receipt : Option DrawReceipt}
      → phase_of r ≡ proceed receipt
      → (t : DrawReceipt) × (r ≡ ok t) × (receipt ≡ some t)
  phase_of-receipt (ok t) h = (t, refl, cc)
  phase_of-receipt (err x) h = cc

  pub draw_phase-Covered :
      (c : Candidate Req Resp Fund) (n : ℕ) (db : Db) {r : Option DrawReceipt} {db' : Db}
      → draw_phase self c n db ≡ (proceed r, db')
      → Covered
          (drawing_envelope self.budget_store self.envelope_id self.envelope_currency)
          self.envelope_allowed_rails
          c.adapter.rail
          c.quote
          r
  unfolding draw_phase
  draw_phase-Covered c n db {r} {db'} h =
      elim (Option-cases
        (drawing_envelope self.budget_store self.envelope_id self.envelope_currency)) [
          | inl off ↦ rw off cc
          | inr (i, on) ↦ rw on (go i c.quote (rw (on, draw_phase) at h))
        ]
    where
      go :
          (i : String) (q : Option ℤ)
          → draw_quote self i c.adapter.rail n q db ≡ (proceed r, db')
          → Covered (some i) self.envelope_allowed_rails c.adapter.rail q r
      go i none k = elim (Bool-cases (mem_rail c.adapter.rail self.envelope_allowed_rails)) [
        | inl listed ↦ ground (arith, k, listed)
        | inr other ↦ (ground (arith, k, other), other)
      ]
      go i (some q) k =
          let (t, drew, same) = phase_of-receipt _ (ap (λ (p : DrawPhase × Db). p.0) k) in
          (t, same, draw_sync-envelope _ _ _ db drew)
