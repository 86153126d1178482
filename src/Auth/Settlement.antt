-- ===== src/Auth/Settlement.antt =====
-- The budget counter under the failover loop of src/routeweiler/_auth.py: its calls as steps of the
-- counter, and the row of each receipt.
use routeweiler_python_sdk.Prelude.{
  ℕ, suc, ◌<◌, String, All-Among, ◌≡◌, refl, ap, sym, ◌∙◌, inl, inr, Option, none, some, List, [],
  All, find?, arith, Bool-cases, ◌==◌,
}
use routeweiler_python_sdk.Prelude.Int.{ℤ, pos, ◌≤ℤ◌, ◌+ℤ◌}
use routeweiler_python_sdk.Budgets.Schema.{Currency, Envelope, DrawReceipt, Db}
use routeweiler_python_sdk.Budgets.Errors.{Result}
use routeweiler_python_sdk.Budgets.Receipts.{Ed25519}
use routeweiler_python_sdk.Budgets.Draw.{draw_sync, has_key, reserved_sum, settled_sum}
use routeweiler_python_sdk.Budgets.Draw.Sound.{Sound}
use routeweiler_python_sdk.Budgets.Draw.Runs.{draw, Run, start, and_then, Run-Sound}
use routeweiler_python_sdk.Routing.{Adapter, Candidate, PayOutcome, fmv_quote}
use routeweiler_python_sdk.Auth.{
  Auth, FailoverState, initial, Failure, refused, World, Payment, http_status_payment_required,
}
use routeweiler_python_sdk.Auth.Flow.{
  DrawPhase, proceed, halt, draw_request, draw_phase, settle_outcome, turn, async_auth_flow,
}
use routeweiler_python_sdk.Normalized.{NormalizedChallenge}
use routeweiler_python_sdk.Routing.Sticky.{StickyEntry}
use routeweiler_python_sdk.Auth.Turns.{
  IsCleared, turned_away, undrawn, called, turn-cases, After, turns-After,
}
use routeweiler_python_sdk.Auth.Passed.{phase_of-receipt}
use routeweiler_python_sdk.Auth.Rows.{draw_sync-IsSettled, IsSettled, draw_sync-Fresh}
use routeweiler_python_sdk.Auth.Draws.{
  key, undrawn_phase, denied_phase, drawn_phase, draw_phase-cases, Going, Done,
  settle_outcome-undrawn, settle_outcome-drawn, All-map,
}

module _ {ed : Ed25519} {Req Resp Fund Cred : Type 0} (self : Auth ed Req Resp Fund Cred)
    (response : Resp) where
  -- Prices that are not negative, of whatever an adapter reads from the response.
  abbrev pub HasPrices : Adapter Req Resp Fund → Type 0
  HasPrices a =
      (c : NormalizedChallenge) → a.parse self.request response ≡ some c → pos 0 ≤ℤ c.price.amount

  module _
      (distinct_keys : (m n : ℕ)
        → m < 5
        → n < 5
        → key self response m ≡ key self response n
        → m ≡ n)
      (nonneg : (c : String) (a : ℤ) (to : Currency) (q : ℤ)
        → pos 0 ≤ℤ a
        → self.setup.convert c a to ≡ some q
        → pos 0 ≤ℤ q)
      (priced : All HasPrices self.setup.adapters) where
    quote-nonneg :
        (c : Candidate Req Resp Fund) {q : ℤ}
        → pos 0 ≤ℤ c.challenge.price.amount
        → c.quote ≡ fmv_quote self.setup.convert self.setup.reference_currency c.challenge
        → c.quote ≡ some q
        → pos 0 ≤ℤ q
    quote-nonneg c p h k = go self.setup.reference_currency (sym h ∙ k)
      where
        go :
            (reference : Option Currency) {q : ℤ}
            → fmv_quote self.setup.convert reference c.challenge ≡ some q
            → pos 0 ≤ℤ q
        go none {q} e = let zero_quote : pos 0 ≡ q = cc in rw (← zero_quote) (omega arith)
        go (some to) e = nonneg c.challenge.price.currency c.challenge.price.amount to _ p e

    price-nonneg :
        (s : FailoverState) (c : Candidate Req Resp Fund)
        → IsCleared self response s c
        → pos 0 ≤ℤ c.challenge.price.amount
    price-nonneg s c cleared =
        All-Among HasPrices self.setup.adapters priced cleared.filters.listed c.challenge
          cleared.filters.parsed

    drawn-Run :
        (db₀ : Db) (n : ℕ) (i : String) (q : ℤ) (c : Candidate Req Resp Fund) (db : Db)
        {r : Result DrawReceipt} {db' : Db}
        → pos 0 ≤ℤ q
        → draw_sync ed self.posix self.files
            (self.times n).drawn
            (self.receipt_id n)
            (draw_request self i q c.adapter.rail n)
            db
          ≡ (r, db')
        → Run ed self.posix self.files db₀ db
        → Run ed self.posix self.files db₀ db'
    drawn-Run db₀ n i q c db k call ran = rw (← ap (λ (p : Result DrawReceipt × Db). p.1) call) (
        and_then ran (
          draw (self.times n).drawn (self.receipt_id n) (draw_request self i q c.adapter.rail n) db
            k))

    refused-Done :
        (db₀ : Db) (n : ℕ) (s : FailoverState) (w : World Req Resp Fund Cred)
        (c : Candidate Req Resp Fund) (f : Failure) (entries : List StickyEntry) (db : Db)
        → Going self response db₀ (suc n) s w
        → IsCleared self response s c
        → draw_phase self c s.attempt w.db ≡ (halt f, db)
        → Done self response db₀ (refused f) (record w { sticky = entries; db = db })
    refused-Done db₀ n s w c f entries db g cleared drew =
        elim (draw_phase-cases self response c s.attempt w.db) [
          | undrawn_phase e ↦ cc
          | denied_phase e ↦
              let same : w.db ≡ db = ap (λ (p : DrawPhase × Db). p.1) (sym e ∙ drew) in
              rw (← same) (record { ran = g.ran; settled = g.settled })
          | drawn_phase i q r db' known call e ↦
              let same : db' ≡ db = ap (λ (p : DrawPhase × Db). p.1) (sym e ∙ drew) in
              let k = quote-nonneg c (price-nonneg s c cleared) cleared.filters.quoted known in
              rw (← same) (record {
                ran = drawn-Run db₀ s.attempt i q c w.db k call g.ran;
                settled = rw (← ap (λ (p : Result DrawReceipt × Db). p.1) call) (
                    All-map self response w.payments
                      (λ p h.
                        draw_sync-IsSettled ed self.posix self.files _ _ _ w.db p.receipt p.outcome
                          h)
                      g.settled);
              })
        ]

    called-After :
        (db₀ : Db) (n : ℕ) (s : FailoverState) (w : World Req Resp Fund Cred)
        (c : Candidate Req Resp Fund) (r : Option DrawReceipt) (entries : List StickyEntry)
        (db : Db) (o : PayOutcome)
        → Going self response db₀ (suc n) s w
        → IsCleared self response s c
        → draw_phase self c s.attempt w.db ≡ (proceed r, db)
        → After self response
            (Going self response db₀ n)
            (Done self response db₀)
            (settle_outcome self s c r (record w { sticky = entries; db = db }) o)
    called-After db₀ n s w c r entries db o g cleared drew =
        elim (draw_phase-cases self response c s.attempt w.db) [
          | undrawn_phase e ↦
              let same : w.db ≡ db = ap (λ (p : DrawPhase × Db). p.1) (sym e ∙ drew) in
              let without : none ≡ r = cc in
              rw (← same, ← without)
                (settle_outcome-undrawn self response db₀ n s c (record w { sticky = entries }) o
                  (record { room = g.room; ran = g.ran; unkeyed = g.unkeyed; settled = g.settled }))
          | denied_phase e ↦ cc
          | drawn_phase i q x db' known call e ↦
              let same : db' ≡ db = ap (λ (p : DrawPhase × Db). p.1) (sym e ∙ drew) in
              let (t, came, held) =
                phase_of-receipt self x (ap (λ (p : DrawPhase × Db). p.0) (sym e ∙ drew)) in
              let k = quote-nonneg c (price-nonneg s c cleared) cleared.filters.quoted known in
              let f =
                draw_sync-Fresh ed self.posix self.files (self.times s.attempt).drawn
                  (self.receipt_id s.attempt) (draw_request self i q c.adapter.rail s.attempt) w.db
                  (g.unkeyed i s.attempt (omega arith) (omega (arith, g.room)))
                  (ap (λ (p : Result DrawReceipt × Db). p.0) call ∙ came) in
              rw (held, ← same)
                (settle_outcome-drawn self response distinct_keys db₀ n s c t i q w
                  (record w { sticky = entries; db = db' }) g refl (rw call at f)
                  (drawn-Run db₀ s.attempt i q c w.db k call g.ran) o)
        ]

    turn-After :
        (db₀ : Db) (n : ℕ) (s : FailoverState) (w : World Req Resp Fund Cred)
        → Going self response db₀ (suc n) s w
        → After self response
            (Going self response db₀ n)
            (Done self response db₀)
            (turn self response s w)
    turn-After db₀ n s w g = elim (turn-cases self response s w) [
      | turned_away f entries free eq ↦ rw eq (record { ran = g.ran; settled = g.settled })
      | undrawn c f entries db cleared free drew eq ↦
          rw eq (refused-Done db₀ n s w c f entries db g cleared drew)
      | called c r entries db cleared drew eq ↦ rw eq (
          called-After db₀ n s w c r entries db (c.adapter.pay s.attempt c.challenge) g cleared
            drew)
    ]

    module _ (w : World Req Resp Fund Cred) (clean : w.payments ≡ [])
        (unkeyed : (env : String) (m : ℕ)
          → m < 5
          → find? (has_key env (key self response m)) w.db.draws ≡ none) where
      async_auth_flow-Done :
          Done self response w.db
            (async_auth_flow self response w).0
            (async_auth_flow self response w).1
      unfolding async_auth_flow
      async_auth_flow-Done =
          elim (Bool-cases (self.status_code response == http_status_payment_required)) [
            | inl asked ↦ rw asked (
                turns-After self response (Going self response w.db) (Done self response w.db)
                  (turn-After w.db) (λ s w' g. record { ran = g.ran; settled = g.settled }) 5
                  initial w
                  (record {
                    room = omega arith;
                    ran = start;
                    unkeyed = λ env m le few. unkeyed env m few;
                    settled = rw clean tt;
                  }))
            | inr free ↦ rw free (record { ran = start; settled = rw clean tt })
          ]

      -- Where the adapters read no negative price, the conversion of no such price is negative, and the
      -- idempotency keys of the five attempts differ and none of them has a row yet, a flow that starts
      -- without payments leaves the row of every receipt that it paid with rolled back if `pay` failed,
      -- and else settled for the amount that it reserved.
      pub async_auth_flow-IsSettled :
          All
            (λ (p : Payment Req Resp Fund).
              IsSettled (async_auth_flow self response w).1.db p.receipt p.outcome)
            (async_auth_flow self response w).1.payments
      async_auth_flow-IsSettled = async_auth_flow-Done.settled

      -- Where the adapters read no negative price, the conversion of no such price is negative, and the
      -- idempotency keys of the five attempts differ and none of them has a row yet, a flow that starts
      -- without payments keeps the tables of a sound envelope sound, and what the envelope has reserved and
      -- settled is within its cap.
      pub async_auth_flow-Sound :
          (e : Envelope)
          → Sound e w.db
          → Sound e (async_auth_flow self response w).1.db
            × (reserved_sum e.id (async_auth_flow self response w).1.db
                  +ℤ settled_sum e.id (async_auth_flow self response w).1.db
                ≤ℤ e.cap_minor_units)
      async_auth_flow-Sound e h = Run-Sound e h async_auth_flow-Done.ran
