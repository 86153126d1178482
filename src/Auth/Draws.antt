-- ===== src/Auth/Draws.antt =====
-- The draws of the failover loop: what the draw phase does, and what each outcome of `pay` leaves of a
-- fresh draw.
use routeweiler_python_sdk.Prelude.{
  ℕ, suc, ◌+◌, ◌≤◌, ◌<◌, String, ◌≡◌, refl, inl, inr, Bool, Option, none, some, List, [], ◌∷◌, All,
  find?, arith, Bool-cases, Option-cases,
}
use routeweiler_python_sdk.Prelude.Int.{ℤ}
use routeweiler_python_sdk.Budgets.Schema.{DrawReceipt, Db}
use routeweiler_python_sdk.Budgets.Errors.{Result}
use routeweiler_python_sdk.Budgets.Receipts.{Ed25519}
use routeweiler_python_sdk.Budgets.Keystore.{Files}
use routeweiler_python_sdk.Budgets.Draw.{DrawRequest, draw_sync, has_key, new_draw}
use routeweiler_python_sdk.Budgets.Draw.Cases.{with_draw}
use routeweiler_python_sdk.Budgets.Draw.Runs.{rollback, confirm, Run, and_then}
use routeweiler_python_sdk.Routing.{Candidate, PayOutcome, paid, post_commit, failed, mem_rail}
use routeweiler_python_sdk.Auth.{Auth, FailoverState, fmv_unavailable, Ending, World, Payment}
use routeweiler_python_sdk.Auth.Flow.{
  drawing_envelope, proceed, halt, phase_of, draw_request, draw_phase, confirm_draw_safe,
  rollback_safe, settle_outcome,
}
use routeweiler_python_sdk.Auth.Turns.{After}
use routeweiler_python_sdk.Auth.Rows.{
  IsSettled, IsSettled-confirm, unkeyed-rollback, unkeyed-append, Fresh, new_row, new_row-IsSettled,
}

-- The end of a payment whose draw was fresh.
module _ (ed : Ed25519) (posix : Bool) (files : Files ed.PrivateKey) (db₀ : Db) (now : ℕ)
    (i : String) (q : DrawRequest) (db : Db) (t : DrawReceipt) (db' : Db)
    (f : Fresh now i q db t db') where
  confirmed-fresh :
      (later : ℕ)
      → Run ed posix files db₀ db'
      → Run ed posix files db₀ (confirm_draw_safe later (some t) db')
        × IsSettled (confirm_draw_safe later (some t) db') (some t) post_commit
  unfolding confirm_draw_safe
  confirmed-fresh later ran =
      rw (f.added, f.id, f.amount)
        (
          and_then (rw f.added at ran) (
              confirm later i (new_draw now i q) (with_draw (new_draw now i q) db)
                (new_row now i q db f.fresh) refl),
          rw (f.id, f.amount) at ((new_row-IsSettled now i q db later t f.fresh f.id f.amount).0),
        )

  rolled-fresh :
      Run ed posix files db₀ db'
      → Run ed posix files db₀ (rollback_safe (some t) db')
        × IsSettled (rollback_safe (some t) db') (some t) failed
  unfolding rollback_safe
  rolled-fresh ran =
      rw (f.added, f.id, f.amount)
        (
          and_then (rw f.added at ran) (rollback i (with_draw (new_draw now i q) db)),
          rw (f.id, f.amount) at ((new_row-IsSettled now i q db 0 t f.fresh f.id f.amount).1),
        )

  -- The receipts of the earlier payments keep their rows.
  earlier-IsSettled :
      (later : ℕ) (r : Option DrawReceipt) (o : PayOutcome)
      → IsSettled db r o
      → IsSettled (confirm_draw_safe later (some t) db') r o
        × IsSettled (rollback_safe (some t) db') r o
  unfolding confirm_draw_safe rollback_safe
  earlier-IsSettled later r o h =
      let kept = IsSettled-confirm i (new_draw now i q) later t.amount_reserved db r o f.fresh h in
      rw (f.added, f.id) kept

module _ {ed : Ed25519} {Req Resp Fund Cred : Type 0} (self : Auth ed Req Resp Fund Cred)
    (response : Resp) where
  abbrev pub key : ℕ → String
  key n = self.idempotency_key self.request_id n

  -- The draw phase draws nothing, refuses, or draws the quote.
  pub data Phased (c : Candidate Req Resp Fund) (n : ℕ) (db : Db) : Type 0 where
    undrawn_phase : draw_phase self c n db ≡ (proceed none, db) → Phased c n db
    denied_phase : draw_phase self c n db ≡ (halt fmv_unavailable, db) → Phased c n db
    drawn_phase :
        (i : String) (q : ℤ) (r : Result DrawReceipt) (db' : Db)
        → c.quote ≡ some q
        → draw_sync ed self.posix self.files
            (self.times n).drawn
            (self.receipt_id n)
            (draw_request self i q c.adapter.rail n)
            db
          ≡ (r, db')
        → draw_phase self c n db ≡ (phase_of r, db')
        → Phased c n db

  pub draw_phase-cases : (c : Candidate Req Resp Fund) (n : ℕ) (db : Db) → Phased c n db
  unfolding draw_phase
  draw_phase-cases c n db =
      elim (Option-cases
        (drawing_envelope self.budget_store self.envelope_id self.envelope_currency)) [
          | inl off ↦ undrawn_phase (rw (off, draw_phase))
          | inr (i, on) ↦ elim (Option-cases c.quote) [
            | inl unknown ↦
                elim (Bool-cases (mem_rail c.adapter.rail self.envelope_allowed_rails)) [
                  | inl listed ↦ denied_phase (rw (on, unknown, listed, draw_phase))
                  | inr other ↦ undrawn_phase (rw (on, unknown, other, draw_phase))
                ]
            | inr (q, known) ↦ drawn_phase i q _ _ known refl (rw (on, known, draw_phase))
          ]
        ]

  -- What holds before a turn, with the fuel that is left.
  pub record Going (db₀ : Db) (n : ℕ) (s : FailoverState) (w : World Req Resp Fund Cred)
      : Type 0 where
    pub room : s.attempt + n ≤ 5
    pub ran : Run ed self.posix self.files db₀ w.db
    pub unkeyed :
        (env : String) (m : ℕ)
        → s.attempt ≤ m
        → m < 5
        → find? (has_key env (key m)) w.db.draws ≡ none
    pub settled : All (λ p. IsSettled w.db p.receipt p.outcome) w.payments

  -- What holds at the end.
  pub record Done (db₀ : Db) (e : Ending Resp) (w : World Req Resp Fund Cred) : Type 0 where
    pub ran : Run ed self.posix self.files db₀ w.db
    pub settled : All (λ p. IsSettled w.db p.receipt p.outcome) w.payments

  -- A payment without a draw leaves the counter alone.
  pub settle_outcome-undrawn :
      (db₀ : Db) (n : ℕ) (s : FailoverState) (c : Candidate Req Resp Fund)
      (w : World Req Resp Fund Cred) (o : PayOutcome)
      → Going db₀ (suc n) s w
      → After self response (Going db₀ n) (Done db₀) (settle_outcome self s c none w o)
  unfolding settle_outcome confirm_draw_safe rollback_safe
  settle_outcome-undrawn db₀ n s c w post_commit g = record {
    ran = g.ran;
    settled = (tt, g.settled);
  }
  settle_outcome-undrawn db₀ n s c w (paid p) g = record { ran = g.ran; settled = (tt, g.settled) }
  settle_outcome-undrawn db₀ n s c w failed g = record {
    room = omega (arith, g.room);
    ran = g.ran;
    unkeyed = λ env m le few. g.unkeyed env m (omega (arith, le)) few;
    settled = (tt, g.settled);
  }

  pub All-map :
      {P Q : Payment Req Resp Fund → Type 0} (ps : List (Payment Req Resp Fund))
      → ((p : Payment Req Resp Fund) → P p → Q p)
      → All P ps
      → All Q ps
  All-map [] f h = tt
  All-map (p ∷ ps) f h = (f p h.0, All-map ps f h.1)

  -- The earlier payments after the end of one with a fresh draw.
  earlier-All :
      (db₀ : Db) (now : ℕ) (i : String) (q : DrawRequest) (db : Db) (t : DrawReceipt) (db' : Db)
      (later : ℕ) (ps : List (Payment Req Resp Fund))
      → Fresh now i q db t db'
      → All (λ p. IsSettled db p.receipt p.outcome) ps
      → All (λ p. IsSettled (confirm_draw_safe later (some t) db') p.receipt p.outcome) ps
        × All (λ p. IsSettled (rollback_safe (some t) db') p.receipt p.outcome) ps
  earlier-All db₀ now i q db t db' later ps f h =
      let kept = λ (p : Payment Req Resp Fund).
        earlier-IsSettled ed self.posix self.files db₀ now i q db t db' f later p.receipt
          p.outcome in
      (All-map ps (λ p k. (kept p k).0) h, All-map ps (λ p k. (kept p k).1) h)

  -- A payment with a fresh draw settles its row.
  module _ (distinct_keys : (m n : ℕ) → m < 5 → n < 5 → key m ≡ key n → m ≡ n) (db₀ : Db) (n : ℕ)
      (s : FailoverState) (c : Candidate Req Resp Fund) (t : DrawReceipt) (i : String) (q : ℤ)
      (old w : World Req Resp Fund Cred) (g : Going db₀ (suc n) s old)
      (same : w.payments ≡ old.payments)
      (f : Fresh
        (self.times s.attempt).drawn
        (self.receipt_id s.attempt)
        (draw_request self i q c.adapter.rail s.attempt)
        old.db
        t
        w.db)
      (ran : Run ed self.posix self.files db₀ w.db) where
    unkeyed_later :
        (env : String) (m : ℕ)
        → suc s.attempt ≤ m
        → m < 5
        → find? (has_key env (key m)) (rollback_safe (some t) w.db).draws ≡ none
    unfolding rollback_safe
    unkeyed_later env m le few = unkeyed-rollback env (key m) t.receipt_id w.db (
        rw f.added (
          unkeyed-append env (key m) (new_draw _ _ _) old.db
            (g.unkeyed env m (omega (arith, le)) few)
            (λ clash.
              let same_attempt = distinct_keys s.attempt m (omega (arith, le, few)) few clash in
              let no : ⊥ = omega (arith, same_attempt, le) in elim no [ ])))

    committed-Done :
        (Run ed self.posix self.files db₀
          (confirm_draw_safe (self.times s.attempt).confirmed (some t) w.db))
        × IsSettled
            (confirm_draw_safe (self.times s.attempt).confirmed (some t) w.db)
            (some t)
            post_commit
        × All
            (λ (p : Payment Req Resp Fund).
              IsSettled
                (confirm_draw_safe (self.times s.attempt).confirmed (some t) w.db)
                p.receipt
                p.outcome)
            w.payments
    committed-Done =
        let later = (self.times s.attempt).confirmed in
        let (ran', now_settled) =
          confirmed-fresh ed self.posix self.files db₀ _ _ _ old.db t w.db f later ran in
        (
          ran',
          now_settled,
          rw same (earlier-All db₀ _ _ _ old.db t w.db later old.payments f g.settled).0,
        )

    pub settle_outcome-drawn :
        (o : PayOutcome)
        → After self response (Going db₀ n) (Done db₀) (settle_outcome self s c (some t) w o)
    unfolding settle_outcome
    settle_outcome-drawn post_commit = record {
      ran = committed-Done.0;
      settled = (committed-Done.1, committed-Done.2);
    }
    settle_outcome-drawn (paid p) = record {
      ran = committed-Done.0;
      settled = (committed-Done.1, committed-Done.2);
    }
    settle_outcome-drawn failed =
        let (ran', now_settled) =
          rolled-fresh ed self.posix self.files db₀ _ _ _ old.db t w.db f ran in
        record {
          room = omega (arith, g.room);
          ran = ran';
          unkeyed = unkeyed_later;
          settled = (
            now_settled,
            rw same (earlier-All db₀ _ _ _ old.db t w.db 0 old.payments f g.settled).1,
          );
        }
