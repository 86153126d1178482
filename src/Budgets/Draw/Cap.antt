-- ===== src/Budgets/Draw/Cap.antt =====
-- The cap check of `draw_sync`: what one draw commits, when it is refused, and what its failures
-- after the COMMIT leave behind.
use routeweiler_python_sdk.Prelude.{ℕ, ◌<◌, String, ◌≡◌, refl, ap, Bool, none, some, find?, eq_refl}
use routeweiler_python_sdk.Prelude.Int.{pos, ◌+ℤ◌, ◌-ℤ◌, ◌≤ℤ◌, int_laws}
use routeweiler_python_sdk.Budgets.Schema.{Envelope, DrawReceipt, Db, active}
use routeweiler_python_sdk.Budgets.Errors.{ok, err, budget_exceeded}
use routeweiler_python_sdk.Budgets.Receipts.{Ed25519}
use routeweiler_python_sdk.Budgets.Keystore.{Files}
use routeweiler_python_sdk.Budgets.Draw.{
  DrawRequest, has_envelope_id, has_key, new_draw, reserved_sum, settled_sum, reserve_new, reserve,
  draw_sync, roll_back,
}
use routeweiler_python_sdk.Budgets.Draw.Sums.{committed, committed_amount, committed-eq-add}
use routeweiler_python_sdk.Budgets.Draw.Cases.{with_draw, committed-with_draw}
use routeweiler_python_sdk.Budgets.Draw.Drawn.{
  unchanged, again, drawn, left_reserved, undone, draw_sync-cases,
}

-- What the new row counts against its envelope, before and after it is rolled back.
new_draw-committed :
    (now : ℕ) (i : String) (q : DrawRequest)
    → (committed_amount q.envelope_id (new_draw now i q) ≡ q.amount)
      × (committed_amount q.envelope_id (roll_back (new_draw now i q)) ≡ pos 0)
new_draw-committed now i q =
    (rw (eq_refl q.envelope_id) (omega int_laws), rw (eq_refl q.envelope_id) (omega int_laws))

-- A new row takes its amount from the cap.
pub committed-new_draw :
    (now : ℕ) (i : String) (q : DrawRequest) (db : Db)
    → committed q.envelope_id (with_draw (new_draw now i q) db)
      ≡ committed q.envelope_id db +ℤ q.amount
committed-new_draw now i q db =
    rw (committed-with_draw q.envelope_id (new_draw now i q) db)
      (ap (λ a. committed q.envelope_id db +ℤ a) (new_draw-committed now i q).0)

-- A rolled-back one takes nothing.
pub committed-rolled_back :
    (now : ℕ) (i : String) (q : DrawRequest) (db : Db)
    → committed q.envelope_id (with_draw (roll_back (new_draw now i q)) db)
      ≡ committed q.envelope_id db
committed-rolled_back now i q db =
    rw (committed-with_draw q.envelope_id (roll_back (new_draw now i q)) db)
      (rw ((new_draw-committed now i q).1) (omega int_laws))

module _ (ed : Ed25519) (posix : Bool) (files : Files ed.PrivateKey) (now : ℕ) (i : String) where
  -- A draw under a new idempotency key that returns a receipt has added exactly its row, and what
  -- the envelope has reserved and settled together is then at most its cap.
  pub draw_sync-le-cap :
      (q : DrawRequest) (e : Envelope) (db : Db) {r : DrawReceipt}
      → find? (has_envelope_id q.envelope_id) db.envelopes ≡ some e
      → find? (has_key q.envelope_id q.idempotency_key) db.draws ≡ none
      → (draw_sync ed posix files now i q db).0 ≡ ok r
      → ((draw_sync ed posix files now i q db).1 ≡ with_draw (new_draw now i q) db)
        × (reserved_sum q.envelope_id (draw_sync ed posix files now i q db).1
              +ℤ settled_sum q.envelope_id (draw_sync ed posix files now i q db).1
            ≤ℤ e.cap_minor_units)
  draw_sync-le-cap q e db he hk h = elim (draw_sync-cases ed posix files now i q db) [
    | unchanged x eq ↦ cc
    | again e' d key _ hk' _ eq ↦ cc
    | drawn e' key he' _ fresh fits _ eq ↦
        let same : e' ≡ e = cc in
        rw eq (
          refl,
          rw (← committed-eq-add q.envelope_id (with_draw (new_draw now i q) db))
              (rw (committed-new_draw now i q db, ← same) fits),
        )
    | left_reserved e' x he' _ fresh fits _ eq ↦ cc
    | undone e' fresh eq ↦ cc
  ]

  -- On an active envelope a new draw of more than what is left is refused with that amount, and
  -- changes nothing.
  pub draw_sync_exceeds :
      (q : DrawRequest) (e : Envelope) (db : Db)
      → find? (has_envelope_id q.envelope_id) db.envelopes ≡ some e
      → e.status ≡ active
      → now < e.expires_at
      → find? (has_key q.envelope_id q.idempotency_key) db.draws ≡ none
      → ¬ (
          reserved_sum q.envelope_id db +ℤ settled_sum q.envelope_id db +ℤ q.amount
          ≤ℤ e.cap_minor_units)
      → draw_sync ed posix files now i q db ≡ (
        err (
            budget_exceeded q.envelope_id q.amount
              (e.cap_minor_units -ℤ reserved_sum q.envelope_id db -ℤ settled_sum q.envelope_id db)),
        db,
      )
  unfolding draw_sync reserve reserve_new
  draw_sync_exceeds q e db he ha ht hk h = grind int_laws
