-- ===== src/Budgets/Draw/Drawn.antt =====
-- The five ways in which `draw_sync` ends, each with the tables that it leaves.
use routeweiler_python_sdk.Prelude.{ℕ, String, ◌≡◌, Bool, none, some, inl, inr, find?, arith}
use routeweiler_python_sdk.Prelude.Int.{◌+ℤ◌, ◌≤ℤ◌}
use routeweiler_python_sdk.Budgets.Schema.{Envelope, Draw, Db}
use routeweiler_python_sdk.Budgets.Errors.{Error, ok, err, receipt_verification}
use routeweiler_python_sdk.Budgets.Receipts.{Ed25519, issue}
use routeweiler_python_sdk.Budgets.Keystore.{Files, load}
use routeweiler_python_sdk.Budgets.Draw.{
  DrawRequest, has_envelope_id, has_key, new_draw, unsigned, finish, draw_sync, roll_back,
}
use routeweiler_python_sdk.Budgets.Draw.Sums.{committed}
use routeweiler_python_sdk.Budgets.Draw.Cases.{
  with_draw, IsFresh, refused, replayed, added, reserve-cases, issued, keyless, distrusted,
  finish-cases, Result-cases,
}

module _ (ed : Ed25519) (posix : Bool) (files : Files ed.PrivateKey) (now : ℕ) (i : String) where
  pub data Drawn (q : DrawRequest) (db : Db) : Type 0 where
    -- The transaction raised.
    unchanged : (x : Error) → draw_sync ed posix files now i q db ≡ (err x, db) → Drawn q db
    -- The key has a row: its receipt again.
    again :
        (e : Envelope) (d : Draw) (key : ed.PrivateKey)
        → find? (has_envelope_id q.envelope_id) db.envelopes ≡ some e
        → find? (has_key q.envelope_id q.idempotency_key) db.draws ≡ some d
        → load posix d.envelope_id files ≡ ok key
        → draw_sync ed posix files now i q db ≡ (ok (issue ed key (unsigned e d)), db)
        → Drawn q db
    -- A new row and its receipt.
    drawn :
        (e : Envelope) (key : ed.PrivateKey)
        → find? (has_envelope_id q.envelope_id) db.envelopes ≡ some e
        → find? (has_key q.envelope_id q.idempotency_key) db.draws ≡ none
        → IsFresh i db
        → committed q.envelope_id db +ℤ q.amount ≤ℤ e.cap_minor_units
        → load posix q.envelope_id files ≡ ok key
        → draw_sync ed posix files now i q db
          ≡ (ok (issue ed key (unsigned e (new_draw now i q))), with_draw (new_draw now i q) db)
        → Drawn q db
    -- The key file is missing or readable by others: the row stays.
    left_reserved :
        (e : Envelope) (x : Error)
        → find? (has_envelope_id q.envelope_id) db.envelopes ≡ some e
        → find? (has_key q.envelope_id q.idempotency_key) db.draws ≡ none
        → IsFresh i db
        → committed q.envelope_id db +ℤ q.amount ≤ℤ e.cap_minor_units
        → load posix q.envelope_id files ≡ err x
        → draw_sync ed posix files now i q db ≡ (err x, with_draw (new_draw now i q) db)
        → Drawn q db
    -- The receipt failed its verification: the row is rolled back.
    undone :
        (e : Envelope)
        → IsFresh i db
        → draw_sync ed posix files now i q db
          ≡ (err receipt_verification, with_draw (roll_back (new_draw now i q)) db)
        → Drawn q db

  pub draw_sync-cases : (q : DrawRequest) (db : Db) → Drawn q db
  unfolding draw_sync finish
  draw_sync-cases q db = elim (reserve-cases now i q db) [
    | refused x no_room ↦ unchanged x (ground (arith, no_room))
    | replayed e d he hk known ↦ elim (Result-cases (load posix d.envelope_id files)) [
      | inl (key, hl) ↦ again e d key he hk hl (ground (arith, known, hl))
      | inr (x, hl) ↦ unchanged x (ground (arith, known, hl))
    ]
    | added e he hk fresh fits done ↦ elim (finish-cases ed posix files now i q e db fresh) [
      | issued key hl sent ↦ drawn e key he hk fresh fits hl (ground (arith, done, sent))
      | keyless x hl stuck ↦ left_reserved e x he hk fresh fits hl (ground (arith, done, stuck))
      | distrusted bad ↦ undone e fresh (ground (arith, done, bad))
    ]
  ]
