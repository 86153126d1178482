-- ===== src/Budgets/Draw/Runs.antt =====
-- The cap over the runs of the counter: draws of amounts that are not negative, rollbacks, the reaper
-- and the confirmations of rows that are still reserved, for the amount they reserved.
use routeweiler_python_sdk.Prelude.{
  ℕ, String, ◌≡◌, refl, inl, inr, Bool, ◌&&◌, some, find?, arith, eq_iff, str_eq, Bool-cases,
}
use mathlib.Core.Path.{subst₂}
use routeweiler_python_sdk.Prelude.Int.{pos, ◌+ℤ◌, ◌≤ℤ◌, int_laws}
use routeweiler_python_sdk.Budgets.Schema.{Envelope, Draw, reserved, is_reserved, Db}
use routeweiler_python_sdk.Budgets.Receipts.{Ed25519}
use routeweiler_python_sdk.Budgets.Keystore.{Files}
use routeweiler_python_sdk.Budgets.Draw.{
  DrawRequest, has_envelope_id, has_id, new_draw, draw_sync, roll_back, settle, can_settle,
  is_stale, rollback_sync, confirm_sync, reap_sync, reserved_sum, settled_sum,
}
use routeweiler_python_sdk.Budgets.Draw.Sums.{committed, committed-eq-add, find?-unique}
use routeweiler_python_sdk.Budgets.Draw.Cases.{with_draw, committed-with_draw}
use routeweiler_python_sdk.Budgets.Draw.Drawn.{
  unchanged, again, drawn, left_reserved, undone, draw_sync-cases,
}
use routeweiler_python_sdk.Budgets.Draw.Lifecycle.{rollback_sync-state}
use routeweiler_python_sdk.Budgets.Draw.Sound.{
  Sound, updated-Sound, committed-reserved, committed-roll_back, roll_back-less, settle-less,
  with_draw-Sound,
}

-- One call on the counter by which the auth flow or the reaper moves the tables. A draw is
-- confirmed for what it reserved, before the reaper has rolled it back.
pub data Step (ed : Ed25519) (posix : Bool) (files : Files ed.PrivateKey) : Db → Db → Type 0 where
  draw :
      (now : ℕ) (i : String) (q : DrawRequest) (db : Db)
      → pos 0 ≤ℤ q.amount
      → Step ed posix files db (draw_sync ed posix files now i q db).1
  rollback : (i : String) (db : Db) → Step ed posix files db (rollback_sync i db).1
  reap : (now : ℕ) (db : Db) → Step ed posix files db (reap_sync now db).1
  confirm :
      (now : ℕ) (i : String) (d : Draw) (db : Db)
      → find? (has_id i) db.draws ≡ some d
      → d.state ≡ reserved
      → Step ed posix files db (confirm_sync now i d.amount_reserved db).1

pub data Run (ed : Ed25519) (posix : Bool) (files : Files ed.PrivateKey) (db : Db)
    : Db → Type 0 where
  start : Run ed posix files db db
  and_then :
      {s t : Db} → Run ed posix files db s → Step ed posix files s t → Run ed posix files db t

module _ (e : Envelope) where
  -- A row of another envelope takes nothing from this one's cap.
  new_draw-within :
      (e' : Envelope) (now : ℕ) (i : String) (q : DrawRequest) (db : Db)
      → Sound e db
      → find? (has_envelope_id q.envelope_id) db.envelopes ≡ some e'
      → committed q.envelope_id db +ℤ q.amount ≤ℤ e'.cap_minor_units
      → committed e.id (with_draw (new_draw now i q) db) ≤ℤ e.cap_minor_units
  new_draw-within e' now i q db s he fits =
      rw
        (
          committed-with_draw e.id (new_draw now i q) db,
          committed-reserved e.id (new_draw now i q) refl,
        )
        (elim (Bool-cases (str_eq q.envelope_id e.id)) [
          | inl own ↦
              let ids : q.envelope_id ≡ e.id = (eq_iff q.envelope_id e.id).0 own in
              let same : e' ≡ e = cc (ids, he, s.found) in
              let here : committed e.id db +ℤ q.amount ≤ℤ e.cap_minor_units =
                subst₂
                  (λ (x : String) (f : Envelope). committed x db +ℤ q.amount ≤ℤ f.cap_minor_units)
                  ids same fits in
              rw own here
          | inr other ↦ rw other (omega (int_laws, s.within))
        ])

  draw-Sound :
      (ed : Ed25519) (posix : Bool) (files : Files ed.PrivateKey) (now : ℕ) (i : String)
      (q : DrawRequest) (db : Db)
      → pos 0 ≤ℤ q.amount
      → Sound e db
      → Sound e (draw_sync ed posix files now i q db).1
  draw-Sound ed posix files now i q db k s = elim (draw_sync-cases ed posix files now i q db) [
    | unchanged x eq ↦ rw eq s
    | again e' d key he hk hl eq ↦ rw eq s
    | drawn e' key he hk fresh fits hl eq ↦ rw eq (
        with_draw-Sound e (new_draw now i q) db s fresh k (new_draw-within e' now i q db s he fits))
    | left_reserved e' x he hk fresh fits hl eq ↦ rw eq (
        with_draw-Sound e (new_draw now i q) db s fresh k (new_draw-within e' now i q db s he fits))
    | undone e' fresh eq ↦ rw eq (
        with_draw-Sound e (roll_back (new_draw now i q)) db s fresh k (
          rw
            (
              committed-with_draw e.id (roll_back (new_draw now i q)) db,
              committed-roll_back e.id (new_draw now i q),
            )
            (omega (int_laws, s.within))))
  ]

  rollback-Sound : (i : String) (db : Db) → Sound e db → Sound e (rollback_sync i db).1
  rollback-Sound i db s = rw (rollback_sync-state i db) (
      updated-Sound (λ r. has_id i r && is_reserved r.state) roll_back (λ _. (refl, refl)) e db
        (roll_back-less e.id (λ r. has_id i r && is_reserved r.state) db.draws
          (λ d hit. ground (arith, hit)) s.nonneg)
        s)

  reap-Sound : (now : ℕ) (db : Db) → Sound e db → Sound e (reap_sync now db).1
  unfolding reap_sync
  reap-Sound now db s =
      updated-Sound (is_stale now) roll_back (λ _. (refl, refl)) e db
        (roll_back-less e.id (is_stale now) db.draws (λ d hit. ground (arith, hit)) s.nonneg) s

  confirm-Sound :
      (now : ℕ) (i : String) (d : Draw) (db : Db)
      → find? (has_id i) db.draws ≡ some d
      → d.state ≡ reserved
      → Sound e db
      → Sound e (confirm_sync now i d.amount_reserved db).1
  unfolding confirm_sync
  confirm-Sound now i d db h live s = rw h (
      updated-Sound (λ r. has_id i r && can_settle r.state) (settle now d.amount_reserved)
        (λ _. (refl, refl)) e db
        (settle-less e.id now i d db.draws live (find?-unique i d db.draws s.distinct h)) s)

  Step-Sound :
      {ed : Ed25519} {posix : Bool} {files : Files ed.PrivateKey} {s t : Db}
      → Step ed posix files s t
      → Sound e s
      → Sound e t
  Step-Sound {ed} {posix} {files} (draw now i q db k) h = draw-Sound ed posix files now i q db k h
  Step-Sound (rollback i db) h = rollback-Sound i db h
  Step-Sound (reap now db) h = reap-Sound now db h
  Step-Sound (confirm now i d db found live) h = confirm-Sound now i d db found live h

  -- From tables that are sound for an envelope, a run of any length and order of draws, rollbacks,
  -- reaper runs and confirmations, in which each draw asks for an amount that is not negative and
  -- each confirmation is of a row that is still reserved, for the amount it reserved, leaves the
  -- tables sound, with at most the cap reserved and settled. Runs with a confirmation of a row that
  -- was rolled back or reaped, or for another amount, are not among them.
  pub Run-Sound :
      {ed : Ed25519} {posix : Bool} {files : Files ed.PrivateKey} {s t : Db}
      → Sound e s
      → Run ed posix files s t
      → Sound e t × (reserved_sum e.id t +ℤ settled_sum e.id t ≤ℤ e.cap_minor_units)
  Run-Sound h start = (h, rw (← committed-eq-add e.id _) h.within)
  Run-Sound h (and_then r st) =
      let kept = Step-Sound st (Run-Sound h r).0 in
      (kept, rw (← committed-eq-add e.id _) kept.within)
