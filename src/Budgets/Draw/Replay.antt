-- ===== src/Budgets/Draw/Replay.antt =====
-- The idempotency of `draw_sync`, and the reservation that a failure after the COMMIT leaves.
use routeweiler_python_sdk.Prelude.{
  ℕ, ◌<◌, String, ◌≡◌, Bool, true, none, some, find?, List, [], ◌∷◌, ◌++◌, arith, eq_refl,
}
use routeweiler_python_sdk.Prelude.Int.{◌+ℤ◌}
use routeweiler_python_sdk.Budgets.Schema.{Envelope, Draw, DrawReceipt, Db, active}
use routeweiler_python_sdk.Budgets.Errors.{Error, ok, err}
use routeweiler_python_sdk.Budgets.Receipts.{Ed25519, issue}
use routeweiler_python_sdk.Budgets.Keystore.{Files, load}
use routeweiler_python_sdk.Budgets.Draw.{
  DrawRequest, Outcome, has_envelope_id, has_key, new_draw, unsigned, reserve, finish, draw_sync,
}
use routeweiler_python_sdk.Budgets.Draw.Sums.{committed}
use routeweiler_python_sdk.Budgets.Draw.Cases.{with_draw, refused, replayed, added, reserve-cases}
use routeweiler_python_sdk.Budgets.Draw.Cap.{committed-new_draw}
use routeweiler_python_sdk.Budgets.Draw.Drawn.{
  unchanged, again, drawn, left_reserved, undone, draw_sync-cases,
}

pub find?-append_last :
    (p : Draw → Bool) (d : Draw) (ds : List Draw)
    → find? p ds ≡ none
    → p d ≡ true
    → find? p (ds ++ d ∷ []) ≡ some d
find?-append_last p d [] h t = ground arith
find?-append_last p d (r ∷ ds) h t = ground (arith, find?-append_last p d ds)

module _ (ed : Ed25519) (posix : Bool) (files : Files ed.PrivateKey) where
  -- A key that has a row gets the receipt of the row, whatever else the request says.
  replay :
      (now : ℕ) (i : String) (q : DrawRequest) (e : Envelope) (d : Draw) (key : ed.PrivateKey)
      (db : Db)
      → find? (has_envelope_id q.envelope_id) db.envelopes ≡ some e
      → e.status ≡ active
      → now < e.expires_at
      → find? (has_key q.envelope_id q.idempotency_key) db.draws ≡ some d
      → load posix d.envelope_id files ≡ ok key
      → draw_sync ed posix files now i q db ≡ (ok (issue ed key (unsigned e d)), db)
  unfolding draw_sync reserve finish
  replay now i q e d key db he ha ht hk hl = ground (arith, he, hk, hl)

  -- After a draw that returned a receipt, a draw with the same envelope and idempotency key returns
  -- the same receipt and changes nothing, as long as the envelope is active and has not expired,
  -- whatever the other arguments are.
  pub draw_sync_again :
      (now now' : ℕ) (i i' : String) (q q' : DrawRequest) (e : Envelope) (db : Db) {r : DrawReceipt}
      → find? (has_envelope_id q.envelope_id) db.envelopes ≡ some e
      → e.status ≡ active
      → now' < e.expires_at
      → q'.envelope_id ≡ q.envelope_id
      → q'.idempotency_key ≡ q.idempotency_key
      → (draw_sync ed posix files now i q db).0 ≡ ok r
      → draw_sync ed posix files now' i' q' (draw_sync ed posix files now i q db).1
        ≡ (ok r, (draw_sync ed posix files now i q db).1)
  draw_sync_again now now' i i' q q' e db {r} he ha ht same_env same_key h =
      elim (draw_sync-cases ed posix files now i q db) [
        | unchanged x eq ↦ cc
        | again e' d key he' hk hl eq ↦
            let same : e' ≡ e = cc in
            let known : r ≡ issue ed key (unsigned e d) = cc in
            rw (eq, known)
              (replay now' i' q' e d key db (rw same_env he) ha ht (rw (same_env, same_key) hk) hl)
        | drawn e' key he' hk fresh fits hl eq ↦
            let same : e' ≡ e = cc in
            let known : r ≡ issue ed key (unsigned e (new_draw now i q)) = cc in
            rw (eq, known)
              (replay now' i' q' e (new_draw now i q) key (with_draw (new_draw now i q) db)
                (rw same_env he) ha ht
                (rw (same_env, same_key)
                  (find?-append_last (has_key q.envelope_id q.idempotency_key) (new_draw now i q)
                    db.draws hk (ground (arith, eq_refl q.envelope_id, eq_refl q.idempotency_key))))
                hl)
        | left_reserved e' x he' hk fresh fits hl eq ↦ cc
        | undone e' fresh eq ↦ cc
      ]

  -- A draw that its transaction accepts while the key file is missing or refused raises that error
  -- and leaves the row reserved: the amount stays taken from the cap.
  draw_sync_keyless :
      (now : ℕ) (i : String) (q : DrawRequest) (db : Db) {o : Outcome} {x : Error}
      → find? (has_key q.envelope_id q.idempotency_key) db.draws ≡ none
      → (reserve now i q db).0 ≡ ok o
      → load posix q.envelope_id files ≡ err x
      → (draw_sync ed posix files now i q db ≡ (err x, with_draw (new_draw now i q) db))
        × (committed q.envelope_id (with_draw (new_draw now i q) db)
            ≡ committed q.envelope_id db +ℤ q.amount)
  unfolding draw_sync finish
  draw_sync_keyless now i q db hk ho hl = elim (reserve-cases now i q db) [
    | refused x' eq ↦ cc
    | replayed e d he hk' eq ↦ cc
    | added e he _ fresh fits eq ↦ (ground (arith, eq, hl), committed-new_draw now i q db)
  ]
