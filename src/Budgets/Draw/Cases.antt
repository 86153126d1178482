-- ===== src/Budgets/Draw/Cases.antt =====
-- The ways in which the two halves of `draw_sync` end: the transaction, and what follows the COMMIT.
use routeweiler_python_sdk.Prelude.{
  ℕ, String, ◌≡◌, refl, ◌⊎◌, inl, inr, Bool, true, false, ◌||◌, not, none, some, List, [], ◌∷◌,
  ◌++◌, find?, any, map, arith, str_eq, eq_refl, leb, Option-cases, Bool-cases, if◌then◌else◌, ◌&&◌,
}
use routeweiler_python_sdk.Prelude.Int.{◌+ℤ◌, ◌-ℤ◌, ◌≤ℤ◌, ltb_ℤ, int_laws}
use routeweiler_python_sdk.Budgets.Schema.{Envelope, Draw, DrawReceipt, Db, is_active, is_reserved}
use routeweiler_python_sdk.Budgets.Errors.{
  Error, Result, ok, err, budget_exceeded, integrity, receipt_verification, envelope_not_found,
  envelope_frozen, envelope_expired,
}
use routeweiler_python_sdk.Budgets.Receipts.{
  Ed25519, issue, verify_against_envelope, canonical_payload,
}
use routeweiler_python_sdk.Budgets.Keystore.{Files, load}
use routeweiler_python_sdk.Budgets.Draw.{
  DrawRequest, existing, inserted, has_envelope_id, has_id, has_key, new_draw, unsigned,
  reserved_sum, settled_sum, reserve_new, reserve, finish, roll_back, rollback_sync,
}
use routeweiler_python_sdk.Budgets.Draw.Sums.{
  committed, committed_amount, committed-eq-add, sum-append,
}

-- The table with one more row.
abbrev pub with_draw : Draw → Db → Db
with_draw d db = record db { draws = db.draws ++ d ∷ [] }

pub committed-with_draw :
    (env : String) (d : Draw) (db : Db)
    → committed env (with_draw d db) ≡ committed env db +ℤ committed_amount env d
unfolding committed
committed-with_draw env d db = sum-append (committed_amount env) db.draws d

-- No row has the id of the new one.
abbrev pub IsFresh : String → Db → Type 0
IsFresh i db = any (has_id i) db.draws ≡ false

-- A row that the new one would clash with.
abbrev clashes : String → DrawRequest → Db → Bool
clashes i q db = any (λ r. has_id i r || has_key q.envelope_id q.idempotency_key r) db.draws

any-or_left :
    (p q : Draw → Bool) (ds : List Draw) → any (λ r. p r || q r) ds ≡ false → any p ds ≡ false
any-or_left p q [] h = refl
any-or_left p q (d ∷ ds) h = ground (arith, any-or_left p q ds)

-- How the transaction of a draw ends.
pub data Reserved (now : ℕ) (i : String) (q : DrawRequest) (db : Db) : Type 0 where
  refused : (x : Error) → reserve now i q db ≡ (err x, db) → Reserved now i q db
  replayed :
      (e : Envelope) (d : Draw)
      → find? (has_envelope_id q.envelope_id) db.envelopes ≡ some e
      → find? (has_key q.envelope_id q.idempotency_key) db.draws ≡ some d
      → reserve now i q db ≡ (ok (existing e d), db)
      → Reserved now i q db
  added :
      (e : Envelope)
      → find? (has_envelope_id q.envelope_id) db.envelopes ≡ some e
      → find? (has_key q.envelope_id q.idempotency_key) db.draws ≡ none
      → IsFresh i db
      → committed q.envelope_id db +ℤ q.amount ≤ℤ e.cap_minor_units
      → reserve now i q db ≡ (ok (inserted e (new_draw now i q)), with_draw (new_draw now i q) db)
      → Reserved now i q db

-- The cap check and the INSERT raise and change nothing, or append the new row under the cap.
reserve_new-cases :
    (now : ℕ) (i : String) (q : DrawRequest) (e : Envelope) (db : Db)
    → ((x : Error) × (reserve_new now i q e db ≡ (err x, db)))
      ⊎ (reserve_new now i q e db
            ≡ (ok (inserted e (new_draw now i q)), with_draw (new_draw now i q) db)
          × (committed q.envelope_id db +ℤ q.amount ≤ℤ e.cap_minor_units)
          × IsFresh i db)
unfolding reserve_new
reserve_new-cases now i q e db =
    let available =
      e.cap_minor_units -ℤ reserved_sum q.envelope_id db -ℤ settled_sum q.envelope_id db in
    elim (Bool-cases (ltb_ℤ available q.amount)) [
      | inl over ↦ inl (budget_exceeded q.envelope_id q.amount available, ground arith)
      | inr under ↦
          elim (Bool-cases
            (clashes i q db || not (any (has_envelope_id q.envelope_id) db.envelopes))) [
              | inl bad ↦ inl (integrity, ground arith)
              | inr good ↦ inr (
                ground arith,
                grind (int_laws, committed-eq-add q.envelope_id db),
                any-or_left (has_id i) (has_key q.envelope_id q.idempotency_key) db.draws
                    (ground arith),
              )
            ]
    ]

-- Past the two guards, the key decides.
open_envelope-cases :
    (now : ℕ) (i : String) (q : DrawRequest) (e : Envelope) (db : Db)
    → find? (has_envelope_id q.envelope_id) db.envelopes ≡ some e
    → is_active e.status ≡ true
    → leb e.expires_at now ≡ false
    → Reserved now i q db
unfolding reserve
open_envelope-cases now i q e db he ha ht =
    elim (Option-cases (find? (has_key q.envelope_id q.idempotency_key) db.draws)) [
      | inr (d, hk) ↦ replayed e d he hk (rw (he, ha, ht, hk))
      | inl hk ↦ elim (reserve_new-cases now i q e db) [
        | inl (x, no_room) ↦ refused x (rw (he, ha, ht, hk) no_room)
        | inr (done, fits, fresh) ↦ added e he hk fresh fits (rw (he, ha, ht, hk) done)
      ]
    ]

pub reserve-cases : (now : ℕ) (i : String) (q : DrawRequest) (db : Db) → Reserved now i q db
unfolding reserve
reserve-cases now i q db =
    elim (Option-cases (find? (has_envelope_id q.envelope_id) db.envelopes)) [
      | inl missing ↦ refused envelope_not_found (rw missing)
      | inr (e, he) ↦ elim (Bool-cases (is_active e.status)) [
        | inr stopped ↦ refused envelope_frozen (rw (he, stopped))
        | inl ha ↦ elim (Bool-cases (leb e.expires_at now)) [
          | inl over ↦ refused envelope_expired (rw (he, ha, over))
          | inr ht ↦ open_envelope-cases now i q e db he ha ht
        ]
      ]
    ]

-- Verification reads the table only.
verify_against_envelope-cases :
    (ed : Ed25519) (r : DrawReceipt) (db : Db)
    → (verify_against_envelope ed r db ≡ (ok tt, db))
      ⊎ (verify_against_envelope ed r db ≡ (err receipt_verification, db))
unfolding verify_against_envelope
verify_against_envelope-cases ed r db =
    elim (Option-cases (find? (has_envelope_id r.envelope_id) db.envelopes)) [
      | inl missing ↦ inr (rw missing)
      | inr (e, he) ↦ elim (Bool-cases (str_eq e.counter_public_key r.counter_public_key)) [
        | inr swapped ↦ inr (rw (he, swapped))
        | inl same ↦
            elim (Bool-cases (ed.accepts r.counter_public_key r.signature (canonical_payload r))) [
              | inl good ↦ inl (rw (he, same, good))
              | inr bad ↦ inr (rw (he, same, bad))
            ]
      ]
    ]

-- The UPDATE of a rollback, on a table whose last row alone has the id.
abbrev is_live : String → Draw → Bool
is_live i r = has_id i r && is_reserved r.state

roll_back-append :
    (i : String) (d : Draw) (ds : List Draw)
    → any (has_id i) ds ≡ false
    → is_live i d ≡ true
    → map (λ r. if is_live i r then roll_back r else r) (ds ++ d ∷ []) ≡ ds ++ roll_back d ∷ []
roll_back-append i d [] h l = ground arith
roll_back-append i d (r ∷ ds) h l = ground (arith, roll_back-append i d ds)

any-append_last :
    (p : Draw → Bool) (d : Draw) (ds : List Draw) → p d ≡ true → any p (ds ++ d ∷ []) ≡ true
any-append_last p d [] h = ground arith
any-append_last p d (r ∷ ds) h = ground (arith, any-append_last p d ds)

-- The rollback of a row that has just been appended.
rollback_sync-with_draw :
    (now : ℕ) (i : String) (q : DrawRequest) (db : Db)
    → IsFresh i db
    → rollback_sync i (with_draw (new_draw now i q) db)
      ≡ (ok tt, with_draw (roll_back (new_draw now i q)) db)
unfolding rollback_sync
rollback_sync-with_draw now i q db fresh =
    let d = new_draw now i q in
    let live : is_live i d ≡ true = ground (arith, eq_refl i) in
    rw (any-append_last (is_live i) d db.draws live) (rw (roll_back-append i d db.draws fresh live))

-- What `finish` makes of a new row: a receipt, a missing key with the row still reserved, or a
-- failed verification with the row rolled back.
pub data Finished (ed : Ed25519) (posix : Bool) (files : Files ed.PrivateKey) (now : ℕ) (i : String)
    (q : DrawRequest) (e : Envelope) (db : Db) : Type 0 where
  issued :
      (key : ed.PrivateKey)
      → load posix q.envelope_id files ≡ ok key
      → finish ed posix files (inserted e (new_draw now i q)) (with_draw (new_draw now i q) db)
        ≡ (ok (issue ed key (unsigned e (new_draw now i q))), with_draw (new_draw now i q) db)
      → Finished ed posix files now i q e db
  keyless :
      (x : Error)
      → load posix q.envelope_id files ≡ err x
      → finish ed posix files (inserted e (new_draw now i q)) (with_draw (new_draw now i q) db)
        ≡ (err x, with_draw (new_draw now i q) db)
      → Finished ed posix files now i q e db
  distrusted :
      finish ed posix files (inserted e (new_draw now i q)) (with_draw (new_draw now i q) db)
        ≡ (err receipt_verification, with_draw (roll_back (new_draw now i q)) db)
      → Finished ed posix files now i q e db

pub Result-cases :
    {A : Type 0} (r : Result A) → ((a : A) × (r ≡ ok a)) ⊎ ((x : Error) × (r ≡ err x))
Result-cases (ok a) = inl (a, refl)
Result-cases (err x) = inr (x, refl)

pub finish-cases :
    (ed : Ed25519) (posix : Bool) (files : Files ed.PrivateKey) (now : ℕ) (i : String)
    (q : DrawRequest) (e : Envelope) (db : Db)
    → IsFresh i db
    → Finished ed posix files now i q e db
unfolding finish
finish-cases ed posix files now i q e db fresh =
    elim (Result-cases (load posix q.envelope_id files)) [
      | inr (x, h) ↦ keyless x h (rw h)
      | inl (key, h) ↦
          let receipt = issue ed key (unsigned e (new_draw now i q)) in
          elim (verify_against_envelope-cases ed receipt (with_draw (new_draw now i q) db)) [
            | inl good ↦ issued key h (ground (arith, h, good))
            | inr bad ↦
                distrusted (ground (arith, h, bad, rollback_sync-with_draw now i q db fresh))
          ]
    ]
