-- ===== src/Auth/Rows.antt =====
-- The row of a receipt in the draw table, as the failover loop draws, confirms and rolls back.
use routeweiler_python_sdk.Prelude.{
  ℕ, String, ◌≡◌, ◌≢◌, refl, ap, sym, Bool, false, Option, none, some, List, [], ◌∷◌, ◌++◌, any,
  map, find?, arith, eq_iff, eq_refl, ◌&&◌,
}
use routeweiler_python_sdk.Prelude.Int.{ℤ}
use routeweiler_python_sdk.Budgets.Schema.{
  Draw, DrawState, settled, rolled_back, is_reserved, DrawReceipt, Db,
}
use routeweiler_python_sdk.Budgets.Errors.{ok}
use routeweiler_python_sdk.Budgets.Receipts.{Ed25519, issue}
use routeweiler_python_sdk.Budgets.Keystore.{Files}
use routeweiler_python_sdk.Budgets.Draw.{
  DrawRequest, draw_sync, has_id, has_key, unsigned, new_draw, roll_back, settle, confirm_sync,
  rollback_sync,
}
use routeweiler_python_sdk.Budgets.Draw.Cases.{with_draw, IsFresh}
use routeweiler_python_sdk.Budgets.Draw.Drawn.{
  unchanged, again, drawn, left_reserved, undone, draw_sync-cases,
}
use routeweiler_python_sdk.Budgets.Draw.Replay.{find?-append_last}
use routeweiler_python_sdk.Budgets.Draw.Lifecycle.{
  updated, confirm_sync_lem, rollback_sync_lem, rollback_sync-state, other_draw,
}
use routeweiler_python_sdk.Routing.{PayOutcome, post_commit, failed}

find?-append_some :
    (p : Draw → Bool) (c d : Draw) (ds : List Draw)
    → find? p ds ≡ some c
    → find? p (ds ++ d ∷ []) ≡ some c
find?-append_some p c d [] h = cc
find?-append_some p c d (r ∷ ds) h = ground (arith, find?-append_some p c d ds)

find?-append_none :
    (p : Draw → Bool) (d : Draw) (ds : List Draw)
    → find? p ds ≡ none
    → p d ≡ false
    → find? p (ds ++ d ∷ []) ≡ none
find?-append_none p d [] h k = ground arith
find?-append_none p d (r ∷ ds) h k = ground (arith, find?-append_none p d ds)

find?-none_of_any : (p : Draw → Bool) (ds : List Draw) → any p ds ≡ false → find? p ds ≡ none
find?-none_of_any p [] h = refl
find?-none_of_any p (r ∷ ds) h = ground (arith, find?-none_of_any p ds)

-- An id that has a row is not one that has none.
fresh-ne :
    (i j : String) (d : Draw) (ds : List Draw)
    → any (has_id i) ds ≡ false
    → find? (has_id j) ds ≡ some d
    → j ≢ i
fresh-ne i j d ds fresh found same =
    let gone = find?-none_of_any (has_id i) ds fresh in let there = rw same at found in cc

-- The state and the settled amount in which the loop leaves the draw of a payment.
abbrev pub final_state : PayOutcome → DrawState
final_state failed = rolled_back
final_state _ = settled

abbrev pub charged : PayOutcome → ℤ → Option ℤ
charged failed amount = none
charged _ amount = some amount

-- The row of a receipt after the payment has ended.
abbrev pub IsSettled : Db → Option DrawReceipt → PayOutcome → Type 0
IsSettled db none o = Unit
IsSettled db (some r) o =
    (d : Draw) × (find? (has_id r.receipt_id) db.draws ≡ some d)
    × (d.state ≡ final_state o)
    × (d.amount_reserved ≡ r.amount_reserved)
    × (d.amount_settled ≡ charged o r.amount_reserved)

-- A new row keeps the earlier receipts as they are settled.
pub IsSettled-confirm :
    (i : String) (d : Draw) (now : ℕ) (amount : ℤ) (db : Db) (r : Option DrawReceipt)
    (o : PayOutcome)
    → IsFresh i db
    → IsSettled db r o
    → IsSettled (confirm_sync now i amount (with_draw d db)).1 r o
      × IsSettled (rollback_sync i (with_draw d db)).1 r o
IsSettled-confirm i d now amount db none o fresh s = (tt, tt)
IsSettled-confirm i d now amount db (some r) o fresh (c, found, state, owed, paid_up) =
    let ne = fresh-ne i r.receipt_id c db.draws fresh found in
    let here = find?-append_some (has_id r.receipt_id) c d db.draws found in
    let (confirmed, released) = other_draw i (with_draw d db) now amount r.receipt_id c ne here in
    ((c, confirmed, state, owed, paid_up), (c, released, state, owed, paid_up))

-- A search by idempotency key finds nothing after the calls that find no row of the key.
module _ (env key : String) where
  unkeyed-update :
      (p : Draw → Bool) (f : Draw → Draw) (ds : List Draw)
      → ((d : Draw) → has_key env key (f d) ≡ has_key env key d)
      → find? (has_key env key) ds ≡ none
      → find? (has_key env key) (map (updated p f) ds) ≡ none
  unkeyed-update p f [] keeps h = refl
  unkeyed-update p f (d ∷ ds) keeps h = ground (arith, keeps d, unkeyed-update p f ds keeps, h)

  pub unkeyed-rollback :
      (i : String) (db : Db)
      → find? (has_key env key) db.draws ≡ none
      → find? (has_key env key) (rollback_sync i db).1.draws ≡ none
  unkeyed-rollback i db h =
      rw (rollback_sync-state i db)
        (unkeyed-update (λ r. has_id i r && is_reserved r.state) roll_back db.draws (λ d. refl) h)

  pub unkeyed-append :
      (d : Draw) (db : Db)
      → find? (has_key env key) db.draws ≡ none
      → d.idempotency_key ≢ key
      → find? (has_key env key) (with_draw d db).draws ≡ none
  unkeyed-append d db h ne =
      find?-append_none (has_key env key) d db.draws h
        (ground (arith, ne, eq_iff d.idempotency_key key))

-- What a draw under a new key that returned a receipt has done.
pub record Fresh (now : ℕ) (i : String) (q : DrawRequest) (db : Db) (r : DrawReceipt) (db' : Db)
    : Type 0 where
  pub added : db' ≡ with_draw (new_draw now i q) db
  pub fresh : IsFresh i db
  pub id : r.receipt_id ≡ i
  pub amount : r.amount_reserved ≡ q.amount

pub draw_sync-Fresh :
    (ed : Ed25519) (posix : Bool) (files : Files ed.PrivateKey) (now : ℕ) (i : String)
    (q : DrawRequest) (db : Db) {r : DrawReceipt}
    → find? (has_key q.envelope_id q.idempotency_key) db.draws ≡ none
    → (draw_sync ed posix files now i q db).0 ≡ ok r
    → Fresh now i q db r (draw_sync ed posix files now i q db).1
unfolding issue
draw_sync-Fresh ed posix files now i q db {r} hk h =
    elim (draw_sync-cases ed posix files now i q db) [
      | unchanged x eq ↦ cc
      | again e d key he hk' hl eq ↦ cc
      | drawn e key he _ fresh fits hl eq ↦
          let known : r ≡ issue ed key (unsigned e (new_draw now i q)) = cc in
          record { added = rw eq; fresh = fresh; id = rw known; amount = rw known }
      | left_reserved e x he _ fresh fits hl eq ↦ cc
      | undone e fresh eq ↦ cc
    ]

-- The new row, and its receipt after each end of the payment.
module _ (now : ℕ) (i : String) (q : DrawRequest) (db : Db) where
  pub new_row :
      IsFresh i db
      → find? (has_id i) (with_draw (new_draw now i q) db).draws ≡ some (new_draw now i q)
  new_row fresh =
      find?-append_last (has_id i) (new_draw now i q) db.draws
        (find?-none_of_any (has_id i) db.draws fresh) (eq_refl i)

  pub new_row-IsSettled :
      (later : ℕ) (r : DrawReceipt)
      → IsFresh i db
      → r.receipt_id ≡ i
      → r.amount_reserved ≡ q.amount
      → IsSettled
          (confirm_sync later i q.amount (with_draw (new_draw now i q) db)).1
          (some r)
          post_commit
        × IsSettled (rollback_sync i (with_draw (new_draw now i q) db)).1 (some r) failed
  new_row-IsSettled later r fresh same owed =
      let confirmed =
        (confirm_sync_lem i (with_draw (new_draw now i q) db) later q.amount (new_draw now i q)
          (new_row fresh)).1 in
      let released =
        (rollback_sync_lem i (with_draw (new_draw now i q) db) (new_draw now i q)
          (new_row fresh)).1 in
      (
        (
          settle later q.amount (new_draw now i q),
          rw same confirmed,
          refl,
          sym owed,
          ap some (sym owed),
        ),
        (roll_back (new_draw now i q), rw same released, refl, sym owed, refl),
      )

-- A draw keeps the receipts that are settled, whatever its result.
append-IsSettled :
    (d : Draw) (db : Db) (r : Option DrawReceipt) (o : PayOutcome)
    → IsSettled db r o
    → IsSettled (with_draw d db) r o
append-IsSettled d db none o h = tt
append-IsSettled d db (some r) o (c, found, state, owed, paid_up) =
    (c, find?-append_some (has_id r.receipt_id) c d db.draws found, state, owed, paid_up)

pub draw_sync-IsSettled :
    (ed : Ed25519) (posix : Bool) (files : Files ed.PrivateKey) (now : ℕ) (i : String)
    (q : DrawRequest) (db : Db) (r : Option DrawReceipt) (o : PayOutcome)
    → IsSettled db r o
    → IsSettled (draw_sync ed posix files now i q db).1 r o
draw_sync-IsSettled ed posix files now i q db r o h =
    elim (draw_sync-cases ed posix files now i q db) [
      | unchanged x eq ↦ rw eq h
      | again e d key he hk hl eq ↦ rw eq h
      | drawn e key he _ fresh fits hl eq ↦ rw eq (append-IsSettled (new_draw now i q) db r o h)
      | left_reserved e x he _ fresh fits hl eq ↦
          rw eq (append-IsSettled (new_draw now i q) db r o h)
      | undone e fresh eq ↦ rw eq (append-IsSettled (roll_back (new_draw now i q)) db r o h)
    ]
