-- ===== src/Budgets/Draw/Lifecycle.antt =====
-- The transitions of a draw after it is reserved: `confirm_sync`, `rollback_sync` and the reaper.
use routeweiler_python_sdk.Prelude.{
  ℕ, String, ◌≡◌, refl, ◌≢◌, inl, inr, Bool, false, none, some, find?, find?-some,
  any_of_find?-none, filter, length, List, [], ◌∷◌, map, arith, eq_iff, ◌&&◌, ltb, Bool-cases,
  if◌then◌else◌,
}
use routeweiler_python_sdk.Prelude.Int.{ℤ}
use routeweiler_python_sdk.Budgets.Schema.{Draw, is_reserved, Db}
use routeweiler_python_sdk.Budgets.Errors.{ok, err, budget_error}
use routeweiler_python_sdk.Budgets.Draw.{
  has_id, roll_back, settle, can_settle, is_stale, update, rollback_sync, confirm_sync, reap_sync,
}

-- The row that an UPDATE makes of a row.
abbrev pub updated : (Draw → Bool) → (Draw → Draw) → Draw → Draw
updated p f d = if p d then f d else d

-- An UPDATE that keeps the ids changes what a search by id finds, and not whether it finds.
module _ (p : Draw → Bool) (f : Draw → Draw) (keeps : (d : Draw) → (f d).id ≡ d.id) where
  updated-has_id : (i : String) (d : Draw) → has_id i (updated p f d) ≡ has_id i d
  updated-has_id i d = elim (Bool-cases (p d)) [ inl hit ↦ rw (hit, keeps d) | inr miss ↦ rw miss ]

  pub find?-update_some :
      (i : String) (d : Draw) (ds : List Draw)
      → find? (has_id i) ds ≡ some d
      → find? (has_id i) (map (updated p f) ds) ≡ some (updated p f d)
  find?-update_some i d [] h = cc
  find?-update_some i d (r ∷ ds) h = elim (Bool-cases (has_id i r)) [
    | inl here ↦ let same : r ≡ d = ground (arith, here) in rw (updated-has_id i r, here, same)
    | inr there ↦ rw (updated-has_id i r, there) (find?-update_some i d ds (ground (arith, there)))
  ]

  pub find?-update_none :
      (i : String) (ds : List Draw)
      → find? (has_id i) ds ≡ none
      → find? (has_id i) (map (updated p f) ds) ≡ none
  find?-update_none i [] h = refl
  find?-update_none i (r ∷ ds) h = elim (Bool-cases (has_id i r)) [
    | inl here ↦ ground (arith, here)
    | inr there ↦ rw (updated-has_id i r, there) (find?-update_none i ds (ground (arith, there)))
  ]

-- Whatever its result, a rollback is one UPDATE.
pub rollback_sync-state :
    (i : String) (db : Db)
    → (rollback_sync i db).1 ≡ update (λ r. has_id i r && is_reserved r.state) roll_back db
unfolding rollback_sync
rollback_sync-state i db = ground arith

module _ (i : String) (db : Db) where
  -- Confirming a draw that exists settles it with the amount and the time, unless it is settled
  -- already: a draw that was rolled back, too.
  pub confirm_sync_lem :
      (now : ℕ) (amount : ℤ) (d : Draw)
      → find? (has_id i) db.draws ≡ some d
      → ((confirm_sync now i amount db).0 ≡ ok tt)
        × (find? (has_id i) (confirm_sync now i amount db).1.draws
            ≡ some (if can_settle d.state then settle now amount d else d))
  unfolding confirm_sync
  confirm_sync_lem now amount d h =
      let found =
        find?-update_some (λ r. has_id i r && can_settle r.state) (settle now amount) (λ _. refl) i
          d db.draws h in
      rw h (refl, rw (find?-some (has_id i) db.draws h) at found)

  -- Rolling back a draw that exists releases it if it is reserved, and else leaves it as it is.
  pub rollback_sync_lem :
      (d : Draw)
      → find? (has_id i) db.draws ≡ some d
      → ((rollback_sync i db).0 ≡ ok tt)
        × (find? (has_id i) (rollback_sync i db).1.draws
            ≡ some (if is_reserved d.state then roll_back d else d))
  unfolding rollback_sync
  rollback_sync_lem d h =
      let found =
        find?-update_some (λ r. has_id i r && is_reserved r.state) roll_back (λ _. refl) i d
          db.draws h in
      let found' = rw (find?-some (has_id i) db.draws h) at found in
      (ground (arith, found), rw (rollback_sync-state i db) found')

  -- An id that no draw has is an error of both, and nothing changes.
  unknown_draw :
      (now : ℕ) (amount : ℤ)
      → find? (has_id i) db.draws ≡ none
      → (confirm_sync now i amount db ≡ (err budget_error, db))
        × ((rollback_sync i db).0 ≡ err budget_error)
  unfolding confirm_sync rollback_sync
  unknown_draw now amount h =
      let dead = any_of_find?-none (has_id i) (λ r. is_reserved r.state) db.draws h in
      let missing =
        find?-update_none (λ r. has_id i r && is_reserved r.state) roll_back (λ _. refl) i db.draws
          h in
      (rw h, rw (dead, missing))

  -- A draw with another id is as it was after both.
  pub other_draw :
      (now : ℕ) (amount : ℤ) (j : String) (c : Draw)
      → j ≢ i
      → find? (has_id j) db.draws ≡ some c
      → (find? (has_id j) (confirm_sync now i amount db).1.draws ≡ some c)
        × (find? (has_id j) (rollback_sync i db).1.draws ≡ some c)
  unfolding confirm_sync rollback_sync
  other_draw now amount j c ne h =
      let stays : has_id i c ≡ false =
        ground (arith, eq_iff c.id i, eq_iff c.id j, find?-some (has_id j) db.draws h) in
      let confirmed =
        find?-update_some (λ r. has_id i r && can_settle r.state) (settle now amount) (λ _. refl) j
          c db.draws h in
      let released =
        find?-update_some (λ r. has_id i r && is_reserved r.state) roll_back (λ _. refl) j c
          db.draws h in
      (ground (arith, rw stays at confirmed), rw (rollback_sync-state i db) (rw stays at released))

none_stale :
    (now : ℕ) (ds : List Draw)
    → length (filter (is_stale now) (map (updated (is_stale now) roll_back) ds)) ≡ 0
none_stale now [] = refl
none_stale now (d ∷ ds) = ground (arith, none_stale now ds)

-- The reaper releases exactly the reserved draws that have expired: each draw that it finds is
-- rolled back if it is stale and else stays as it is, and no stale draw is left.
pub reap_sync_lem :
    (now : ℕ) (i : String) (d : Draw) (db : Db)
    → find? (has_id i) db.draws ≡ some d
    → (find? (has_id i) (reap_sync now db).1.draws
        ≡ some (if is_reserved d.state && ltb d.expires_at now then roll_back d else d))
      × ((reap_sync now (reap_sync now db).1).0 ≡ 0)
unfolding reap_sync
reap_sync_lem now i d db h =
    (find?-update_some (is_stale now) roll_back (λ _. refl) i d db.draws h, none_stale now db.draws)
