-- ===== src/Budgets/Draw/Late.antt =====
-- A confirmation that comes after the reaper.
use mathlib.Core.Path.{ap}
use routeweiler_python_sdk.Prelude.{
  ℕ, String, ◌≡◌, refl, inl, inr, Bool, true, false, ◌&&◌, some, find?, any, map, List, [], ◌∷◌,
  arith, eq_iff, Bool-cases,
}
use routeweiler_python_sdk.Prelude.Int.{ℤ, pos, pos_part, neg_part, ◌+ℤ◌, int_laws}
use routeweiler_python_sdk.Budgets.Schema.{Envelope, Draw, rolled_back, Db}
use routeweiler_python_sdk.Budgets.Draw.{sum, has_id, settle, can_settle, confirm_sync}
use routeweiler_python_sdk.Budgets.Draw.Sums.{committed, committed_amount, DistinctIds}
use routeweiler_python_sdk.Budgets.Draw.Lifecycle.{updated}
use routeweiler_python_sdk.Budgets.Draw.Sound.{Sound, committed-settle, committed_of_rolled_back}

map-update_absent :
    (i : String) (q : Draw → Bool) (g : Draw → Draw) (ds : List Draw)
    → any (has_id i) ds ≡ false
    → map (updated (λ r. has_id i r && q r) g) ds ≡ ds
map-update_absent i q g [] h = refl
map-update_absent i q g (r ∷ ds) h = ground (arith, map-update_absent i q g ds)

-- One row of the table changes, and the sum with it.
sum-settle :
    (f : Draw → ℤ) (g : Draw → Draw) (i : String) (d : Draw) (ds : List Draw)
    → DistinctIds ds
    → find? (has_id i) ds ≡ some d
    → can_settle d.state ≡ true
    → sum f (map (updated (λ r. has_id i r && can_settle r.state) g) ds) +ℤ f d
      ≡ sum f ds +ℤ f (g d)
sum-settle f g i d [] u h live = cc
sum-settle f g i d (r ∷ ds) u h live = elim (Bool-cases (has_id i r)) [
  | inl here ↦
      let same : r ≡ d = ground (arith, here) in
      let alone = rw ((eq_iff r.id i).0 here) at (u.0) in
      rw (map-update_absent i (λ c. can_settle c.state) g ds alone, here, same, live)
        (omega int_laws)
  | inr there ↦
      let rest = sum-settle f g i d ds u.1 (ground (arith, there)) live in
      rw there (omega (int_laws, ap pos_part rest, ap neg_part rest))
]

-- A draw that was rolled back and is confirmed for its amount takes that amount from the cap again,
-- whether or not there is room for it.
confirm_late :
    (e : Envelope) (now : ℕ) (i : String) (d : Draw) (db : Db)
    → Sound e db
    → find? (has_id i) db.draws ≡ some d
    → d.state ≡ rolled_back
    → d.envelope_id ≡ e.id
    → committed e.id (confirm_sync now i d.amount_reserved db).1
      ≡ committed e.id db +ℤ d.amount_reserved
unfolding confirm_sync committed
confirm_late e now i d db s h late own =
    let moved =
      sum-settle (committed_amount e.id) (settle now d.amount_reserved) i d db.draws s.distinct h
        (rw late refl) in
    let before : committed_amount e.id d ≡ pos 0 = committed_of_rolled_back e.id d late in
    let after : committed_amount e.id (settle now d.amount_reserved d) ≡ d.amount_reserved =
      rw (committed-settle e.id now d.amount_reserved d, (eq_iff d.envelope_id e.id).1 own) in
    let moved' = rw (before, after) at moved in
    rw h (omega (int_laws, ap pos_part moved', ap neg_part moved'))
