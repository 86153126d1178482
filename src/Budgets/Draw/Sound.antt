-- ===== src/Budgets/Draw/Sound.antt =====
-- What holds of the draw table between two calls, and the writes that keep it.
use routeweiler_python_sdk.Prelude.{
  ℕ, String, ◌≡◌, refl, inl, inr, Bool, true, false, ◌&&◌, some, find?, any, All, List, [], ◌∷◌,
  ◌++◌, map, arith, eq_iff, str_eq, Bool-cases, if◌then◌else◌,
}
use routeweiler_python_sdk.Prelude.Int.{ℤ, pos, ◌≤ℤ◌, int_laws}
use routeweiler_python_sdk.Budgets.Schema.{Envelope, Draw, reserved, rolled_back, is_reserved, Db}
use routeweiler_python_sdk.Budgets.Draw.{
  has_envelope_id, has_id, roll_back, settle, can_settle, update,
}
use routeweiler_python_sdk.Budgets.Draw.Sums.{committed, committed_amount, sum-map-le, DistinctIds}
use routeweiler_python_sdk.Budgets.Draw.Cases.{with_draw, IsFresh}
use routeweiler_python_sdk.Budgets.Draw.Lifecycle.{updated}

-- What holds of the tables and one envelope between two calls.
pub record Sound (e : Envelope) (db : Db) : Type 0 where
  pub found : find? (has_envelope_id e.id) db.envelopes ≡ some e
  pub distinct : DistinctIds db.draws
  pub nonneg : All (λ d. pos 0 ≤ℤ d.amount_reserved) db.draws
  pub within : committed e.id db ≤ℤ e.cap_minor_units

-- The UPDATEs keep ids distinct and amounts as they were reserved.
module _ (p : Draw → Bool) (f : Draw → Draw)
    (keeps : (d : Draw) → ((f d).id ≡ d.id) × ((f d).amount_reserved ≡ d.amount_reserved)) where
  any-updated :
      (i : String) (ds : List Draw) → any (has_id i) (map (updated p f) ds) ≡ any (has_id i) ds
  any-updated i [] = refl
  any-updated i (d ∷ ds) = ground (arith, keeps d, any-updated i ds)

  distinct-updated : (ds : List Draw) → DistinctIds ds → DistinctIds (map (updated p f) ds)
  distinct-updated [] h = tt
  distinct-updated (d ∷ ds) h = elim (Bool-cases (p d)) [
    | inl hit ↦ rw (hit, (keeps d).0) (rw (any-updated d.id ds) h.0, distinct-updated ds h.1)
    | inr miss ↦ rw miss (rw (any-updated d.id ds) h.0, distinct-updated ds h.1)
  ]

  nonneg-updated :
      (ds : List Draw)
      → All (λ d. pos 0 ≤ℤ d.amount_reserved) ds
      → All (λ d. pos 0 ≤ℤ d.amount_reserved) (map (updated p f) ds)
  nonneg-updated [] h = tt
  nonneg-updated (d ∷ ds) h = elim (Bool-cases (p d)) [
    | inl hit ↦ rw (hit, (keeps d).1) (h.0, nonneg-updated ds h.1)
    | inr miss ↦ rw miss (h.0, nonneg-updated ds h.1)
  ]

  -- An UPDATE that raises no row's share of the cap keeps the tables sound.
  pub updated-Sound :
      (e : Envelope) (db : Db)
      → All (λ d. committed_amount e.id (updated p f d) ≤ℤ committed_amount e.id d) db.draws
      → Sound e db
      → Sound e (update p f db)
  unfolding committed
  updated-Sound e db less s = record {
    found = s.found;
    distinct = distinct-updated db.draws s.distinct;
    nonneg = nonneg-updated db.draws s.nonneg;
    within =
        omega (arith, sum-map-le (committed_amount e.id) (updated p f) db.draws less, s.within);
  }

-- A reserved row counts its reserved amount, one that is rolled back nothing, and one that is
-- settled what it was settled for, each against its own envelope only.
pub committed-reserved :
    (env : String) (d : Draw)
    → d.state ≡ reserved
    → committed_amount env d ≡ (if str_eq d.envelope_id env then d.amount_reserved else pos 0)
committed-reserved env d h = rw h (elim (Bool-cases (str_eq d.envelope_id env)) [
  | inl own ↦ rw own (omega int_laws)
  | inr other ↦ rw other (omega int_laws)
])

pub committed_of_rolled_back :
    (env : String) (d : Draw) → d.state ≡ rolled_back → committed_amount env d ≡ pos 0
committed_of_rolled_back env d h = rw h (elim (Bool-cases (str_eq d.envelope_id env)) [
  | inl own ↦ rw own (omega int_laws)
  | inr other ↦ rw other (omega int_laws)
])

pub committed-roll_back : (env : String) (d : Draw) → committed_amount env (roll_back d) ≡ pos 0
committed-roll_back env d = committed_of_rolled_back env (roll_back d) refl

pub committed-settle :
    (env : String) (now : ℕ) (a : ℤ) (d : Draw)
    → committed_amount env (settle now a d) ≡ (if str_eq d.envelope_id env then a else pos 0)
committed-settle env now a d = elim (Bool-cases (str_eq d.envelope_id env)) [
  | inl own ↦ rw own (omega int_laws)
  | inr other ↦ rw other (omega int_laws)
]

-- Rolling reserved rows back frees what they reserved.
pub roll_back-less :
    (env : String) (p : Draw → Bool) (ds : List Draw)
    → ((d : Draw) → p d ≡ true → is_reserved d.state ≡ true)
    → All (λ d. pos 0 ≤ℤ d.amount_reserved) ds
    → All (λ d. committed_amount env (updated p roll_back d) ≤ℤ committed_amount env d) ds
roll_back-less env p [] live h = tt
roll_back-less env p (d ∷ ds) live h = (row, roll_back-less env p ds live h.1)
  where
    row : committed_amount env (updated p roll_back d) ≤ℤ committed_amount env d
    row = elim (Bool-cases (p d)) [
      | inr miss ↦ rw miss (omega arith)
      | inl hit ↦
          rw (hit, committed-roll_back env d, committed-reserved env d (ground (arith, live d hit)))
            (elim (Bool-cases (str_eq d.envelope_id env)) [
              | inl own ↦ rw own h.0
              | inr other ↦ rw other (omega arith)
            ])
    ]

-- Settling a live row for what it reserved keeps its share of the cap.
pub settle-less :
    (env : String) (now : ℕ) (i : String) (d : Draw) (ds : List Draw)
    → d.state ≡ reserved
    → All (λ r. has_id i r ≡ true → r ≡ d) ds
    → All
        (λ r.
          committed_amount env
            (updated (λ c. has_id i c && can_settle c.state) (settle now d.amount_reserved) r)
          ≤ℤ committed_amount env r)
        ds
settle-less env now i d [] live h = tt
settle-less env now i d (r ∷ ds) live h = (row, settle-less env now i d ds live h.1)
  where
    row :
        committed_amount env
          (updated (λ c. has_id i c && can_settle c.state) (settle now d.amount_reserved) r)
        ≤ℤ committed_amount env r
    row = elim (Bool-cases (has_id i r && can_settle r.state)) [
      | inr miss ↦ rw miss (omega arith)
      | inl hit ↦
          let same : r ≡ d = h.0 (ground (arith, hit)) in
          rw (hit, committed-settle env now d.amount_reserved r)
            (rw same (rw (committed-reserved env d live) (omega arith)))
    ]

any-append_ne :
    (i : String) (d : Draw) (ds : List Draw)
    → any (has_id i) ds ≡ false
    → has_id i d ≡ false
    → any (has_id i) (ds ++ d ∷ []) ≡ false
any-append_ne i d [] h k = ground arith
any-append_ne i d (r ∷ ds) h k = ground (arith, any-append_ne i d ds)

distinct-append :
    (d : Draw) (ds : List Draw)
    → DistinctIds ds
    → any (has_id d.id) ds ≡ false
    → DistinctIds (ds ++ d ∷ [])
distinct-append d [] u h = (refl, tt)
distinct-append d (r ∷ ds) u h = (
  any-append_ne r.id d ds u.0 (ground (arith, h, eq_iff r.id d.id, eq_iff d.id r.id)),
  distinct-append d ds u.1 (ground (arith, h)),
)

nonneg-append :
    (d : Draw) (ds : List Draw)
    → All (λ r. pos 0 ≤ℤ r.amount_reserved) ds
    → pos 0 ≤ℤ d.amount_reserved
    → All (λ r. pos 0 ≤ℤ r.amount_reserved) (ds ++ d ∷ [])
nonneg-append d [] h k = (k, tt)
nonneg-append d (r ∷ ds) h k = (h.0, nonneg-append d ds h.1 k)

-- A new row that leaves the envelope within its cap.
pub with_draw-Sound :
    (e : Envelope) (d : Draw) (db : Db)
    → Sound e db
    → IsFresh d.id db
    → pos 0 ≤ℤ d.amount_reserved
    → committed e.id (with_draw d db) ≤ℤ e.cap_minor_units
    → Sound e (with_draw d db)
with_draw-Sound e d db s fresh k fits = record {
  found = s.found;
  distinct = distinct-append d db.draws s.distinct fresh;
  nonneg = nonneg-append d db.draws s.nonneg k;
  within = fits;
}
