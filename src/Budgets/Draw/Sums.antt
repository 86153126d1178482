-- ===== src/Budgets/Draw/Sums.antt =====
-- The sums of the cap check under the writes of the draw table.
use routeweiler_python_sdk.Prelude.{
  String, ◌≡◌, true, false, List, [], ◌∷◌, ◌++◌, map, All, any, find?, some, inl, inr, Bool-cases,
  arith, eq_iff,
}
use routeweiler_python_sdk.Prelude.Int.{ℤ, ◌+ℤ◌, ◌≤ℤ◌, int_laws}
use routeweiler_python_sdk.Budgets.Schema.{Draw, Db}
use routeweiler_python_sdk.Budgets.Draw.{
  sum, reserved_amount, settled_amount, reserved_sum, settled_sum, has_id,
}

-- What a draw counts against the cap of its envelope.
abbrev pub committed_amount : String → Draw → ℤ
committed_amount env d = reserved_amount env d +ℤ settled_amount env d

-- What an envelope has committed: the reserved and the settled amounts.
unfoldable pub committed : String → Db → ℤ
committed env db = sum (committed_amount env) db.draws

sum_add : (f g : Draw → ℤ) (ds : List Draw) → sum (λ d. f d +ℤ g d) ds ≡ sum f ds +ℤ sum g ds
sum_add f g [] = omega int_laws
sum_add f g (d ∷ ds) = rw (sum_add f g ds) (omega int_laws)

pub committed-eq-add :
    (env : String) (db : Db) → committed env db ≡ reserved_sum env db +ℤ settled_sum env db
unfolding committed reserved_sum settled_sum
committed-eq-add env db = sum_add (reserved_amount env) (settled_amount env) db.draws

pub sum-append : (f : Draw → ℤ) (ds : List Draw) (d : Draw) → sum f (ds ++ d ∷ []) ≡ sum f ds +ℤ f d
sum-append f [] d = omega int_laws
sum-append f (c ∷ ds) d = rw (sum-append f ds d) (omega int_laws)

-- A rewrite of the rows that raises no row's amount raises no sum.
pub sum-map-le :
    (f : Draw → ℤ) (g : Draw → Draw) (ds : List Draw)
    → All (λ d. f (g d) ≤ℤ f d) ds
    → sum f (map g ds) ≤ℤ sum f ds
sum-map-le f g [] h = omega arith
sum-map-le f g (d ∷ ds) h = omega (int_laws, sum-map-le f g ds h.1)

-- The ids of a table are distinct, as its PRIMARY KEY demands.
abbrev pub DistinctIds : List Draw → Type 0
DistinctIds [] = Unit
DistinctIds (d ∷ ds) = (any (has_id d.id) ds ≡ false) × DistinctIds ds

none_with_id :
    (i : String) (d : Draw) (ds : List Draw)
    → any (has_id i) ds ≡ false
    → All (λ r. has_id i r ≡ true → r ≡ d) ds
none_with_id i d [] h = tt
none_with_id i d (r ∷ ds) h = (λ e. ground arith, none_with_id i d ds (ground arith))

-- In such a table the row that a search by id finds is the only one with the id.
pub find?-unique :
    (i : String) (d : Draw) (ds : List Draw)
    → DistinctIds ds
    → find? (has_id i) ds ≡ some d
    → All (λ r. has_id i r ≡ true → r ≡ d) ds
find?-unique i d [] u e = tt
find?-unique i d (r ∷ ds) u e = elim (Bool-cases (has_id i r)) [
  | inl here ↦ (λ _. ground (arith, here), none_with_id i d ds (rw (← (eq_iff r.id i).0 here) u.0))
  | inr there ↦ (λ h. cc, find?-unique i d ds u.1 (ground arith))
]
