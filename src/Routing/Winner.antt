-- ===== src/Routing/Winner.antt =====
-- What `_select_winner` picks.
use routeweiler_python_sdk.Prelude.{
  ℕ, suc, ltb, ◌≡◌, ◌⊎◌, inl, inr, Bool, true, false, Option, none, some, List, [], ◌∷◌, All, arith,
  Bool-cases, Option-cases,
}
use mathlib.Core.Path.{subst, sym}
use routeweiler_python_sdk.Prelude.Int.{ℤ, ◌≤ℤ◌}
use routeweiler_python_sdk.Normalized.{Rail, rail_eq}
use routeweiler_python_sdk.Routing.Rank.{Dearer, Tied, Ranked, ranked, lost}
use routeweiler_python_sdk.Routing.{
  mem_rail, is_default, Key, Candidate, cost_lt, lex, key_lt, key_of, min_from, sticky_candidate,
  select_winner,
}

-- The order of keys is a total preorder with the places of the list left out.
key_lt_asymm : (a b : Key) → key_lt a b ≡ true → key_lt b a ≡ false
unfolding key_lt
key_lt_asymm a b h = ground arith

lex_trans :
    (ab ba bc cb ac ca r s t : Bool)
    → (ab ≡ false → bc ≡ false → ac ≡ false)
    → (bc ≡ false → ca ≡ false → ba ≡ false)
    → (ca ≡ false → ab ≡ false → cb ≡ false)
    → (r ≡ false → s ≡ false → t ≡ false)
    → lex ab ba r ≡ false
    → lex bc cb s ≡ false
    → lex ac ca t ≡ false
lex_trans ab ba bc cb ac ca r s t p q u v h k = ground arith

cost_lt_trans : (a b c : Option ℤ) → cost_lt a b ≡ false → cost_lt b c ≡ false → cost_lt a c ≡ false
cost_lt_trans a b c h k = ground arith

ltb_trans : (a b c : ℕ) → ltb a b ≡ false → ltb b c ≡ false → ltb a c ≡ false
ltb_trans a b c h k = ground arith

key_lt_trans : (a b c : Key) → key_lt a b ≡ false → key_lt b c ≡ false → key_lt a c ≡ false
unfolding key_lt
key_lt_trans a b c h k =
    lex_trans _ _ _ _ _ _ _ _ _ (cost_lt_trans a.cost_rank b.cost_rank c.cost_rank)
      (cost_lt_trans b.cost_rank c.cost_rank a.cost_rank)
      (cost_lt_trans c.cost_rank a.cost_rank b.cost_rank)
      (lex_trans _ _ _ _ _ _ _ _ _ (ltb_trans a.prefer_rank b.prefer_rank c.prefer_rank)
        (ltb_trans b.prefer_rank c.prefer_rank a.prefer_rank)
        (ltb_trans c.prefer_rank a.prefer_rank b.prefer_rank)
        (lex_trans _ _ _ _ _ _ _ _ _ (ltb_trans a.default_rank b.default_rank c.default_rank)
          (ltb_trans b.default_rank c.default_rank a.default_rank)
          (ltb_trans c.default_rank a.default_rank b.default_rank)
          (ltb_trans a.order_rank b.order_rank c.order_rank)))
      h k

abbrev first : Key → Key
first k = record k { order_rank = 0 }

key_lt-first : (a b : Key) → key_lt a b ≡ false → key_lt (first a) (first b) ≡ false
unfolding key_lt
key_lt-first a b h = ground arith

module _ {Req Resp Fund : Type 0} (float : ℤ → ℤ) (default : Option Rail) where
  -- Whether the rank of one candidate beats another's: a lower quote, then a preferred rail, then the
  -- default rail.
  abbrev beats : Candidate Req Resp Fund → Candidate Req Resp Fund → Bool
  beats a b = key_lt (key_of float default 0 a) (key_of float default 0 b)

  beats_of_key_lt :
      (n m : ℕ) (a b : Candidate Req Resp Fund)
      → key_lt (key_of float default n a) (key_of float default m b) ≡ false
      → beats a b ≡ false
  beats_of_key_lt n m a b h = key_lt-first (key_of float default n a) (key_of float default m b) h

  beats_self : (c : Candidate Req Resp Fund) → beats c c ≡ false
  unfolding key_lt
  beats_self c = ground arith

  beats_trans :
      (a b c : Candidate Req Resp Fund) → beats a b ≡ false → beats b c ≡ false → beats a c ≡ false
  beats_trans a b c =
      key_lt_trans (key_of float default 0 a) (key_of float default 0 b) (key_of float default 0 c)

  -- One round of `min`.
  min_from-better :
      (n m : ℕ) (best c : Candidate Req Resp Fund) (rest : List (Candidate Req Resp Fund))
      → key_lt (key_of float default n c) (key_of float default m best) ≡ true
      → min_from float default n best (key_of float default m best) (c ∷ rest)
        ≡ min_from float default (suc n) c (key_of float default n c) rest
  unfolding min_from
  min_from-better n m best c rest h = rw (h, min_from)

  min_from-worse :
      (n m : ℕ) (best c : Candidate Req Resp Fund) (rest : List (Candidate Req Resp Fund))
      → key_lt (key_of float default n c) (key_of float default m best) ≡ false
      → min_from float default n best (key_of float default m best) (c ∷ rest)
        ≡ min_from float default (suc n) best (key_of float default m best) rest
  unfolding min_from
  min_from-worse n m best c rest h = rw (h, min_from)

  select_winner-free :
      (sticky : Option Rail) (c : Candidate Req Resp Fund) (rest : List (Candidate Req Resp Fund))
      → sticky_candidate sticky (c ∷ rest) ≡ none
      → select_winner float sticky default c rest
        ≡ min_from float default 1 c (key_of float default 0 c) rest
  unfolding select_winner
  select_winner-free sticky c rest h = rw (h, select_winner)

  select_winner-sticky :
      (sticky : Option Rail) (c s : Candidate Req Resp Fund) (rest : List (Candidate Req Resp Fund))
      → sticky_candidate sticky (c ∷ rest) ≡ some s
      → select_winner float sticky default c rest ≡ s
  unfolding select_winner
  select_winner-sticky sticky c s rest h = rw (h, select_winner)

  -- No rank of the list beats that of `w`.
  abbrev IsLeast : Candidate Req Resp Fund → List (Candidate Req Resp Fund) → Type 0
  IsLeast w cs = All (λ d. beats d w ≡ false) cs

  min_from-IsLeast :
      (n m : ℕ) (best : Candidate Req Resp Fund) (rest : List (Candidate Req Resp Fund))
      → IsLeast (min_from float default n best (key_of float default m best) rest) (best ∷ rest)
  unfolding min_from
  min_from-IsLeast n m best [] = (beats_self best, tt)
  min_from-IsLeast n m best (c ∷ rest) =
      elim (Bool-cases (key_lt (key_of float default n c) (key_of float default m best))) [
        | inl better ↦
            let ih = min_from-IsLeast (suc n) n c rest in
            let w = min_from float default (suc n) c (key_of float default n c) rest in
            let lost = beats_of_key_lt m n best c (key_lt_asymm _ _ better) in
            subst (λ v. IsLeast v (best ∷ c ∷ rest)) (sym (min_from-better n m best c rest better))
              (beats_trans best c w lost ih.0, ih)
        | inr worse ↦
            let ih = min_from-IsLeast (suc n) m best rest in
            let w = min_from float default (suc n) best (key_of float default m best) rest in
            let lost = beats_of_key_lt n m c best worse in
            subst (λ v. IsLeast v (best ∷ c ∷ rest)) (sym (min_from-worse n m best c rest worse))
              (ih.0, (beats_trans c best w lost ih.0, ih.1))
      ]

  select_winner_lem :
      (sticky : Option Rail) (c : Candidate Req Resp Fund) (rest : List (Candidate Req Resp Fund))
      → sticky_candidate sticky (c ∷ rest) ≡ none
      → IsLeast (select_winner float sticky default c rest) (c ∷ rest)
  select_winner_lem sticky c rest h =
      subst (λ v. IsLeast v (c ∷ rest)) (sym (select_winner-free sticky c rest h))
        (min_from-IsLeast 1 0 c rest)

  -- A candidate that has no claim to win over `w`.
  abbrev pub Loses : Candidate Req Resp Fund → Candidate Req Resp Fund → Type 0
  Loses w d =
      Dearer d.quote w.quote
      ⊎ (Tied float d.quote w.quote
          × Ranked (mem_rail d.adapter.rail d.decision.prefer)
              (mem_rail w.adapter.rail w.decision.prefer) (is_default d.adapter.rail default)
              (is_default w.adapter.rail default))

  IsLeast-Loses :
      (w : Candidate Req Resp Fund) (ds : List (Candidate Req Resp Fund))
      → ((a b : ℤ) → a ≤ℤ b → float a ≤ℤ float b)
      → IsLeast w ds
      → All (Loses w) ds
  unfolding key_lt
  IsLeast-Loses w [] order h = tt
  IsLeast-Loses w (d ∷ ds) order h =
      (lost float d.quote w.quote _ order h.0 (ranked _ _ _ _), IsLeast-Loses w ds order h.1)

  -- Where the conversion to a float keeps the order and no candidate has the sticky rail, each candidate
  -- has a higher quote than the winner, or no quote where the winner has one, or else neither has a quote
  -- or their quotes are equal as floats. In the last two cases it is not preferred and the winner is, or
  -- both are alike in this and it has not the default rail or the winner has it.
  pub select_winner-IsLeast :
      (sticky : Option Rail) (c : Candidate Req Resp Fund) (rest : List (Candidate Req Resp Fund))
      → ((a b : ℤ) → a ≤ℤ b → float a ≤ℤ float b)
      → sticky_candidate sticky (c ∷ rest) ≡ none
      → All (Loses (select_winner float sticky default c rest)) (c ∷ rest)
  select_winner-IsLeast sticky c rest order h =
      IsLeast-Loses (select_winner float sticky default c rest) (c ∷ rest) order
        (select_winner_lem sticky c rest h)

  min_from-All :
      (P : Candidate Req Resp Fund → Type 0) (n m : ℕ) (best : Candidate Req Resp Fund)
      (rest : List (Candidate Req Resp Fund))
      → P best
      → All P rest
      → P (min_from float default n best (key_of float default m best) rest)
  unfolding min_from
  min_from-All P n m best [] p ps = p
  min_from-All P n m best (c ∷ rest) p ps =
      elim (Bool-cases (key_lt (key_of float default n c) (key_of float default m best))) [
        | inl better ↦
            subst P (sym (min_from-better n m best c rest better))
              (min_from-All P (suc n) n c rest ps.0 ps.1)
        | inr worse ↦
            subst P (sym (min_from-worse n m best c rest worse))
              (min_from-All P (suc n) m best rest p ps.1)
      ]

  find-All :
      (P : Candidate Req Resp Fund → Type 0) (sticky : Option Rail) (s : Candidate Req Resp Fund)
      (cs : List (Candidate Req Resp Fund))
      → All P cs
      → sticky_candidate sticky cs ≡ some s
      → P s
  find-All P none s cs ps h = cc
  find-All P (some r) s [] ps h = cc
  find-All P (some r) s (c ∷ cs) ps h = elim (Bool-cases (rail_eq c.adapter.rail r)) [
    | inl here ↦ let same : c ≡ s = ground (arith, here) in subst P same ps.0
    | inr there ↦ find-All P (some r) s cs ps.1 (ground (arith, there))
  ]

  -- Whatever holds of every candidate holds of the winner.
  pub select_winner-All :
      (P : Candidate Req Resp Fund → Type 0) (sticky : Option Rail) (c : Candidate Req Resp Fund)
      (rest : List (Candidate Req Resp Fund))
      → All P (c ∷ rest)
      → P (select_winner float sticky default c rest)
  select_winner-All P sticky c rest ps = elim (Option-cases (sticky_candidate sticky (c ∷ rest))) [
    | inl free ↦
        subst P (sym (select_winner-free sticky c rest free)) (min_from-All P 1 0 c rest ps.0 ps.1)
    | inr (s, hit) ↦
        subst P (sym (select_winner-sticky sticky c s rest hit))
          (find-All P sticky s (c ∷ rest) ps hit)
  ]
