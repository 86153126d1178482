-- ===== src/Routing/Decide.antt =====
-- What the filters of `decide` let through, and when `decide` raises.
use mathlib.Core.Path.{subst, sym, ap, ◌∙◌}
use routeweiler_python_sdk.Prelude.{
  ℕ, ◌≡◌, refl, ◌≢◌, inl, inr, true, false, Option, none, some, List, [], ◌∷◌, filter, All, Among,
  arith, Bool-cases, Option-cases, List-cases, ◌⊎◌, ◌↔◌,
}
use routeweiler_python_sdk.Normalized.{Rail, NormalizedChallenge}
use routeweiler_python_sdk.Policy.{PolicyDecision}
use routeweiler_python_sdk.Routing.{
  Adapter, Candidate, RoutingChoice, Setup, ok, err, RouteError, mem_rail, fmv_quote, decision_for,
  default_rail_of, is_handled, parse_candidates, policy_filter, funding_filter, quote_candidates,
  feasible, choose, select_winner, decide, exhausted, denial, no_feasible_rail,
}
use routeweiler_python_sdk.Routing.Winner.{select_winner-All}

module _ {Req Resp Fund : Type 0} (s : Setup Req Resp Fund) (request : Req) (response : Resp)
    (excluded : List Rail) where
  -- What a candidate has passed.
  pub record IsFeasible (c : Candidate Req Resp Fund) : Type 0 where
    pub listed : Among c.adapter s.adapters
    pub handles : c.adapter.can_handle response ≡ true
    pub remaining : mem_rail c.adapter.rail excluded ≡ false
    pub parsed : c.adapter.parse request response ≡ some c.challenge
    pub decided : c.decision ≡ decision_for s.lib s.policy c.challenge
    pub permitted : c.decision.deny ≡ false
    pub funded : c.adapter.match_funding c.challenge s.funding ≢ none
    pub quoted : c.quote ≡ fmv_quote s.convert s.reference_currency c.challenge

  abbrev Handled : Adapter Req Resp Fund → Type 0
  Handled a =
      (a.can_handle response ≡ true) × (mem_rail a.rail excluded ≡ false) × Among a s.adapters

  abbrev Parsed : Adapter Req Resp Fund × NormalizedChallenge → Type 0
  Parsed (a, c) = Handled a × (a.parse request response ≡ some c)

  abbrev Permitted : Adapter Req Resp Fund × NormalizedChallenge × PolicyDecision → Type 0
  Permitted (a, c, d) = Parsed (a, c) × (d ≡ decision_for s.lib s.policy c) × (d.deny ≡ false)

  abbrev Funded : Adapter Req Resp Fund × NormalizedChallenge × PolicyDecision → Type 0
  Funded (a, c, d) = Permitted (a, c, d) × (a.match_funding c s.funding ≢ none)

  is_handled_lem :
      (a : Adapter Req Resp Fund)
      → is_handled response excluded a ≡ true
      → (a.can_handle response ≡ true) × (mem_rail a.rail excluded ≡ false)
  is_handled_lem a h = (ground (arith, h), ground (arith, h))

  filter-Handled :
      (adapters : List (Adapter Req Resp Fund))
      → ((a : Adapter Req Resp Fund) → Among a adapters → Among a s.adapters)
      → All Handled (filter (is_handled response excluded) adapters)
  filter-Handled [] inside = tt
  filter-Handled (a ∷ rest) inside =
      let later = filter-Handled rest (λ b there. inside b (inr there)) in
      elim (Bool-cases (is_handled response excluded a)) [
        | inl h ↦
            rw h (((is_handled_lem a h).0, (is_handled_lem a h).1, inside a (inl refl)), later)
        | inr h ↦ rw h later
      ]

  parse_candidates-Parsed :
      (adapters : List (Adapter Req Resp Fund))
      → All Handled adapters
      → All Parsed (parse_candidates request response adapters)
  unfolding parse_candidates
  parse_candidates-Parsed [] h = tt
  parse_candidates-Parsed (a ∷ rest) h = elim (Option-cases (a.parse request response)) [
    | inl e ↦ rw (e, parse_candidates) (parse_candidates-Parsed rest h.1)
    | inr (c, e) ↦ rw (e, parse_candidates) ((h.0, e), parse_candidates-Parsed rest h.1)
  ]

  policy_filter-Permitted :
      (pairs : List (Adapter Req Resp Fund × NormalizedChallenge)) (last : Option PolicyDecision)
      → All Parsed pairs
      → All Permitted (policy_filter (decision_for s.lib s.policy) pairs last).0
  unfolding policy_filter
  policy_filter-Permitted [] last h = tt
  policy_filter-Permitted ((a, c) ∷ rest) last h =
      elim (Bool-cases (decision_for s.lib s.policy c).deny) [
        | inl e ↦ rw (e, policy_filter) (policy_filter-Permitted rest _ h.1)
        | inr e ↦ rw (e, policy_filter) ((h.0, refl, e), policy_filter-Permitted rest last h.1)
      ]

  funding_filter-Funded :
      (triples : List (Adapter Req Resp Fund × NormalizedChallenge × PolicyDecision))
      → All Permitted triples
      → All Funded (funding_filter s.funding triples)
  unfolding funding_filter
  funding_filter-Funded [] h = tt
  funding_filter-Funded ((a, c, d) ∷ rest) h = elim (Option-cases (a.match_funding c s.funding)) [
    | inl e ↦ rw (e, funding_filter) (funding_filter-Funded rest h.1)
    | inr (f, e) ↦ rw (e, funding_filter) ((h.0, λ absent. cc), funding_filter-Funded rest h.1)
  ]

  quote_candidates-IsFeasible :
      (triples : List (Adapter Req Resp Fund × NormalizedChallenge × PolicyDecision))
      → All Funded triples
      → All IsFeasible (quote_candidates (fmv_quote s.convert s.reference_currency) triples)
  unfolding quote_candidates
  quote_candidates-IsFeasible [] h = tt
  quote_candidates-IsFeasible ((a, c, d) ∷ rest) ((((handled, parse), decision, deny), fund), hs) =
      (
        record {
          listed = handled.2;
          handles = handled.0;
          remaining = handled.1;
          parsed = parse;
          decided = decision;
          permitted = deny;
          funded = fund;
          quoted = refl;
        },
        quote_candidates-IsFeasible rest hs,
      )

  feasible-IsFeasible : All IsFeasible (feasible s request response excluded)
  unfolding feasible
  feasible-IsFeasible = quote_candidates-IsFeasible _ (
      funding_filter-Funded _ (
        policy_filter-Permitted _ none
          (parse_candidates-Parsed _ (filter-Handled s.adapters (λ a there. there)))))

  -- The candidates that the policy filter is given, and what it returns.
  abbrev parsed_pairs : List (Adapter Req Resp Fund × NormalizedChallenge)
  parsed_pairs =
      parse_candidates request response (filter (is_handled response excluded) s.adapters)

  abbrev allowed_triples :
      List (Adapter Req Resp Fund × NormalizedChallenge × PolicyDecision) × Option PolicyDecision
  allowed_triples = policy_filter (decision_for s.lib s.policy) parsed_pairs none

  feasible-none : (allowed_triples.0 ≡ []) → feasible s request response excluded ≡ []
  unfolding feasible
  feasible-none h =
      ap
        (λ ts.
          quote_candidates (fmv_quote s.convert s.reference_currency) (funding_filter s.funding ts))
        h

  -- `decide` raises with nothing feasible, or chooses among what is feasible.
  decide-cases :
      (sticky prior : Option Rail) (attempt : ℕ)
      → ((x : RouteError) × (decide s request response excluded sticky prior attempt ≡ err x)
          × (feasible s request response excluded ≡ []))
        ⊎ (decide s request response excluded sticky prior attempt
            ≡ choose s sticky prior attempt (feasible s request response excluded))
  unfolding decide
  decide-cases sticky prior attempt =
      elim (List-cases (filter (is_handled response excluded) s.adapters)) [
        | inl e ↦ inl (exhausted excluded, rw (e, decide), feasible-none (rw e))
        | inr (a, as', e) ↦ elim (List-cases parsed_pairs) [
          | inl e' ↦ inl (no_feasible_rail, rw (e', e), feasible-none (rw e'))
          | inr (p, ps, e') ↦ elim (List-cases allowed_triples.0) [
            | inl e'' ↦ inl (denial allowed_triples.1, rw (e'', e', e), feasible-none e'')
            | inr (t, ts, e'') ↦ inr (rw (e'', e', e))
          ]
        ]
      ]

  choose-IsFeasible :
      (sticky prior : Option Rail) (attempt : ℕ) (cs : List (Candidate Req Resp Fund))
      {choice : RoutingChoice Req Resp Fund}
      → All IsFeasible cs
      → choose s sticky prior attempt cs ≡ ok choice
      → IsFeasible choice.candidate × (choice.fallback_from ≡ prior) × (choice.attempt ≡ attempt)
  choose-IsFeasible sticky prior attempt [] ps h = cc
  choose-IsFeasible sticky prior attempt (c ∷ rest) {choice} ps h =
      let w = select_winner s.float sticky (default_rail_of s.policy) c rest in
      let picked : w ≡ choice.candidate = cc in
      (
        subst IsFeasible picked
            (select_winner-All s.float (default_rail_of s.policy) IsFeasible sticky c rest ps),
        cc,
        cc,
      )

  choose-err :
      (sticky prior : Option Rail) (attempt : ℕ) (cs : List (Candidate Req Resp Fund))
      {x : RouteError}
      → choose s sticky prior attempt cs ≡ err x
      → cs ≡ []
  choose-err sticky prior attempt [] h = refl
  choose-err sticky prior attempt (c ∷ rest) h = cc

  -- The candidate that `decide` returns has one of the adapters and has passed every filter; the choice carries the rail that
  -- failed before and the number of the attempt.
  pub decide-IsFeasible :
      (sticky prior : Option Rail) (attempt : ℕ) {choice : RoutingChoice Req Resp Fund}
      → decide s request response excluded sticky prior attempt ≡ ok choice
      → IsFeasible choice.candidate × (choice.fallback_from ≡ prior) × (choice.attempt ≡ attempt)
  decide-IsFeasible sticky prior attempt h = elim (decide-cases sticky prior attempt) [
    | inl (x, raised, _) ↦ cc
    | inr chosen ↦
        choose-IsFeasible sticky prior attempt (feasible s request response excluded)
          feasible-IsFeasible (sym chosen ∙ h)
  ]

  -- `decide` raises exactly when the filters leave nothing.
  pub decide_raises-feasible :
      (sticky prior : Option Rail) (attempt : ℕ)
      → ((x : RouteError) × (decide s request response excluded sticky prior attempt ≡ err x))
        ↔ (feasible s request response excluded ≡ [])
  decide_raises-feasible sticky prior attempt = (
    λ (x, h). elim (decide-cases sticky prior attempt) [
      | inl (_, _, none_left) ↦ none_left
      | inr chosen ↦
          choose-err sticky prior attempt (feasible s request response excluded) (sym chosen ∙ h)
    ],
    λ h. elim (decide-cases sticky prior attempt) [
      | inl (x, raised, _) ↦ (x, raised)
      | inr chosen ↦ (no_feasible_rail, chosen ∙ ap (choose s sticky prior attempt) h)
    ],
  )
