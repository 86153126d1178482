-- ===== src/Routing/Raises.antt =====
-- When `decide` raises, in terms of the adapters alone.
use routeweiler_python_sdk.Prelude.{
  ◌≡◌, ◌≢◌, refl, ◌∙◌, sym, inl, inr, ℕ, true, false, Option, none, some, List, [], ◌∷◌, filter,
  All, arith, Bool-cases, Option-cases, ◌↔◌,
}
use routeweiler_python_sdk.Normalized.{Rail, NormalizedChallenge}
use routeweiler_python_sdk.Policy.{PolicyDecision}
use routeweiler_python_sdk.Routing.{
  Adapter, Candidate, Setup, err, RouteError, mem_rail, fmv_quote, decision_for, is_handled,
  parse_candidates, policy_filter, funding_filter, quote_candidates, feasible, decide,
}
use routeweiler_python_sdk.Routing.Decide.{decide_raises-feasible}

module _ {Req Resp Fund : Type 0} (s : Setup Req Resp Fund) (request : Req) (response : Resp)
    (excluded : List Rail) where
  -- An adapter that could pay: it handles the response and is not excluded, reads a challenge that the
  -- policy permits, and has a funding source for it.
  pub record IsSuitable (a : Adapter Req Resp Fund) : Type 0 where
    pub handles : a.can_handle response ≡ true
    pub remaining : mem_rail a.rail excluded ≡ false
    pub challenge : NormalizedChallenge
    pub parsed : a.parse request response ≡ some challenge
    pub permitted : (decision_for s.lib s.policy challenge).deny ≡ false
    pub funded : a.match_funding challenge s.funding ≢ none

  -- The filters on some adapters.
  abbrev left :
      List (Adapter Req Resp Fund) → Option PolicyDecision → List (Candidate Req Resp Fund)
  left adapters last = quote_candidates (fmv_quote s.convert s.reference_currency) (
      funding_filter s.funding
        (policy_filter (decision_for s.lib s.policy)
          (parse_candidates request response (filter (is_handled response excluded) adapters))
          last).0)

  data FirstOf (a : Adapter Req Resp Fund) (rest : List (Adapter Req Resp Fund))
      (last : Option PolicyDecision) : Type 0 where
    skipped :
        (later : Option PolicyDecision)
        → left (a ∷ rest) last ≡ left rest later
        → (IsSuitable a → ⊥)
        → FirstOf a rest last
    kept :
        (c : Candidate Req Resp Fund) (cs : List (Candidate Req Resp Fund))
        → left (a ∷ rest) last ≡ c ∷ cs
        → IsSuitable a
        → FirstOf a rest last

  first_of :
      (a : Adapter Req Resp Fund) (rest : List (Adapter Req Resp Fund))
      (last : Option PolicyDecision)
      → FirstOf a rest last
  unfolding parse_candidates policy_filter funding_filter quote_candidates
  first_of a rest last = elim (Bool-cases (is_handled response excluded a)) [
    | inr other ↦
        skipped last (rw other refl)
          (λ (y : IsSuitable a). ground (arith, other, y.handles, y.remaining))
    | inl handled ↦ elim (Option-cases (a.parse request response)) [
      | inl unread ↦
          skipped last (rw handled (rw (unread, parse_candidates) refl))
            (λ (y : IsSuitable a). cc (unread, y.parsed))
      | inr (c, read) ↦ elim (Bool-cases (decision_for s.lib s.policy c).deny) [
        | inl denied ↦
            skipped (some (decision_for s.lib s.policy c))
              (rw handled (rw (read, parse_candidates) (rw (denied, policy_filter) refl)))
              (λ (y : IsSuitable a).
                let same : c ≡ y.challenge = cc (read, y.parsed) in
                cc (rw same at denied, y.permitted))
        | inr permitted ↦ elim (Option-cases (a.match_funding c s.funding)) [
          | inl unfunded ↦
              skipped last
                (rw handled (
                  rw (read, parse_candidates)
                    (rw (permitted, policy_filter) (rw (unfunded, funding_filter) refl))))
                (λ (y : IsSuitable a).
                  let same : c ≡ y.challenge = cc (read, y.parsed) in
                  elim (y.funded (rw same at unfunded)) [ ])
          | inr (f, funded) ↦
              kept
                (record {
                  adapter = a;
                  challenge = c;
                  quote = fmv_quote s.convert s.reference_currency c;
                  decision = decision_for s.lib s.policy c;
                })
                (left rest last)
                (rw handled (
                  rw (read, parse_candidates)
                    (rw (permitted, policy_filter) (rw (funded, funding_filter) refl))))
                (record {
                  handles = ground (arith, handled);
                  remaining = ground (arith, handled);
                  challenge = c;
                  parsed = read;
                  permitted = permitted;
                  funded = λ absent. cc;
                })
        ]
      ]
    ]
  ]

  left_iff :
      (adapters : List (Adapter Req Resp Fund)) (last : Option PolicyDecision)
      → (left adapters last ≡ []) ↔ All (λ a. IsSuitable a → ⊥) adapters
  unfolding parse_candidates policy_filter funding_filter quote_candidates
  left_iff [] last = (λ h. tt, λ h. refl)
  left_iff (a ∷ rest) last = elim (first_of a rest last) [
    | skipped later same unsuitable ↦
        let (one, two) = left_iff rest later in
        (λ h. (unsuitable, one (sym same ∙ h)), λ h. same ∙ two h.1)
    | kept c cs some_left suitable ↦
        (λ h. let no : ⊥ = cc (some_left, h) in elim no [ ], λ h. elim (h.0 suitable) [ ])
  ]

  -- `decide` raises exactly when none of the adapters handles the response without being excluded, reads
  -- a challenge that the policy permits, and has a funding source for it.
  pub decide_raises_iff :
      (sticky prior : Option Rail) (attempt : ℕ)
      → ((x : RouteError) × (decide s request response excluded sticky prior attempt ≡ err x))
        ↔ All (λ a. IsSuitable a → ⊥) s.adapters
  unfolding feasible
  decide_raises_iff sticky prior attempt =
      let (one, two) = decide_raises-feasible s request response excluded sticky prior attempt in
      let (three, four) = left_iff s.adapters none in (λ h. three (one h), λ h. two (four h))
