-- ===== src/Tests/Rules.antt =====
-- The policy and the router on two rails: src/routeweiler/policy/ and routing/router.py.
use routeweiler_python_sdk.Prelude.{ℕ, ◌≡◌, refl, true, none, some, [], ◌∷◌, ◌↔◌, All}
use routeweiler_python_sdk.Prelude.Int.{pos}
use routeweiler_python_sdk.Normalized.{l402, mpp_tempo}
use routeweiler_python_sdk.Policy.{matches, url_matches, evaluate, decision_of}
use routeweiler_python_sdk.Policy.Matching.{Fits, matches_iff}
use routeweiler_python_sdk.Policy.FirstMatch.{evaluate_first}
use routeweiler_python_sdk.Routing.{
  Candidate, RoutingChoice, RouteError, decide, feasible, select_winner, key_lt, fmv_quote,
  decision_for,
}
use routeweiler_python_sdk.Routing as Routing
use routeweiler_python_sdk.Routing.Winner.{Loses, select_winner-IsLeast}
use routeweiler_python_sdk.Routing.Decide.{IsFeasible, decide-IsFeasible}
use routeweiler_python_sdk.Routing.Raises.{IsSuitable, decide_raises_iff}
use routeweiler_python_sdk.Tests.{lib, challenge, elsewhere, capped, policy, setup, broken, working}

matches_iff_example :
    (matches lib capped.condition (challenge l402) ≡ true)
    ↔ Fits lib (challenge l402) capped.condition
matches_iff_example = matches_iff lib (challenge l402) capped.condition

evaluate_first_example : evaluate lib policy (challenge l402) ≡ decision_of lib capped
unfolding matches url_matches
evaluate_first_example =
    evaluate_first lib (challenge l402) policy (elsewhere ∷ []) [] capped refl (refl, tt) refl

-- Two candidates with equal quotes, of which the second is preferred.
abbrev plain : Candidate ℕ ℕ ℕ
plain = record {
  adapter = working;
  challenge = challenge mpp_tempo;
  quote = some (pos 40);
  decision = decision_of lib capped;
}

abbrev preferred : Candidate ℕ ℕ ℕ
preferred = record plain { adapter = broken; challenge = challenge l402 }

select_winner-IsLeast_example :
    All
      (Loses
        (λ q. q)
        (some mpp_tempo)
        (select_winner (λ q. q) none (some mpp_tempo) plain (preferred ∷ [])))
      (plain ∷ preferred ∷ [])
select_winner-IsLeast_example =
    select_winner-IsLeast (λ q. q) (some mpp_tempo) none plain (preferred ∷ []) (λ a b h. h) refl

abbrev chosen : RoutingChoice ℕ ℕ ℕ
chosen = record { candidate = preferred; fallback_from = none; attempt = 0 }

decided : decide setup 0 402 [] none none 0 ≡ Routing.ok chosen
unfolding decide evaluate matches url_matches key_lt
decided = refl

decide-IsFeasible_example :
    IsFeasible setup 0 402 [] preferred × (chosen.fallback_from ≡ none) × (chosen.attempt ≡ 0)
decide-IsFeasible_example = decide-IsFeasible setup 0 402 [] none none 0 decided

decide_raises_iff_example :
    ((x : RouteError) × (decide setup 0 402 (l402 ∷ mpp_tempo ∷ []) none none 0 ≡ Routing.err x))
    ↔ All (λ a. IsSuitable setup 0 402 (l402 ∷ mpp_tempo ∷ []) a → ⊥) setup.adapters
decide_raises_iff_example = decide_raises_iff setup 0 402 (l402 ∷ mpp_tempo ∷ []) none none 0
