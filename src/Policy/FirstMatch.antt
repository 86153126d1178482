-- ===== src/Policy/FirstMatch.antt =====
-- First match wins.
use routeweiler_python_sdk.Prelude.{◌≡◌, refl, true, false, List, [], ◌∷◌, ◌++◌, All}
use routeweiler_python_sdk.Normalized.{NormalizedChallenge}
use routeweiler_python_sdk.Policy.{
  UrlLib, PolicyRule, Policy, matches, evaluate_rules, evaluate, decision_of, default_decision,
}

module _ (lib : UrlLib) (c : NormalizedChallenge) where
  skip :
      (before rest : List PolicyRule)
      → All (λ r. matches lib r.condition c ≡ false) before
      → evaluate_rules lib (before ++ rest) c ≡ evaluate_rules lib rest c
  unfolding evaluate_rules
  skip [] rest h = refl
  skip (r ∷ before) rest h = rw (h.0) (skip before rest h.1)

  none_match :
      (rules : List PolicyRule)
      → All (λ r. matches lib r.condition c ≡ false) rules
      → evaluate_rules lib rules c ≡ default_decision
  unfolding evaluate_rules
  none_match [] h = refl
  none_match (r ∷ rules) h = rw (h.0) (none_match rules h.1)

  -- The first rule whose condition matches decides; the rules behind it have no effect.
  pub evaluate_first :
      (p : Policy) (before after : List PolicyRule) (r : PolicyRule)
      → p.rules ≡ before ++ r ∷ after
      → All (λ s. matches lib s.condition c ≡ false) before
      → matches lib r.condition c ≡ true
      → evaluate lib p c ≡ decision_of lib r
  unfolding evaluate
  evaluate_first p before after r e h m = rw (e, skip before (r ∷ after) h, m)

  -- Where no rule matches, the decision neither denies nor prefers nor caps anything.
  evaluate_default :
      (p : Policy)
      → All (λ s. matches lib s.condition c ≡ false) p.rules
      → evaluate lib p c ≡ default_decision
  unfolding evaluate
  evaluate_default p h = none_match p.rules h
