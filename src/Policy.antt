-- ===== src/Policy.antt =====
-- src/routeweiler/policy/dsl.py and engine.py: rules, their conditions and the first match. The URL
-- parser, `str.lower` and `fnmatch.fnmatchcase` are Python's and stand as a parameter.
pub mod Matching
pub mod FirstMatch
use Prim.Native.Char.{code}
use routeweiler_python_sdk.Prelude.{
  String, Bool, true, false, Option, none, some, List, [], ◌∷◌, not, ◌&&◌, ◌||◌, str_eq, any, ◌==◌,
  if◌then◌else◌,
}
use routeweiler_python_sdk.Prelude.Int.{ℤ}
use routeweiler_python_sdk.Normalized.{
  Rail, Scheme, exact, RailRaw, x402_raw, l402_raw, mpp_tempo_raw, mpp_spt_raw, PaymentRequirements,
  NormalizedChallenge,
}

-- `urlsplit(url).hostname`, `s.lower()` and `fnmatchcase(name, pattern)`.
pub record UrlLib : Type 0 where
  pub hostname : String → Option String
  pub lower : String → String
  pub fnmatchcase : String → String → Bool

-- `RuleMatch`: `url_matches`, `scheme`, `network` and `any`, each of them optional.
mutual
  pub data RuleMatch : Type 0 where
    when : Option String → Option Scheme → Option String → AnyOf → RuleMatch

  pub data AnyOf : Type 0 where
    unset : AnyOf
    of : RuleMatches → AnyOf

  pub data RuleMatches : Type 0 where
    nil : RuleMatches
    cons : RuleMatch → RuleMatches → RuleMatches

-- `PolicyRule`
pub record PolicyRule : Type 0 where
  pub name : String
  pub condition : RuleMatch
  pub prefer : Option (List Rail)
  pub deny : Bool
  pub max_per_call : Option ℤ
  pub reason : Option String

-- `Policy`
pub record Policy : Type 0 where
  pub default_rail : Rail
  pub rules : List PolicyRule

-- `PolicyDecision`
pub record PolicyDecision : Type 0 where
  pub rule_name : Option String
  pub deny : Bool
  pub prefer : List Rail
  pub max_per_call : Option ℤ
  pub reason : Option String

-- `_default_decision`
abbrev pub default_decision : PolicyDecision
default_decision = record {
  rule_name = none;
  deny = false;
  prefer = [];
  max_per_call = none;
  reason = none;
}

-- `_at_least_one_condition`: whether the validator accepts the condition.
unfoldable pub at_least_one_condition : RuleMatch → Bool
at_least_one_condition (when none none none unset) = false
at_least_one_condition (when none none none (of nil)) = false
at_least_one_condition _ = true

-- `"/" in pattern`
unfoldable pub has_slash : String → Bool
has_slash String.[] = false
has_slash (String.◌∷◌ c s) = code c == b'/' || has_slash s

-- `_network_matches`
unfoldable pub network_matches : String → NormalizedChallenge → Bool
network_matches network c = elim c.raw [
  | x402_raw accepts ↦ any (λ (r : PaymentRequirements). str_eq r.network network) accepts
  | _ ↦ false
]

module _ (lib : UrlLib) where
  open lib use {hostname, lower, fnmatchcase}

  abbrev host_matches : Option String → String → Bool
  host_matches none pattern = false
  host_matches (some host) pattern = fnmatchcase (lower host) (lower pattern)

  -- `_url_matches`
  unfoldable pub url_matches : String → String → Bool
  unfolding has_slash
  url_matches url pattern =
      if not (has_slash pattern)
      then host_matches (hostname url) pattern
      else fnmatchcase url pattern

  abbrev url_condition : Option String → NormalizedChallenge → Bool
  url_condition none c = true
  url_condition (some pattern) c = url_matches c.url pattern

  abbrev scheme_condition : Option Scheme → NormalizedChallenge → Bool
  scheme_condition none c = true
  scheme_condition (some exact) c = elim c.scheme [ exact ↦ true ]

  abbrev network_condition : Option String → NormalizedChallenge → Bool
  network_condition none c = true
  network_condition (some network) c = network_matches network c

  -- `_matches`; its early returns are a conjunction of the four conditions.
  unfoldable mutual
    pub matches : RuleMatch → NormalizedChallenge → Bool
    matches (when url scheme network sub) c =
        any_condition sub c
        && (url_condition url c && (scheme_condition scheme c && network_condition network c))

    pub any_condition : AnyOf → NormalizedChallenge → Bool
    any_condition unset c = true
    any_condition (of ms) c = any_matches ms c

    pub any_matches : RuleMatches → NormalizedChallenge → Bool
    any_matches nil c = false
    any_matches (cons m ms) c = matches m c || any_matches ms c

  abbrev or_empty : Option (List Rail) → List Rail
  or_empty none = []
  or_empty (some rails) = rails

  -- The decision that a matching rule makes.
  abbrev pub decision_of : PolicyRule → PolicyDecision
  decision_of r = record {
    rule_name = some r.name;
    deny = r.deny;
    prefer = or_empty r.prefer;
    max_per_call = r.max_per_call;
    reason = r.reason;
  }

  -- `PolicyEngine.evaluate`: the loop over the rules.
  unfoldable pub evaluate_rules : List PolicyRule → NormalizedChallenge → PolicyDecision
  evaluate_rules [] c = default_decision
  evaluate_rules (r ∷ rs) c = if matches r.condition c then decision_of r else evaluate_rules rs c

  unfoldable pub evaluate : Policy → NormalizedChallenge → PolicyDecision
  unfolding evaluate_rules
  evaluate p c = evaluate_rules p.rules c
