-- ===== src/Routing.antt =====
-- src/routeweiler/routing/router.py, with the adapter protocol of src/routeweiler/rails/base.py.
-- An adapter is what the router and the auth flow call of it. The FMV conversion and the rounding of
-- `float` are arguments.
pub mod Rank
pub mod Winner
pub mod Decide
pub mod Raises
pub mod Sticky
use routeweiler_python_sdk.Prelude.{
  ℕ, suc, String, Bool, true, false, Option, none, some, List, [], ◌∷◌, not, ◌&&◌, ◌||◌, ltb, ◌==◌,
  find?, any, filter, if◌then◌else◌,
}
use routeweiler_python_sdk.Prelude.Int.{ℤ, pos, ltb_ℤ}
use routeweiler_python_sdk.Normalized.{Rail, rail_eq, ProofType, Price, NormalizedChallenge}
use routeweiler_python_sdk.Budgets.Schema.{Currency}
use routeweiler_python_sdk.Policy.{UrlLib, Policy, PolicyDecision, evaluate, default_decision}

-- `PaymentResult`; the persisted credential is opaque.
pub record PaymentResult : Type 0 where
  pub header_name : Option String
  pub header_value : Option String
  pub credential : Option String
  pub proof_type : ProofType
  pub proof_value : Option String

-- How `pay` ends: with a result, with `PostCommitPaymentError`, or with any other exception.
pub data PayOutcome : Type 0 where
  paid : PaymentResult → PayOutcome
  post_commit failed : PayOutcome

-- `RailAdapter`. `parse` and `match_funding` may raise or find nothing; `pay` may end otherwise at
-- each attempt.
pub record Adapter (Req Resp Fund : Type 0) : Type 0 where
  pub rail : Rail
  pub can_handle : Resp → Bool
  pub parse : Req → Resp → Option NormalizedChallenge
  pub match_funding : NormalizedChallenge → List Fund → Option Fund
  pub pay : ℕ → NormalizedChallenge → PayOutcome

-- `rail in rails`
abbrev pub mem_rail : Rail → List Rail → Bool
mem_rail r rails = any (λ s. rail_eq s r) rails

-- The errors of `decide`, with the reason and the rule of a denial.
pub data RouteError : Type 0 where
  rail_not_supported no_feasible_rail : RouteError
  policy_denied : Option String → Option String → RouteError

pub data Routed (A : Type 0) : Type 0 where
  ok : A → Routed A
  err : RouteError → Routed A

-- `Candidate`
pub record Candidate (Req Resp Fund : Type 0) : Type 0 where
  pub adapter : Adapter Req Resp Fund
  pub challenge : NormalizedChallenge
  pub quote : Option ℤ
  pub decision : PolicyDecision

-- `RoutingChoice`
pub record RoutingChoice (Req Resp Fund : Type 0) : Type 0 where
  pub candidate : Candidate Req Resp Fund
  pub fallback_from : Option Rail
  pub attempt : ℕ

-- The tuple that `_key` returns; `none` is `float("inf")`.
pub record Key : Type 0 where
  pub cost_rank : Option ℤ
  pub prefer_rank : ℕ
  pub default_rank : ℕ
  pub order_rank : ℕ

abbrev pub cost_lt : Option ℤ → Option ℤ → Bool
cost_lt none b = false
cost_lt (some a) none = true
cost_lt (some a) (some b) = ltb_ℤ a b

-- One place of the order of tuples: smaller, larger, or decided by the rest.
abbrev pub lex : Bool → Bool → Bool → Bool
lex smaller larger rest = if smaller then true else if larger then false else rest

-- Python's order of tuples.
unfoldable pub key_lt : Key → Key → Bool
key_lt a b = lex (cost_lt a.cost_rank b.cost_rank) (cost_lt b.cost_rank a.cost_rank) (
    lex (ltb a.prefer_rank b.prefer_rank) (ltb b.prefer_rank a.prefer_rank) (
      lex (ltb a.default_rank b.default_rank) (ltb b.default_rank a.default_rank)
        (ltb a.order_rank b.order_rank)))

-- `_fmv_quote`: 0 without a reference currency, none where the conversion raises.
abbrev pub fmv_quote :
    (String → ℤ → Currency → Option ℤ) → Option Currency → NormalizedChallenge → Option ℤ
fmv_quote convert none c = some (pos 0)
fmv_quote convert (some reference) c = convert c.price.currency c.price.amount reference

-- `policy_engine.evaluate(challenge)`, or the default without an engine.
abbrev pub decision_for : UrlLib → Option Policy → NormalizedChallenge → PolicyDecision
decision_for lib none c = default_decision
decision_for lib (some p) c = evaluate lib p c

abbrev pub default_rail_of : Option Policy → Option Rail
default_rail_of none = none
default_rail_of (some p) = some p.default_rail

abbrev pub is_default : Rail → Option Rail → Bool
is_default r none = false
is_default r (some d) = rail_eq r d

abbrev pub float_quote : (ℤ → ℤ) → Option ℤ → Option ℤ
float_quote float none = none
float_quote float (some q) = some (float q)

module _ {Req Resp Fund : Type 0} where
  -- Step 1
  abbrev pub is_handled : Resp → List Rail → Adapter Req Resp Fund → Bool
  is_handled response excluded a = a.can_handle response && not (mem_rail a.rail excluded)

  -- `_parse_candidates`
  unfoldable pub parse_candidates :
      Req → Resp → List (Adapter Req Resp Fund) → List (Adapter Req Resp Fund × NormalizedChallenge)
  parse_candidates request response [] = []
  parse_candidates request response (a ∷ rest) =
      let parsed = parse_candidates request response rest in
      elim (a.parse request response) [ none ↦ parsed | some c ↦ (a, c) ∷ parsed ]

  -- Steps 3 and 4: the survivors with their decisions, and the last denial.
  unfoldable pub policy_filter :
      (NormalizedChallenge → PolicyDecision)
      → List (Adapter Req Resp Fund × NormalizedChallenge)
      → Option PolicyDecision
      → List (Adapter Req Resp Fund × NormalizedChallenge × PolicyDecision) × Option PolicyDecision
  policy_filter decide_for [] last = ([], last)
  policy_filter decide_for ((a, c) ∷ rest) last =
      let denied = policy_filter decide_for rest (some (decide_for c)) in
      let kept = policy_filter decide_for rest last in
      if (decide_for c).deny then denied else ((a, c, decide_for c) ∷ kept.0, kept.1)

  -- Step 5
  unfoldable pub funding_filter :
      List Fund
      → List (Adapter Req Resp Fund × NormalizedChallenge × PolicyDecision)
      → List (Adapter Req Resp Fund × NormalizedChallenge × PolicyDecision)
  funding_filter funding [] = []
  funding_filter funding ((a, c, d) ∷ rest) =
      let funded = funding_filter funding rest in
      elim (a.match_funding c funding) [ none ↦ funded | some _ ↦ (a, c, d) ∷ funded ]

  -- Step 6
  unfoldable pub quote_candidates :
      (NormalizedChallenge → Option ℤ)
      → List (Adapter Req Resp Fund × NormalizedChallenge × PolicyDecision)
      → List (Candidate Req Resp Fund)
  quote_candidates quote_of [] = []
  quote_candidates quote_of ((a, c, d) ∷ rest) =
      record { adapter = a; challenge = c; quote = quote_of c; decision = d }
      ∷ quote_candidates quote_of rest

  -- `_key`, for the candidate at a place of the list.
  abbrev pub key_of : (ℤ → ℤ) → Option Rail → ℕ → Candidate Req Resp Fund → Key
  key_of float default n c = record {
    cost_rank = float_quote float c.quote;
    prefer_rank = if mem_rail c.adapter.rail c.decision.prefer then 0 else 1;
    default_rank = if is_default c.adapter.rail default then 0 else 1;
    order_rank = n;
  }

  -- `min` over the rest of the list, with the best so far and its key.
  unfoldable pub min_from :
      (ℤ → ℤ)
      → Option Rail
      → ℕ
      → Candidate Req Resp Fund
      → Key
      → List (Candidate Req Resp Fund)
      → Candidate Req Resp Fund
  min_from float default n best key [] = best
  min_from float default n best key (c ∷ rest) =
      let better = key_lt (key_of float default n c) key in
      min_from float default (suc n) (if better then c else best)
        (if better then key_of float default n c else key) rest

  abbrev pub sticky_candidate :
      Option Rail → List (Candidate Req Resp Fund) → Option (Candidate Req Resp Fund)
  sticky_candidate none cs = none
  sticky_candidate (some r) cs =
      find? (λ (c : Candidate Req Resp Fund). rail_eq c.adapter.rail r) cs

  -- `_select_winner`, on a first candidate and the rest.
  unfoldable pub select_winner :
      (ℤ → ℤ)
      → Option Rail
      → Option Rail
      → Candidate Req Resp Fund
      → List (Candidate Req Resp Fund)
      → Candidate Req Resp Fund
  unfolding min_from
  select_winner float sticky default c rest = elim (sticky_candidate sticky (c ∷ rest)) [
    | some s ↦ s
    | none ↦ min_from float default 1 c (key_of float default 0 c) rest
  ]

abbrev pub denial : Option PolicyDecision → RouteError
denial none = no_feasible_rail
denial (some d) = policy_denied d.reason d.rule_name

abbrev pub exhausted : List Rail → RouteError
exhausted [] = rail_not_supported
exhausted (_ ∷ _) = no_feasible_rail

-- What `decide` is given besides the request, the response and the state of the failover.
pub record Setup (Req Resp Fund : Type 0) : Type 0 where
  pub lib : UrlLib
  pub float : ℤ → ℤ
  pub convert : String → ℤ → Currency → Option ℤ
  pub adapters : List (Adapter Req Resp Fund)
  pub policy : Option Policy
  pub funding : List Fund
  pub reference_currency : Option Currency

module _ {Req Resp Fund : Type 0} where
  abbrev pub choose :
      Setup Req Resp Fund
      → Option Rail
      → Option Rail
      → ℕ
      → List (Candidate Req Resp Fund)
      → Routed (RoutingChoice Req Resp Fund)
  choose s sticky prior attempt [] = err no_feasible_rail
  choose s sticky prior attempt (c ∷ rest) = ok (record {
    candidate = select_winner s.float sticky (default_rail_of s.policy) c rest;
    fallback_from = prior;
    attempt = attempt;
  })

  -- The quoted candidates that are left after all the filters of `decide`.
  unfoldable pub feasible :
      Setup Req Resp Fund → Req → Resp → List Rail → List (Candidate Req Resp Fund)
  unfolding parse_candidates policy_filter funding_filter quote_candidates
  feasible s request response excluded =
      quote_candidates (fmv_quote s.convert s.reference_currency) (
        funding_filter s.funding
          (policy_filter (decision_for s.lib s.policy)
            (parse_candidates request response (filter (is_handled response excluded) s.adapters))
            none).0)

  -- The early exits of `decide`: nothing handled, nothing parsed, everything denied.
  unfoldable pub decide_on :
      List Rail
      → List (Adapter Req Resp Fund)
      → List (Adapter Req Resp Fund × NormalizedChallenge)
      → List (Adapter Req Resp Fund × NormalizedChallenge × PolicyDecision)
      → Option PolicyDecision
      → Routed (RoutingChoice Req Resp Fund)
      → Routed (RoutingChoice Req Resp Fund)
  decide_on excluded [] parsed allowed last chosen = err (exhausted excluded)
  decide_on excluded (_ ∷ _) [] allowed last chosen = err no_feasible_rail
  decide_on excluded (_ ∷ _) (_ ∷ _) [] last chosen = err (denial last)
  decide_on excluded (_ ∷ _) (_ ∷ _) (_ ∷ _) last chosen = chosen

  -- `Router.decide`
  unfoldable pub decide :
      Setup Req Resp Fund
      → Req
      → Resp
      → List Rail
      → Option Rail
      → Option Rail
      → ℕ
      → Routed (RoutingChoice Req Resp Fund)
  unfolding parse_candidates policy_filter feasible select_winner decide_on
  decide s request response excluded sticky prior attempt =
      let handled = filter (is_handled response excluded) s.adapters in
      let parsed = parse_candidates request response handled in
      let allowed = policy_filter (decision_for s.lib s.policy) parsed none in
      decide_on excluded handled parsed allowed.0 allowed.1
        (choose s sticky prior attempt (feasible s request response excluded))
