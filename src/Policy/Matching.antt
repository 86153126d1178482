-- ===== src/Policy/Matching.antt =====
-- What the conditions of a rule mean: a conjunction, with a disjunction under `any`.
use mathlib.Core.Bool.{false≢true}
use routeweiler_python_sdk.Prelude.{
  String, ◌≡◌, refl, ◌↔◌, ◌⊎◌, inl, inr, Bool, true, false, ◌||◌, Option, none, some, arith,
}
use routeweiler_python_sdk.Normalized.{Scheme, exact, NormalizedChallenge}
use routeweiler_python_sdk.Policy.{
  UrlLib, RuleMatch, when, AnyOf, unset, of, RuleMatches, nil, cons, matches, any_condition,
  any_matches, url_matches, network_matches, url_condition, network_condition, scheme_condition,
}

-- A condition that is not set holds.
abbrev pub Holds : {A : Type 0} → (A → Type 0) → Option A → Type 0
Holds P none = Unit
Holds P (some a) = P a

-- The meaning that the documentation of `RuleMatch` gives: all fields that are set hold, and of
-- `any` one alternative.
mutual
  pub data Fits (lib : UrlLib) (c : NormalizedChallenge) : RuleMatch → Type 0 where
    fits :
        {url : Option String} {scheme : Option Scheme} {network : Option String} {sub : AnyOf}
        → FitsAny lib c sub
        → Holds (λ p. url_matches lib c.url p ≡ true) url
        → Holds (λ s. c.scheme ≡ s) scheme
        → Holds (λ n. network_matches n c ≡ true) network
        → Fits lib c (when url scheme network sub)

  pub data FitsAny (lib : UrlLib) (c : NormalizedChallenge) : AnyOf → Type 0 where
    free : FitsAny lib c unset
    bound : {ms : RuleMatches} → FitsSome lib c ms → FitsAny lib c (of ms)

  pub data FitsSome (lib : UrlLib) (c : NormalizedChallenge) : RuleMatches → Type 0 where
    this : {m : RuleMatch} {ms : RuleMatches} → Fits lib c m → FitsSome lib c (cons m ms)
    later : {m : RuleMatch} {ms : RuleMatches} → FitsSome lib c ms → FitsSome lib c (cons m ms)

module _ (lib : UrlLib) (c : NormalizedChallenge) where
  or-cases : (a b : Bool) → (a || b) ≡ true → (a ≡ true) ⊎ (b ≡ true)
  or-cases true b h = inl refl
  or-cases false b h = inr h

  scheme-exact : (s : Scheme) → s ≡ exact
  scheme-exact exact = refl

  url_sound :
      (url : Option String)
      → url_condition lib url c ≡ true
      → Holds (λ p. url_matches lib c.url p ≡ true) url
  url_sound none h = tt
  url_sound (some p) h = h

  scheme_sound : (s : Option Scheme) → Holds (λ s. c.scheme ≡ s) s
  scheme_sound none = tt
  scheme_sound (some exact) = scheme-exact c.scheme

  network_sound :
      (n : Option String)
      → network_condition lib n c ≡ true
      → Holds (λ n. network_matches n c ≡ true) n
  network_sound none h = tt
  network_sound (some n) h = h

  mutual
    unfolding matches

    sound : (m : RuleMatch) → matches lib m c ≡ true → Fits lib c m
    sound (when url scheme network sub) h =
        fits (sound_any sub (ground (arith, h))) (url_sound url (ground (arith, h)))
          (scheme_sound scheme) (network_sound network (ground (arith, h)))

    sound_any : (s : AnyOf) → any_condition lib s c ≡ true → FitsAny lib c s
    sound_any unset h = free
    sound_any (of ms) h = bound (sound_some ms h)

    sound_some : (ms : RuleMatches) → any_matches lib ms c ≡ true → FitsSome lib c ms
    sound_some nil h = absurd (false≢true h)
    sound_some (cons m ms) h = elim (or-cases (matches lib m c) (any_matches lib ms c) h) [
      | inl e ↦ this (sound m e)
      | inr e ↦ later (sound_some ms e)
    ]

  url_complete :
      (url : Option String)
      → Holds (λ p. url_matches lib c.url p ≡ true) url
      → url_condition lib url c ≡ true
  url_complete none h = refl
  url_complete (some p) h = h

  scheme_complete : (s : Option Scheme) → scheme_condition lib s c ≡ true
  scheme_complete none = refl
  scheme_complete (some exact) = rw (scheme-exact c.scheme)

  network_complete :
      (n : Option String)
      → Holds (λ n. network_matches n c ≡ true) n
      → network_condition lib n c ≡ true
  network_complete none h = refl
  network_complete (some n) h = h

  mutual
    unfolding matches

    complete : (m : RuleMatch) → Fits lib c m → matches lib m c ≡ true
    complete (when url scheme network sub) (fits a u s n) =
        rw (
          complete_any sub a,
          url_complete url u,
          scheme_complete scheme,
          network_complete network n,
        )

    complete_any : (s : AnyOf) → FitsAny lib c s → any_condition lib s c ≡ true
    complete_any unset a = refl
    complete_any (of ms) (bound b) = complete_some ms b

    complete_some : (ms : RuleMatches) → FitsSome lib c ms → any_matches lib ms c ≡ true
    complete_some nil x = elim x [ ]
    complete_some (cons m ms) (this f) = rw (complete m f)
    complete_some (cons m ms) (later f) = ground (arith, complete_some ms f)

  -- The matcher accepts a challenge exactly when the condition fits it.
  pub matches_iff : (m : RuleMatch) → (matches lib m c ≡ true) ↔ Fits lib c m
  matches_iff m = (sound m, complete m)
