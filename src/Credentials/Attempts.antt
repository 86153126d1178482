-- ===== src/Credentials/Attempts.antt =====
-- The requests of the manifest strategy.
use routeweiler_python_sdk.Prelude.{
  ℕ, zero, suc, String, ap, ◌+◌, ◌-◌, ◌<◌, ◌≤◌, ◌≡◌, refl, true, Option, none, some, List, [], ◌∷◌,
  ◌++◌, leb, All, length, arith, inl, inr, Bool-cases, Option-cases,
}
use routeweiler_python_sdk.Texts.{Text, codes}
use routeweiler_python_sdk.Credentials.{CredentialRecord}
use routeweiler_python_sdk.Credentials.Recovery.{RecoveryOutcome}
use routeweiler_python_sdk.Credentials.Manifests.{
  ServiceShapeStep, ServiceShape, Request, Lib, extract_id, lookup, build_authorization_header,
  give_up, request_at, sent, run_steps, recover,
}

module _ {Resp : Type 0} (lib : Lib Resp) where
  -- What a success carries.
  abbrev pub IsGenuine : RecoveryOutcome Resp → Type 0
  IsGenuine outcome =
      outcome.succeeded ≡ true
      → (resp : Resp) × (outcome.response ≡ some resp) × (lib.is_success resp ≡ true)

  -- A request of this credential to this server: behind the scheme and the host there is a slash, which
  -- ends the authority of a URL.
  abbrev pub Replays : Text → Text → Request → Type 0
  Replays base auth r = (r.authorization ≡ auth) × ((p : Text) × (r.url ≡ base ++ b'/' ∷ p))

  abbrev pub IsRooted : Text → Type 0
  IsRooted t = (p : Text) × (t ≡ b'/' ∷ p)

  -- `str.format_map` copies what stands in front of the first brace.
  abbrev pub KeepsSlash : Type 0
  KeepsSlash =
      (template order_id out : Text)
      → IsRooted template
      → lib.format_order_id template order_id ≡ some out
      → IsRooted out

  abbrev pub HasRootedFlow : ServiceShape → Type 0
  HasRootedFlow shape = All (λ (s : ServiceShapeStep). IsRooted s.fulfil_path_template) shape.flow

  lookup-HasRootedFlow :
      (url : String) (shapes : List ServiceShape) {shape : ServiceShape}
      → All HasRootedFlow shapes
      → lookup lib url shapes ≡ some shape
      → HasRootedFlow shape
  unfolding lookup
  lookup-HasRootedFlow url [] hs h = cc
  lookup-HasRootedFlow url (s ∷ shapes) {shape} hs h =
      elim (Bool-cases (lib.fnmatchcase (lib.netloc url) s.domain_matches)) [
        | inl here ↦
            let same : some s ≡ some shape = rw here at h in
            let also : s ≡ shape = cc in rw (← also) hs.0
        | inr other ↦ lookup-HasRootedFlow url shapes hs.1 (rw other at h)
      ]

  abbrev pub Bounded : Text → Text → ℕ → RecoveryOutcome Resp × List Request → Type 0
  Bounded base auth n (outcome, requests) =
      (length requests ≤ n) × All (Replays base auth) requests × IsGenuine outcome

  give_up-Bounded : (base auth : Text) (n : ℕ) → Bounded base auth n (give_up lib, [])
  give_up-Bounded base auth n = (omega arith, tt, λ h. cc)

  request_at-Replays :
      (base auth : Text) (step : ServiceShapeStep) (id : Option Text) {r : Request}
      → KeepsSlash
      → IsRooted step.fulfil_path_template
      → request_at lib base auth step id ≡ some r
      → Replays base auth r
  request_at-Replays base auth step none keeps rooted h = cc
  request_at-Replays base auth step (some id) {r} keeps rooted h =
      elim (Option-cases (lib.format_order_id step.fulfil_path_template id)) [
        | inl missing ↦ ground (arith, h, missing)
        | inr (p, formatted) ↦
            let made : Request = record {
              method = step.method;
              url = base ++ p;
              authorization = auth;
            } in
            let same : made ≡ r = ground (arith, h, formatted) in
            let (q, slash) = keeps step.fulfil_path_template id p rooted formatted in
            rw (← same) (refl, (q, ap (λ t. base ++ t) slash))
      ]

  sent-Bounded :
      (base auth : Text) (n : ℕ) (r : Request) (answer : Option Resp)
      (rest : RecoveryOutcome Resp × List Request)
      → Replays base auth r
      → Bounded base auth n rest
      → Bounded base auth (suc n) (sent lib r answer rest)
  sent-Bounded base auth n r none (outcome, requests) fits (few, all, genuine) =
      (omega (arith, few), (fits, all), genuine)
  sent-Bounded base auth n r (some resp) (outcome, requests) fits (few, all, genuine) =
      elim (Bool-cases (lib.is_success resp)) [
        | inl well ↦ rw well (omega arith, (fits, tt), λ h. (resp, refl, well))
        | inr badly ↦ rw badly (omega (arith, few), (fits, all), genuine)
      ]

  asked-Bounded :
      (base auth : Text) (n : ℕ) (r? : Option Request) (ask : Request → Option Resp)
      (skipped later : RecoveryOutcome Resp × List Request)
      → 0 < n
      → ((r : Request) → r? ≡ some r → Replays base auth r)
      → Bounded base auth n skipped
      → Bounded base auth (n - 1) later
      → Bounded base auth n (elim r? [ none ↦ skipped | some r ↦ sent lib r (ask r) later ])
  asked-Bounded base auth n none ask skipped later pos fits few fewer = few
  asked-Bounded base auth zero (some r) ask skipped later pos fits few fewer =
      absurd (omega (arith, pos))
  asked-Bounded base auth (suc n) (some r) ask skipped later pos fits few fewer =
      let same : suc n - 1 ≡ n = omega arith in
      sent-Bounded base auth n r (ask r) later (fits r refl) (rw same at fewer)

  module _ (keeps : KeepsSlash) (max_attempts : ℕ) (c : CredentialRecord) (base auth : Text) where
    run_steps-Bounded :
        (room attempts : ℕ) (steps : List ServiceShapeStep)
        → All (λ (s : ServiceShapeStep). IsRooted s.fulfil_path_template) steps
        → max_attempts ≤ room + attempts
        → Bounded base auth room (run_steps lib max_attempts c base auth attempts steps)
    unfolding run_steps
    run_steps-Bounded room attempts [] rooted h = give_up-Bounded base auth room
    run_steps-Bounded room attempts (step ∷ steps) rooted h =
        let url_path = lib.url_path c.challenge_url in
        let skipped = run_steps-Bounded room attempts steps rooted.1 h in
        let later = run_steps-Bounded (room - 1) (suc attempts) steps rooted.1 in
        elim (Bool-cases (lib.fnmatchcase url_path step.challenge_path)) [
          | inr other ↦ rw (other, run_steps) skipped
          | inl fits ↦ elim (Bool-cases (leb max_attempts attempts)) [
            | inl over ↦ rw (fits, run_steps) (rw over (give_up-Bounded base auth room))
            | inr under ↦
                rw (fits, run_steps)
                  (rw under (
                    asked-Bounded base auth room
                      (request_at lib base auth step
                        (extract_id lib step.id_extractor url_path c.payload))
                      (λ r. lib.request attempts r) _ _ (ground (arith, under, h))
                      (λ r. request_at-Replays base auth step _ keeps rooted.0) skipped
                      (later (ground (arith, under, h)))))
          ]
        ]

  -- Where the path of every step starts with a slash and formatting keeps it, a recovery by manifests
  -- sends at most `max_attempts` requests, each with the stored macaroon and preimage as its
  -- authorization and to a URL of the scheme and host of the challenge, followed by a slash; and it
  -- reports success only with a response that is a success.
  pub recover_bounds :
      (max_attempts : ℕ) (shapes : List ServiceShape) (c : CredentialRecord) (auth : Text)
      → KeepsSlash
      → All HasRootedFlow shapes
      → build_authorization_header lib c ≡ some auth
      → Bounded
          (lib.scheme c.challenge_url ++ codes "://" ++ lib.netloc c.challenge_url)
          auth
          max_attempts
          (recover lib max_attempts shapes c)
  unfolding recover
  recover_bounds max_attempts shapes c auth keeps rooted h =
      let base = lib.scheme c.challenge_url ++ codes "://" ++ lib.netloc c.challenge_url in
      elim (Option-cases (lookup lib c.challenge_url shapes)) [
        | inl unknown ↦ rw (unknown, recover) (give_up-Bounded base auth max_attempts)
        | inr (shape, known) ↦
            rw (known, recover)
              (rw h (
                run_steps-Bounded keeps max_attempts c base auth max_attempts 0 shape.flow
                  (lookup-HasRootedFlow c.challenge_url shapes rooted known) (omega arith)))
      ]
