-- ===== src/Credentials/Manifests.antt =====
-- src/routeweiler/credentials/manifest_strategy.py, manifests/schema.py, manifests/loader.py and
-- _macaroon.py: the recovery of a response at another URL of the same service. The JSON of a payload, the
-- URL parser, `re`, `fnmatch`, `str.format_map`, pymacaroons and the server are libraries.
use routeweiler_python_sdk.Prelude.{
  ℕ, suc, String, Bool, true, Option, none, some, List, [], ◌∷◌, ◌++◌, not, leb, ◌==◌,
  if◌then◌else◌,
}
use routeweiler_python_sdk.Texts.{Text, codes, strip, get, put}
use routeweiler_python_sdk.Credentials.{exhausted, CredentialRecord}
use routeweiler_python_sdk.Credentials.Recovery.{RecoveryOutcome, failed_for}

-- `id_extractor`, split at its first colon.
pub data IdExtractor : Type 0 where
  path macaroon other : Text → IdExtractor

-- `ServiceShapeStep`
pub record ServiceShapeStep : Type 0 where
  pub challenge_path : Text
  pub fulfil_path_template : Text
  pub id_extractor : IdExtractor
  pub method : Text

-- `ServiceShape`
pub record ServiceShape : Type 0 where
  pub name : Text
  pub domain_matches : Text
  pub flow : List ServiceShapeStep

-- A request of the strategy.
pub record Request : Type 0 where
  pub method : Text
  pub url : Text
  pub authorization : Text

-- What the client gives: `none` is httpx.RequestError.
pub record Lib (Resp : Type 0) : Type 0 where
  pub netloc : String → Text
  pub url_path : String → Text
  pub scheme : String → Text
  pub fnmatchcase : Text → Text → Bool
  -- `payload.get(key)` of a text that is there and not empty
  pub field : Text → String → Option Text
  -- the first group of `re.search`, for patterns that have one
  pub search : Text → Text → Option Text
  -- `none` is a KeyError
  pub format_order_id : Text → Text → Option Text
  -- the ids of the caveats of a macaroon that are UTF-8; `none` is an exception
  pub deserialize : Text → Option (List Text)
  pub request : ℕ → Request → Option Resp
  pub is_success : Resp → Bool

unfoldable pub lstrip_slash : Text → Text
lstrip_slash [] = []
lstrip_slash (c ∷ s) = let rest = lstrip_slash s in if c == b'/' then rest else c ∷ s

abbrev pub prepend_key : ℕ → Option (Text × Text) → Option (Text × Text)
prepend_key c none = none
prepend_key c (some (k, v)) = some (c ∷ k, v)

-- `cid.partition("=")`, where there is an equals sign.
unfoldable pub partition_eq : Text → Option (Text × Text)
partition_eq [] = none
partition_eq (c ∷ s) =
    let later = prepend_key c (partition_eq s) in if c == b'=' then some ([], s) else later

abbrev pub add_caveat : Option (Text × Text) → List (Text × Text) → List (Text × Text)
add_caveat none caveats = caveats
add_caveat (some (k, v)) caveats = put (strip k) (strip v) caveats

-- The loop of `parse_macaroon_caveats`.
unfoldable pub caveats_of : List Text → List (Text × Text) → List (Text × Text)
unfolding partition_eq strip put
caveats_of [] caveats = caveats
caveats_of (cid ∷ more) caveats = caveats_of more (add_caveat (partition_eq cid) caveats)

module _ {Resp : Type 0} (lib : Lib Resp) where
  abbrev pub or_no_caveats : Option (List Text) → List (Text × Text)
  or_no_caveats none = []
  or_no_caveats (some cids) = caveats_of cids []

  -- `parse_macaroon_caveats`
  unfoldable pub parse_macaroon_caveats : Text → List (Text × Text)
  unfolding caveats_of
  parse_macaroon_caveats macaroon_b64 = or_no_caveats (lib.deserialize macaroon_b64)

  abbrev pub caveat_of : Text → Option Text → Option Text
  caveat_of key none = none
  caveat_of key (some macaroon_b64) = get key (parse_macaroon_caveats macaroon_b64)

  -- `extract_id`
  unfoldable pub extract_id : IdExtractor → Text → String → Option Text
  unfolding lstrip_slash parse_macaroon_caveats get
  extract_id (path regex) url_path payload = lib.search regex (lstrip_slash url_path)
  extract_id (macaroon key) url_path payload = caveat_of key (lib.field (codes "macaroon") payload)
  extract_id (other suffix) url_path payload = none

  -- `ManifestRegistry.lookup`
  unfoldable pub lookup : String → List ServiceShape → Option ServiceShape
  lookup url [] = none
  lookup url (shape ∷ shapes) =
      if lib.fnmatchcase (lib.netloc url) shape.domain_matches
      then some shape
      else lookup url shapes

  abbrev pub l402_header : Option Text → Option Text → Option Text
  l402_header (some m) (some preimage_hex) = some (codes "L402 " ++ m ++ codes ":" ++ preimage_hex)
  l402_header _ _ = none

  -- `_build_authorization_header`
  unfoldable pub build_authorization_header : CredentialRecord → Option Text
  build_authorization_header c =
      l402_header (lib.field (codes "macaroon") c.payload)
        (lib.field (codes "preimage_hex") c.payload)

  abbrev pub give_up : RecoveryOutcome Resp
  give_up = failed_for (some exhausted)

  -- The request that a step makes; `none` skips the step.
  abbrev pub request_at : Text → Text → ServiceShapeStep → Option Text → Option Request
  request_at base auth step none = none
  request_at base auth step (some order_id) =
      elim (lib.format_order_id step.fulfil_path_template order_id) [
        | none ↦ none
        | some fulfil_path ↦
            some (record { method = step.method; url = base ++ fulfil_path; authorization = auth })
      ]

  -- A response, with what the rest of the loop gives if it is no success.
  abbrev pub sent :
      Request
      → Option Resp
      → RecoveryOutcome Resp × List Request
      → RecoveryOutcome Resp × List Request
  sent r none (outcome, requests) = (outcome, r ∷ requests)
  sent r (some resp) (outcome, requests) =
      if lib.is_success resp
      then (record { succeeded = true; response = some resp; reason = none }, r ∷ [])
      else (outcome, r ∷ requests)

  -- The loop of `recover` over the steps, with the requests made so far; the second part is the requests
  -- that it makes.
  unfoldable pub run_steps :
      ℕ
      → CredentialRecord
      → Text
      → Text
      → ℕ
      → List ServiceShapeStep
      → RecoveryOutcome Resp × List Request
  unfolding extract_id
  run_steps max_attempts c base auth attempts [] = (give_up, [])
  run_steps max_attempts c base auth attempts (step ∷ steps) =
      let skipped = run_steps max_attempts c base auth attempts steps in
      let later = run_steps max_attempts c base auth (suc attempts) steps in
      let url_path = lib.url_path c.challenge_url in
      let order_id = extract_id step.id_extractor url_path c.payload in
      if not (lib.fnmatchcase url_path step.challenge_path)
      then skipped
      else if leb max_attempts attempts
      then (give_up, [])
      else elim (request_at base auth step order_id) [
        | none ↦ skipped
        | some r ↦ sent r (lib.request attempts r) later
      ]

  abbrev pub with_header :
      ℕ
      → CredentialRecord
      → List ServiceShapeStep
      → Option Text
      → RecoveryOutcome Resp × List Request
  with_header max_attempts c steps none = (give_up, [])
  with_header max_attempts c steps (some auth) =
      run_steps max_attempts c
        (lib.scheme c.challenge_url ++ codes "://" ++ lib.netloc c.challenge_url) auth 0 steps

  -- `ManifestRecoveryStrategy.recover`
  unfoldable pub recover :
      ℕ → List ServiceShape → CredentialRecord → RecoveryOutcome Resp × List Request
  unfolding lookup build_authorization_header run_steps
  recover max_attempts shapes c = elim (lookup c.challenge_url shapes) [
    | none ↦ (give_up, [])
    | some shape ↦ with_header max_attempts c shape.flow (build_authorization_header c)
  ]
