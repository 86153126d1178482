-- ===== src/Mpp/Envelope.antt =====
-- src/routeweiler/rails/_mpp_http.py: challenges, credentials and receipts of the two MPP rails. The JSON
-- reader, UTF-8, ISO dates and the validation of a receipt are libraries; times are microseconds.
use routeweiler_python_sdk.Prelude.{
  ◌≡◌, refl, ℕ, ◌+◌, ◌*◌, Bool, true, false, Option, none, some, List, [], ◌∷◌, ◌++◌, ◌&&◌, leb,
  ◌==◌, any, if◌then◌else◌,
}
use routeweiler_python_sdk.Prelude.Int.{ℤ}
use routeweiler_python_sdk.Bytes.{Bytes}
use routeweiler_python_sdk.Texts.{Text, codes, text_eq, starts_with, lower, strip, get}
use routeweiler_python_sdk.Mpp.Base64.{b64url_encode, b64url_decode}
use routeweiler_python_sdk.Mpp.Jcs.{Json, Members, str, dict, end, member, replace, jcs_serialize}
use routeweiler_python_sdk.Mpp.Params.{parse_payment_challenge}

-- `ChallengeParseError`, `ChallengeExpiredError`, and any exception that is not caught.
pub data ParseError : Type 0 where
  challenge_parse challenge_expired uncaught : ParseError

pub data Result (A : Type 0) : Type 0 where
  ok : A → Result A
  err : ParseError → Result A

module _ {A : Type 0} {B : Type 0} where
  infixl 5 ◌>>=◌
  abbrev pub ◌>>=◌ : Result A → (A → Result B) → Result B
  ok a >>= f = f a
  err e >>= f = err e

-- What holds of a result, if there is one.
abbrev pub Ensures : {A : Type 0} → Result A → (A → Type 0) → Type 0
Ensures (ok a) P = P a
Ensures (err e) P = Unit

pub >>=-Ensures :
    {A B : Type 0} (m : Result A) (f : A → Result B) (P : B → Type 0)
    → ((a : A) → m ≡ ok a → Ensures (f a) P)
    → Ensures (m >>= f) P
>>=-Ensures (ok a) f P h = h a refl
>>=-Ensures (err e) f P h = tt

pub ensured : {A : Type 0} (m : Result A) (P : A → Type 0) {a : A} → Ensures m P → m ≡ ok a → P a
ensured (ok b) P {a} h e = let same : b ≡ a = cc in rw (← same) h
ensured (err x) P h e = cc

pub ok_eq : {A : Type 0} {a b : A} → ok a ≡ ok b → a ≡ b
ok_eq h = cc

-- What `datetime.fromisoformat` gives; `naive` has no time zone.
pub data Moment : Type 0 where
  aware : ℕ → Moment
  naive invalid : Moment

-- What `int(v)` gives: `bad` is ValueError or TypeError, `too_large` OverflowError.
pub data Converted : Type 0 where
  value : ℤ → Converted
  bad too_large : Converted

-- `MppReceipt`, without its time.
pub record MppReceipt : Type 0 where
  pub challenge_id : Text
  pub method : Text
  pub reference : Text
  pub settlement : List (Text × Text)
  pub is_success : Bool

-- What the code calls: `none` is an exception.
pub record Lib : Type 0 where
  pub loads : Bytes → Option Json
  pub utf8 : Text → Bytes
  pub fromisoformat : Text → Moment
  -- `int` and `bool` of a float
  pub truncate : Text → Converted
  pub is_zero : Text → Bool
  pub validate : Json → Option MppReceipt

abbrev pub or_empty : Option Text → Text
or_empty none = []
or_empty (some s) = s

abbrev pub is_empty : Text → Bool
is_empty [] = true
is_empty _ = false

-- `d.get(key)` of a dict.
unfoldable pub get_member : Text → Members → Option Json
unfolding text_eq
get_member k end = none
get_member k (member j v ms) = if text_eq j k then some v else get_member k ms

module _ (lib : Lib) where
  abbrev pub loaded : Option Bytes → Option Json
  loaded none = none
  loaded (some raw) = lib.loads raw

  -- `decode_request_param`
  unfoldable pub decode_request_param : Text → Option Json
  unfolding b64url_decode
  decode_request_param b64url = loaded (b64url_decode b64url)

  -- The id, the decoded request and the parameters.
  pub record Envelope : Type 0 where
    pub challenge_id : Text
    pub request : Json
    pub params : List (Text × Text)

  abbrev pub envelope : Text → List (Text × Text) → Option Json → Result Envelope
  envelope challenge_id params none = err challenge_parse
  envelope challenge_id params (some request) =
      ok (record { challenge_id = challenge_id; request = request; params = params })

  abbrev pub envelope_of : List (Text × Text) → Result Envelope
  envelope_of params =
      let challenge_id = or_empty (get (codes "id") params) in
      let request_b64 = or_empty (get (codes "request") params) in
      if is_empty challenge_id
      then err challenge_parse
      else if is_empty request_b64
      then err challenge_parse
      else envelope challenge_id params (decode_request_param request_b64)

  -- `parse_mpp_envelope`
  unfoldable pub parse_mpp_envelope : Text → Result Envelope
  unfolding parse_payment_challenge decode_request_param get
  parse_mpp_envelope header_value = elim (parse_payment_challenge header_value) [
    | none ↦ err challenge_parse
    | some params ↦ envelope_of params
  ]

  abbrev pub not_past : ℕ → Moment → Result ℕ
  not_past now invalid = err challenge_parse
  not_past now naive = err uncaught
  not_past now (aware at) = if leb at now then err challenge_expired else ok at

  -- `_DEFAULT_VALIDITY_SECONDS`
  abbrev pub default_validity_seconds : ℕ
  default_validity_seconds = 300

  -- `compute_mpp_expiry`, with the times at which the clock is read.
  unfoldable pub compute_mpp_expiry : ℕ → ℕ → List (Text × Text) → Result ℕ
  unfolding get replace
  compute_mpp_expiry started now params =
      let expires_str = or_empty (get (codes "expires") params) in
      let default = aware (started + default_validity_seconds * 1_000_000) in
      not_past now (
        if is_empty expires_str
        then default
        else lib.fromisoformat (replace b'Z' (codes "+00:00") expires_str))

  -- `jcs_encode`
  abbrev pub jcs_encode : Json → Option Bytes
  jcs_encode obj = elim (jcs_serialize obj) [ none ↦ none | some text ↦ some (lib.utf8 text) ]

  -- `encode_credential`; `none` is TypeError.
  unfoldable pub encode_credential : Json → Option Text
  unfolding jcs_serialize b64url_encode
  encode_credential credential = elim (jcs_encode credential) [
    | none ↦ none
    | some canonical ↦ some (b64url_encode canonical)
  ]

  -- `build_authorization_header`
  unfoldable pub build_authorization_header : Json → Option Text
  unfolding encode_credential
  build_authorization_header credential = elim (encode_credential credential) [
    | none ↦ none
    | some encoded ↦ some (codes "Payment " ++ encoded)
  ]

  -- `parse_payment_receipt`
  unfoldable pub parse_payment_receipt : Text → Option MppReceipt
  unfolding b64url_decode strip
  parse_payment_receipt header_value = elim (loaded (b64url_decode (strip header_value))) [
    | none ↦ none
    | some payload ↦ lib.validate payload
  ]

abbrev pub get_or : Text → Text → List (Text × Text) → Text
get_or key default params = elim (get key params) [ none ↦ default | some v ↦ v ]

-- The entries that are not empty.
unfoldable pub non_empty : List (Text × Text) → Members
non_empty [] = end
non_empty ((k, v) ∷ ps) =
    let rest = non_empty ps in if is_empty v then rest else member k (str v) rest

-- `build_mpp_challenge_echo`
unfoldable pub build_mpp_challenge_echo : Text → List (Text × Text) → Text → Members
unfolding non_empty get
build_mpp_challenge_echo challenge_id auth_params default_method = non_empty (
    (codes "id", challenge_id)
    ∷ (codes "realm", get_or (codes "realm") [] auth_params)
    ∷ (codes "method", get_or (codes "method") default_method auth_params)
    ∷ (codes "intent", get_or (codes "intent") (codes "charge") auth_params)
    ∷ (codes "request", get_or (codes "request") [] auth_params)
    ∷ (codes "expires", get_or (codes "expires") [] auth_params)
    ∷ (codes "opaque", get_or (codes "opaque") [] auth_params)
    ∷ [])

-- `build_mpp_credential`, the dict
unfoldable pub build_mpp_credential : Text → List (Text × Text) → Text → Members → Text → Json
unfolding build_mpp_challenge_echo
build_mpp_credential challenge_id auth_params default_method payload source = dict (
    member (codes "challenge")
      (dict (build_mpp_challenge_echo challenge_id auth_params default_method))
      (member (codes "payload") (dict payload) (member (codes "source") (str source) end)))

-- `is_mpp_payment_for`, of the status and the header.
unfoldable pub is_mpp_payment_for : ℕ → Text → List Text → Bool
unfolding parse_payment_challenge starts_with lower strip get text_eq
is_mpp_payment_for status_code header methods =
    let in_methods : Bool = elim (parse_payment_challenge header) [
      | none ↦ false
      | some params ↦ any (text_eq (lower (or_empty (get (codes "method") params)))) methods
    ] in
    (status_code == 402) && (starts_with (codes "payment") (lower (strip header)) && in_methods)
