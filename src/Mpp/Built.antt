-- ===== src/Mpp/Built.antt =====
-- `build_mpp_credential` of src/routeweiler/rails/_mpp_http.py never meets a float.
use routeweiler_python_sdk.Prelude.{
  ◌≡◌, refl, inl, inr, Option, some, List, [], ◌∷◌, ◌++◌, Bool-cases,
}
use routeweiler_python_sdk.Texts.{Text, codes}
use routeweiler_python_sdk.Mpp.Base64.{b64url_encode}
use routeweiler_python_sdk.Mpp.Jcs.{
  Json, Members, dict, str, end, member, insert, join, pairs_of, jcs_serialize, serialize_members,
}
use routeweiler_python_sdk.Mpp.Envelope.{
  Lib, is_empty, get_or, non_empty, build_mpp_challenge_echo, build_mpp_credential,
  build_authorization_header,
}
use routeweiler_python_sdk.Mpp.Credentials.{header_of}

abbrev pub IsSome : {A : Type 0} → Option A → Type 0
IsSome {A} o = (a : A) × (o ≡ some a)

pub serialize_members-IsSome :
    (k : Text) (v : Json) (ms : Members)
    → IsSome (jcs_serialize v)
    → IsSome (serialize_members ms)
    → IsSome (serialize_members (member k v ms))
unfolding jcs_serialize
serialize_members-IsSome k v ms (t, written) (ps, rest) = (insert k t ps, rw (written, rest) refl)

pub dict-IsSome : (ms : Members) → IsSome (serialize_members ms) → IsSome (jcs_serialize (dict ms))
unfolding jcs_serialize
dict-IsSome ms (ps, written) = (b'{' ∷ (join (pairs_of ps) ++ b'}' ∷ []), rw written refl)

pub str-IsSome : (s : Text) → IsSome (jcs_serialize (str s))
unfolding jcs_serialize
str-IsSome s = (_, refl)

pub end-IsSome : IsSome (serialize_members end)
unfolding jcs_serialize
end-IsSome = (_, refl)

non_empty-IsSome : (ps : List (Text × Text)) → IsSome (serialize_members (non_empty ps))
unfolding non_empty
non_empty-IsSome [] = end-IsSome
non_empty-IsSome ((k, v) ∷ ps) = elim (Bool-cases (is_empty v)) [
  | inl empty ↦ rw empty (non_empty-IsSome ps)
  | inr given ↦
      rw given
        (serialize_members-IsSome k (str v) (non_empty ps) (str-IsSome v) (non_empty-IsSome ps))
]

build_mpp_challenge_echo-IsSome :
    (challenge_id : Text) (auth_params : List (Text × Text)) (default_method : Text)
    → IsSome (serialize_members (build_mpp_challenge_echo challenge_id auth_params default_method))
unfolding build_mpp_challenge_echo
build_mpp_challenge_echo-IsSome challenge_id auth_params default_method = non_empty-IsSome (
    (codes "id", challenge_id)
    ∷ (codes "realm", get_or (codes "realm") [] auth_params)
    ∷ (codes "method", get_or (codes "method") default_method auth_params)
    ∷ (codes "intent", get_or (codes "intent") (codes "charge") auth_params)
    ∷ (codes "request", get_or (codes "request") [] auth_params)
    ∷ (codes "expires", get_or (codes "expires") [] auth_params)
    ∷ (codes "opaque", get_or (codes "opaque") [] auth_params)
    ∷ [])

credential-IsSome :
    (challenge_id : Text) (auth_params : List (Text × Text)) (default_method : Text)
    (payload : Members) (source : Text)
    → IsSome (serialize_members payload)
    → IsSome (
        jcs_serialize (build_mpp_credential challenge_id auth_params default_method payload source))
unfolding build_mpp_credential
credential-IsSome challenge_id auth_params default_method payload source h =
    let echo = build_mpp_challenge_echo challenge_id auth_params default_method in
    let from_source = member (codes "source") (str source) end in
    dict-IsSome
      (member (codes "challenge") (dict echo) (member (codes "payload") (dict payload) from_source))
      (serialize_members-IsSome (codes "challenge") (dict echo)
        (member (codes "payload") (dict payload) from_source)
        (dict-IsSome echo (build_mpp_challenge_echo-IsSome challenge_id auth_params default_method))
        (serialize_members-IsSome (codes "payload") (dict payload) from_source
          (dict-IsSome payload h)
          (serialize_members-IsSome (codes "source") (str source) end (str-IsSome source)
            end-IsSome)))

-- The credential of a payload that has a JSON text has a header.
pub build_mpp_credential-IsSome :
    (lib : Lib) (challenge_id : Text) (auth_params : List (Text × Text)) (default_method : Text)
    (payload : Members) (source : Text)
    → IsSome (serialize_members payload)
    → IsSome (
        build_authorization_header lib
          (build_mpp_credential challenge_id auth_params default_method payload source))
build_mpp_credential-IsSome lib challenge_id auth_params default_method payload source h =
    let (text, written) =
      credential-IsSome challenge_id auth_params default_method payload source h in
    (
      codes "Payment " ++ b64url_encode (lib.utf8 text),
      header_of lib (build_mpp_credential challenge_id auth_params default_method payload source)
          text written,
    )
