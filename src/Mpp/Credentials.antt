-- ===== src/Mpp/Credentials.antt =====
-- The header that `build_authorization_header` of src/routeweiler/rails/_mpp_http.py writes.
use routeweiler_python_sdk.Prelude.{◌≡◌, refl, inl, inr, none, some, ◌++◌, All, Option-cases}
use routeweiler_python_sdk.Bytes.{IsByte}
use routeweiler_python_sdk.Texts.{Text, codes}
use routeweiler_python_sdk.Mpp.Base64.{b64url_encode, b64url_decode, b64url_decode-encode}
use routeweiler_python_sdk.Mpp.Jcs.{Json, jcs_serialize}
use routeweiler_python_sdk.Mpp.Jcs.Reader.{read_json}
use routeweiler_python_sdk.Mpp.Jcs.Containers.{in_order}
use routeweiler_python_sdk.Mpp.Jcs.ReadBack.{read_json-jcs_serialize}
use routeweiler_python_sdk.Mpp.Envelope.{Lib, build_authorization_header}

-- A header that carries a value: behind the scheme, base64 of the bytes of a JSON text of the value.
pub record Carries (lib : Lib) (j : Json) (header : Text) : Type 0 where
  pub encoded : Text
  pub canonical : Text
  pub shape : header ≡ codes "Payment " ++ encoded
  pub decoded : b64url_decode encoded ≡ some (lib.utf8 canonical)
  pub read : read_json canonical ≡ some (in_order j)

pub header_of :
    (lib : Lib) (j : Json) (canonical : Text)
    → jcs_serialize j ≡ some canonical
    → build_authorization_header lib j
      ≡ some (codes "Payment " ++ b64url_encode (lib.utf8 canonical))
unfolding build_authorization_header
header_of lib j canonical h = rw (h, build_authorization_header) refl

no_header :
    (lib : Lib) (j : Json) → jcs_serialize j ≡ none → build_authorization_header lib j ≡ none
unfolding build_authorization_header
no_header lib j h = rw (h, build_authorization_header) refl

-- Where UTF-8 gives bytes, a header that is built carries its credential: its base64 decodes to the bytes
-- of a JSON text that is read as the credential, with the items of every dict in the order of their
-- keys.
pub build_authorization_header-Carries :
    (lib : Lib) (j : Json) {header : Text}
    → ((s : Text) → All IsByte (lib.utf8 s))
    → build_authorization_header lib j ≡ some header
    → Carries lib j header
build_authorization_header-Carries lib j {header} bytes h = elim (Option-cases (jcs_serialize j)) [
  | inl missing ↦ cc (no_header lib j missing)
  | inr (canonical, written) ↦
      let same : header ≡ codes "Payment " ++ b64url_encode (lib.utf8 canonical) =
        cc (header_of lib j canonical written) in
      record {
        encoded = b64url_encode (lib.utf8 canonical);
        canonical = canonical;
        shape = same;
        decoded = b64url_decode-encode (lib.utf8 canonical) (bytes canonical);
        read = read_json-jcs_serialize j written;
      }
]
