-- ===== src/Tests/Mpp.antt =====
-- Challenges, credentials and receipts of src/routeweiler/rails/_mpp_http.py.
use routeweiler_python_sdk.Prelude.{
  ◌%◌, ◌≡◌, refl, true, none, some, List, [], ◌∷◌, ◌++◌, map, All, arith,
}
use routeweiler_python_sdk.Prelude.Int.{pos}
use routeweiler_python_sdk.Bytes.{Bytes, IsByte}
use routeweiler_python_sdk.Texts.{Text, codes, lower}
use routeweiler_python_sdk.Mpp.Base64.{b64url_encode, b64url_decode, b64url_decode-encode}
use routeweiler_python_sdk.Mpp.Jcs.{
  Json, str, dict, end, member, escaped, control_escaped, jcs_serialize,
}
use routeweiler_python_sdk.Mpp.Jcs.Strings.{escape_all, control_escaped-escaped}
use routeweiler_python_sdk.Mpp.Jcs.Reader.{read_json}
use routeweiler_python_sdk.Mpp.Jcs.Containers.{in_order}
use routeweiler_python_sdk.Mpp.Jcs.ReadBack.{read_json-jcs_serialize}
use routeweiler_python_sdk.Mpp.Params.{parse_payment_challenge}
use routeweiler_python_sdk.Mpp.Params.ReadBack.{
  IsKey, all_written, as_dict, parse_payment_challenge-written,
}
use routeweiler_python_sdk.Mpp.Envelope.{
  invalid, value, MppReceipt, Lib, build_authorization_header,
}
use routeweiler_python_sdk.Mpp.Credentials.{Carries, build_authorization_header-Carries}
use routeweiler_python_sdk.Mpp.Receipts.{
  SettlementInfo, settled, Exchange, confirm_mpp_receipt, Backed, confirm_mpp_receipt-Backed,
}

-- One byte for each character.
abbrev pub utf8 : Text → Bytes
utf8 s = map (λ c. c % 256) s

pub utf8-bytes : (s : Text) → All IsByte (utf8 s)
utf8-bytes [] = tt
utf8-bytes (c ∷ s) = (omega arith, utf8-bytes s)

abbrev receipt : MppReceipt
receipt = record {
  challenge_id = codes "c1";
  method = codes "tempo";
  reference = codes "0xabc";
  settlement = (codes "amount", codes "100") ∷ [];
  is_success = true;
}

-- JSON without blanks, no dates but one, and one receipt.
abbrev pub lib : Lib
lib = record {
  loads = read_json;
  utf8 = utf8;
  fromisoformat = λ s. invalid;
  truncate = λ s. value (pos 0);
  is_zero = λ s. true;
  validate = λ j. some receipt;
}

b64url_decode-encode_example :
    b64url_decode (b64url_encode (b'?' ∷ 255 ∷ 254 ∷ 0 ∷ [])) ≡ some (b'?' ∷ 255 ∷ 254 ∷ 0 ∷ [])
b64url_decode-encode_example = b64url_decode-encode (b'?' ∷ 255 ∷ 254 ∷ 0 ∷ []) (omega arith)

-- A quote, a backslash, a line feed and a character that has no short form.
abbrev special : Text
special = b'"' ∷ b'\\' ∷ 10 ∷ 1 ∷ []

control_escaped-escaped_example : control_escaped (escaped special) ≡ escape_all special
control_escaped-escaped_example = control_escaped-escaped special

escaped_special : escape_all special ≡ codes "\\\"\\\\\\n\\u0001"
unfolding escape_all
escaped_special = refl

abbrev credential : Json
credential = dict (
    member (codes "source") (str (codes "x"))
      (member (codes "payload") (dict (member (codes "type") (str (codes "a\"b")) end)) end))

abbrev canonical : Text
canonical = codes "{\"payload\":{\"type\":\"a\\\"b\"},\"source\":\"x\"}"

serialized : jcs_serialize credential ≡ some canonical
unfolding jcs_serialize
serialized = refl

read_json-jcs_serialize_example : read_json canonical ≡ some (in_order credential)
read_json-jcs_serialize_example = read_json-jcs_serialize credential serialized

abbrev header : Text
header = codes "Payment eyJwYXlsb2FkIjp7InR5cGUiOiJhXCJiIn0sInNvdXJjZSI6IngifQ"

header_made : build_authorization_header lib credential ≡ some header
unfolding build_authorization_header
header_made = refl

build_authorization_header-Carries_example : Carries lib credential header
build_authorization_header-Carries_example =
    build_authorization_header-Carries lib credential utf8-bytes header_made

-- A parameter with a quote and a comma in its value.
abbrev params : List (Text × Text)
params = (codes "id", codes "c\"1, ") ∷ (codes "x-1", codes "\\") ∷ []

id-IsKey : IsKey (codes "id")
unfolding lower
id-IsKey = record {
  first = b'i';
  others = codes "d";
  parts = refl;
  letter = refl;
  key_chars = (refl, tt);
  low = refl;
}

other-IsKey : IsKey (codes "x-1")
unfolding lower
other-IsKey = record {
  first = b'x';
  others = codes "-1";
  parts = refl;
  letter = refl;
  key_chars = (refl, (refl, tt));
  low = refl;
}

parse_payment_challenge-written_example :
    parse_payment_challenge (
      codes "Payment " ++ all_written (codes "id", codes "c\"1, ") ((codes "x-1", codes "\\") ∷ []))
    ≡ some (as_dict params [])
parse_payment_challenge-written_example =
    parse_payment_challenge-written (codes "id", codes "c\"1, ") ((codes "x-1", codes "\\") ∷ [])
      (id-IsKey, (other-IsKey, tt))

abbrev exchange : Exchange
exchange = record {
  receipt_header = codes " bnVsbA ";
  is_success = true;
  proof_value = none;
  charge_id = codes "c1";
}

abbrev info : SettlementInfo
info = record {
  success = true;
  tx_hash = some (codes "0xabc");
  network_id = codes "mpp";
  amount_paid = some (pos 100);
  facilitator = none;
}

confirmed : confirm_mpp_receipt lib (codes "tempo" ∷ []) (codes "mpp") none exchange ≡ settled info
unfolding confirm_mpp_receipt read_json
confirmed = refl

confirm_mpp_receipt-Backed_example :
    Backed lib (codes "tempo" ∷ []) (codes "mpp") none exchange info
confirm_mpp_receipt-Backed_example =
    confirm_mpp_receipt-Backed lib (codes "tempo" ∷ []) (codes "mpp") none exchange refl confirmed
