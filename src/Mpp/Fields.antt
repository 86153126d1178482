-- ===== src/Mpp/Fields.antt =====
-- The fields of a decoded request, as the two MPP rails of src/routeweiler/rails/ read them.
use routeweiler_python_sdk.Prelude.{
  ℕ, zero, suc, ◌+◌, ◌*◌, ◌-◌, Bool, true, false, Option, none, some, [], ◌∷◌, ◌&&◌, not, leb, ◌==◌,
  if◌then◌else◌,
}
use routeweiler_python_sdk.Prelude.Int.{ℤ, pos, negsuc}
use routeweiler_python_sdk.Texts.{Text, codes, strip}
use routeweiler_python_sdk.Mpp.Jcs.{
  Json, Members, null, bool, int, float, str, arr, dict, nil, cons, end, member,
}
use routeweiler_python_sdk.Mpp.Envelope.{
  challenge_parse, uncaught, Result, ok, err, Converted, value, bad, too_large, Lib, get_member,
}

abbrev is_digit : ℕ → Bool
is_digit c = leb b'0' c && leb c b'9'

-- Digits with single underscores between them, with the number so far and whether a digit is behind.
unfoldable pub digits : Bool → ℕ → Text → Option ℕ
digits after_digit n [] = if after_digit then some n else none
digits after_digit n (c ∷ s) =
    let next = digits true (n * 10 + (c - b'0')) s in
    let skipped = digits false n s in
    if is_digit c then next else if (c == b'_') && after_digit then skipped else none

abbrev pub positive : Option ℕ → Converted
positive none = bad
positive (some n) = value (pos n)

abbrev pub minus : ℕ → ℤ
minus zero = pos 0
minus (suc n) = negsuc n

abbrev pub negative : Option ℕ → Converted
negative none = bad
negative (some n) = value (minus n)

abbrev pub signed : Text → Converted
signed [] = bad
signed (c ∷ s) =
    if c == b'-'
    then negative (digits false 0 s)
    else if c == b'+'
    then positive (digits false 0 s)
    else positive (digits false 0 (c ∷ s))

-- `int(s)` of a text.
unfoldable pub int_of_text : Text → Converted
unfolding strip digits
int_of_text s = signed (strip s)

-- `int(v)`
unfoldable pub int_of : Lib → Json → Converted
unfolding int_of_text
int_of lib null = bad
int_of lib (bool b) = value (pos (if b then 1 else 0))
int_of lib (int n) = value n
int_of lib (float s) = lib.truncate s
int_of lib (str s) = int_of_text s
int_of lib (arr xs) = bad
int_of lib (dict ms) = bad

abbrev is_zero_ℤ : ℤ → Bool
is_zero_ℤ (pos zero) = true
is_zero_ℤ _ = false

-- `bool(v)`
unfoldable pub truthy : Lib → Json → Bool
truthy lib null = false
truthy lib (bool b) = b
truthy lib (int n) = not (is_zero_ℤ n)
truthy lib (float s) = not (lib.is_zero s)
truthy lib (str []) = false
truthy lib (str (c ∷ s)) = true
truthy lib (arr nil) = false
truthy lib (arr (cons x xs)) = true
truthy lib (dict end) = false
truthy lib (dict (member k v ms)) = true

-- `int(req["amount"])`, with its handler.
abbrev pub amount_of : Converted → Result ℤ
amount_of (value n) = ok n
amount_of bad = err challenge_parse
amount_of too_large = err uncaught

-- `int(v)` without a handler.
abbrev pub plain_int : Converted → Result ℤ
plain_int (value n) = ok n
plain_int bad = err uncaught
plain_int too_large = err uncaught

-- A value that is used as a text.
abbrev pub text_of : Json → Result Text
text_of (str s) = ok s
text_of _ = err uncaught

-- The three required fields of a request.
pub record Required : Type 0 where
  pub amount : Json
  pub currency : Json
  pub recipient : Json

abbrev pub all_there : Option Json → Option Json → Option Json → Result Required
all_there (some a) (some c) (some r) = ok (record { amount = a; currency = c; recipient = r })
all_there _ _ _ = err challenge_parse

-- `parse_required_request_fields` and the look-ups that follow. A list or a text passes the test at
-- most, and then fails as an index in `int(req["amount"])`; what is no container fails the test.
unfoldable pub parse_required_request_fields : Json → Result Required
unfolding get_member
parse_required_request_fields (dict ms) =
    all_there (get_member (codes "amount") ms) (get_member (codes "currency") ms)
      (get_member (codes "recipient") ms)
parse_required_request_fields (arr xs) = err challenge_parse
parse_required_request_fields (str s) = err challenge_parse
parse_required_request_fields _ = err uncaught

abbrev pub members_of : Json → Members
members_of (dict ms) = ms
members_of _ = end

-- `req.get("methodDetails", {})`, which has to be a dict for what follows.
unfoldable pub method_details_of : Json → Result Members
unfolding get_member
method_details_of request = elim (get_member (codes "methodDetails") (members_of request)) [
  | none ↦ ok end
  | some (dict ms) ↦ ok ms
  | some _ ↦ err uncaught
]
