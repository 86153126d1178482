-- ===== src/Mpp/Spt.antt =====
-- src/routeweiler/rails/mpp_spt.py: the adapter for Stripe's shared payment tokens. Stripe is a library;
-- texts are the codes of ASCII characters.
pub mod Payment
pub mod Accepted
use routeweiler_python_sdk.Prelude.{
  ℕ, suc, ◌/◌, Bool, true, false, Option, none, some, List, [], ◌∷◌, ◌++◌, ◌&&◌, ◌||◌, not, leb,
  any, find?, length, if◌then◌else◌,
}
use routeweiler_python_sdk.Prelude.Int.{ℤ, pos, negsuc, ltb_ℤ}
use routeweiler_python_sdk.Texts.{Text, codes, text_eq, lower, get}
use routeweiler_python_sdk.Mpp.Jcs.{
  Json, Items, Members, null, bool, int, float, str, arr, dict, nil, cons, end, member, replace,
}
use routeweiler_python_sdk.Mpp.Envelope.{
  challenge_parse, uncaught, Result, ok, err, ◌>>=◌, Lib, Envelope, is_empty, get_member,
  parse_mpp_envelope, compute_mpp_expiry, build_mpp_credential, build_authorization_header,
  is_mpp_payment_for,
}
use routeweiler_python_sdk.Mpp.Receipts.{Exchange, Confirmed, confirm_mpp_receipt}
use routeweiler_python_sdk.Mpp.Fields.{
  Required, int_of, truthy, amount_of, text_of, parse_required_request_fields, method_details_of,
}

-- `_HANDLED_METHODS`
abbrev pub handled_methods : List Text
handled_methods = codes "stripe" ∷ codes "card" ∷ []

-- `_STRIPE_FIAT_MIN_MINOR_UNITS`
abbrev pub stripe_fiat_min_minor_units : ℤ
stripe_fiat_min_minor_units = pos 50

-- `_STRIPE_KNOWN_FIATS`
abbrev pub stripe_known_fiats : List Text
stripe_known_fiats =
    codes "usd"
    ∷ codes "eur"
    ∷ codes "gbp"
    ∷ codes "cad"
    ∷ codes "aud"
    ∷ codes "nzd"
    ∷ codes "chf"
    ∷ codes "sek"
    ∷ codes "dkk"
    ∷ codes "nok"
    ∷ []

abbrev pub is_letter : ℕ → Bool
is_letter c = (leb b'A' c && leb c b'Z') || (leb b'a' c && leb c b'z')

abbrev pub all_letters : Text → Bool
all_letters [] = true
all_letters (c ∷ s) = is_letter c && all_letters s

-- `s.isalpha()`
abbrev pub isalpha : Text → Bool
isalpha s = not (is_empty s) && all_letters s

abbrev pub is_code_length : ℕ → Bool
is_code_length n = leb 2 n && leb n 4

abbrev pub length_items : Items → ℕ
length_items nil = 0
length_items (cons x xs) = suc (length_items xs)

abbrev pub length_members : Members → ℕ
length_members end = 0
length_members (member k v ms) = suc (length_members ms)

abbrev pub is_code : Text → Bool
is_code raw_currency =
    is_code_length (length raw_currency) && isalpha (replace b'-' [] raw_currency)

-- A list or a dict has a length, but no `replace`.
abbrev pub no_replace : Bool → Result Text
no_replace true = err uncaught
no_replace false = err challenge_parse

-- The currency of a request, with the test of its form.
unfoldable pub currency_of : Json → Result Text
unfolding replace
currency_of (str s) = if is_code s then ok s else err challenge_parse
currency_of (arr xs) = no_replace (is_code_length (length_items xs))
currency_of (dict ms) = no_replace (is_code_length (length_members ms))
currency_of _ = err uncaught

-- `amount < 0`
abbrev pub non_negative : ℤ → Result ℤ
non_negative amount = if ltb_ℤ amount (pos 0) then err challenge_parse else ok amount

-- The minimum for the known currencies.
unfoldable pub checked_minimum : Text → ℤ → Result ℤ
unfolding text_eq
checked_minimum iso_currency amount =
    if any (text_eq iso_currency) stripe_known_fiats && ltb_ℤ amount stripe_fiat_min_minor_units
    then err challenge_parse
    else ok amount

-- What `parse` keeps of a challenge, with the fields of `MppSptRailRaw`.
pub record SptChallenge : Type 0 where
  pub amount : ℤ
  pub currency : Text
  pub iso_currency : Text
  pub recipient : Text
  pub challenge_id : Text
  pub expires_at : ℕ
  pub auth_params : List (Text × Text)
  pub seller_details : Members
  pub payment_method_hint : Option Text

module _ (lib : Lib) where
  -- `a or b or None` of the two hints; a hint that is no text fails when the challenge is built.
  abbrev pub header_hint : Option Text → Option Text
  header_hint none = none
  header_hint (some s) = if is_empty s then none else some s

  unfoldable pub hint_of : Option Json → Option Text → Result (Option Text)
  unfolding truthy
  hint_of none other = ok (header_hint other)
  hint_of (some (str [])) other = ok (header_hint other)
  hint_of (some (str (c ∷ s))) other = ok (some (c ∷ s))
  hint_of (some v) other = if truthy lib v then err uncaught else ok (header_hint other)

  -- `sellerDetails`, or the recipient as the account. What is true and no dict fails when the challenge
  -- is built, as does what is false where there is no recipient.
  unfoldable pub seller_details_of : Option Json → Text → Result Members
  unfolding truthy
  seller_details_of none recipient =
      ok (if is_empty recipient then end else member (codes "account") (str recipient) end)
  seller_details_of (some (dict (member k v ms))) recipient = ok (member k v ms)
  seller_details_of (some (dict end)) recipient =
      ok (if is_empty recipient then end else member (codes "account") (str recipient) end)
  seller_details_of (some v) recipient =
      if truthy lib v
      then err uncaught
      else if is_empty recipient
      then err uncaught
      else ok (member (codes "account") (str recipient) end)

  -- `parse`, of the header and the times at which the clock is read.
  unfoldable pub parse : ℕ → ℕ → Text → Result SptChallenge
  unfolding parse_mpp_envelope parse_required_request_fields int_of currency_of checked_minimum
      lower method_details_of get_member get hint_of seller_details_of compute_mpp_expiry
  parse started now header = do
    e ← parse_mpp_envelope lib header
    fields ← parse_required_request_fields e.request
    given ← amount_of (int_of lib fields.amount)
    amount ← non_negative given
    raw_currency ← currency_of fields.currency
    checked ← checked_minimum (lower raw_currency) amount
    details ← method_details_of e.request
    expires_at ← compute_mpp_expiry lib started now e.params
    recipient ← text_of fields.recipient
    hint ←
        hint_of (get_member (codes "paymentMethodHint") details)
          (get (codes "payment_method_hint") e.params)
    seller_details ← seller_details_of (get_member (codes "sellerDetails") details) recipient
    ok (record {
      amount = checked;
      currency = lower raw_currency ++ codes "-fiat";
      iso_currency = lower raw_currency;
      recipient = recipient;
      challenge_id = e.challenge_id;
      expires_at = expires_at;
      auth_params = e.params;
      seller_details = seller_details;
      payment_method_hint = hint;
    })

-- `can_handle`, of the status and the header.
unfoldable pub can_handle : ℕ → Text → Bool
unfolding is_mpp_payment_for
can_handle status_code header = is_mpp_payment_for status_code header handled_methods

-- `confirm`
unfoldable pub confirm : Lib → Exchange → Confirmed
unfolding confirm_mpp_receipt
confirm lib x = confirm_mpp_receipt lib handled_methods (codes "stripe") (some (codes "stripe")) x
