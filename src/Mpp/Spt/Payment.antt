-- ===== src/Mpp/Spt/Payment.antt =====
-- src/routeweiler/rails/mpp_spt.py: the funding source and the payment of a challenge.
use routeweiler_python_sdk.Prelude.{
  ℕ, ◌/◌, Bool, Option, none, some, List, ◌++◌, ◌&&◌, find?, if◌then◌else◌,
}
use routeweiler_python_sdk.Prelude.Int.{ℤ}
use routeweiler_python_sdk.Texts.{Text, codes, text_eq, lower}
use routeweiler_python_sdk.Mpp.Jcs.{Json, Members, str, end, member}
use routeweiler_python_sdk.Mpp.Envelope.{
  Lib, is_empty, build_mpp_credential, build_authorization_header,
}
use routeweiler_python_sdk.Mpp.Spt.{SptChallenge}

-- The `usage_limits` of a token, with what it is for.
pub record SptRequest : Type 0 where
  pub currency : Text
  pub max_amount : ℤ
  pub expires_at : ℕ
  pub seller_details : Members
  pub payment_method : Text
  pub customer : Text

-- `StripeFundingSource`; `none` is an exception of Stripe.
pub record StripeFundingSource : Type 0 where
  pub customer : Text
  pub payment_method : Text
  pub currency : Text
  pub create_spt : SptRequest → Option Text

abbrev pub pays_in : Text → StripeFundingSource → Bool
pays_in iso_currency fs = text_eq (lower fs.currency) (lower iso_currency)

abbrev pub or_else :
    Option StripeFundingSource → Option StripeFundingSource → Option StripeFundingSource
or_else (some fs) other = some fs
or_else none other = other

-- `match_funding`
unfoldable pub match_funding : SptChallenge → List StripeFundingSource → Option StripeFundingSource
unfolding text_eq lower
match_funding c funding =
    let hinted : Option StripeFundingSource = elim c.payment_method_hint [
      | none ↦ none
      | some pm_hint ↦
          if is_empty pm_hint
          then none
          else find? (λ fs. pays_in c.iso_currency fs && text_eq fs.payment_method pm_hint) funding
    ] in
    or_else hinted (find? (pays_in c.iso_currency) funding)

-- The persisted credential and the header of a PaymentResult.
pub record PaymentResult : Type 0 where
  pub header_value : Text
  pub charge_id : Text
  pub spt_id : Text
  pub expires_at_unix : ℕ
  pub currency : Text
  pub amount : ℤ

pub data Payment : Type 0 where
  paid : PaymentResult → Payment
  no_funding_for_rail spt_creation failed : Payment

abbrev pub microseconds : ℕ
microseconds = 1_000_000

-- What `pay` asks Stripe for.
unfoldable pub spt_request : SptChallenge → StripeFundingSource → SptRequest
spt_request c source = record {
  currency = c.iso_currency;
  max_amount = c.amount;
  expires_at = c.expires_at / microseconds;
  seller_details = c.seller_details;
  payment_method = source.payment_method;
  customer = source.customer;
}

unfoldable pub credential_of : SptChallenge → StripeFundingSource → Text → Json
unfolding build_mpp_credential
credential_of c source spt_id =
    build_mpp_credential c.challenge_id c.auth_params (codes "stripe")
      (member (codes "type") (str (codes "shared_payment_granted_token"))
        (member (codes "id") (str spt_id) end))
      (codes "stripe:customer:" ++ source.customer)

module _ (lib : Lib) where
  abbrev pub result_of : SptChallenge → Text → Option Text → Payment
  result_of c spt_id none = failed
  result_of c spt_id (some header_value) = paid (record {
    header_value = header_value;
    charge_id = c.challenge_id;
    spt_id = spt_id;
    expires_at_unix = c.expires_at / microseconds;
    currency = c.iso_currency;
    amount = c.amount;
  })

  -- `pay`
  unfoldable pub pay : List StripeFundingSource → SptChallenge → Payment
  unfolding match_funding spt_request credential_of build_authorization_header
  pay funding c = elim (match_funding c funding) [
    | none ↦ no_funding_for_rail
    | some source ↦ elim (source.create_spt (spt_request c source)) [
      | none ↦ spt_creation
      | some spt_id ↦
          result_of c spt_id (build_authorization_header lib (credential_of c source spt_id))
    ]
  ]
