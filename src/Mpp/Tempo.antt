-- ===== src/Mpp/Tempo.antt =====
-- src/routeweiler/rails/mpp_tempo.py: the adapter for Tempo. The JSON-RPC that reads a nonce is a library.
pub mod Payment
pub mod Paid
pub mod Wallet
pub mod OnChain
use routeweiler_python_sdk.Prelude.{
  ℕ, ◌/◌, Bool, true, false, Option, none, some, List, [], ◌∷◌, ◌++◌, ◌&&◌, ◌==◌, find?, any,
  if◌then◌else◌,
}
use routeweiler_python_sdk.Prelude.Int.{ℤ, pos, negsuc}
use routeweiler_python_sdk.Texts.{Text, codes, text_eq, starts_with, lower, get}
use routeweiler_python_sdk.Assets.{get_pair, canonical_addresses}
use routeweiler_python_sdk.Mpp.Jcs.{
  Json, Items, Members, null, bool, int, float, str, arr, dict, nil, cons, end, member, decimal,
}
use routeweiler_python_sdk.Mpp.Envelope.{
  challenge_parse, uncaught, Result, ok, err, ◌>>=◌, Lib, Envelope, or_empty, get_member, get_or,
  parse_mpp_envelope, compute_mpp_expiry, build_mpp_credential, build_authorization_header,
  is_mpp_payment_for,
}
use routeweiler_python_sdk.Mpp.Receipts.{Exchange, Confirmed, confirm_mpp_receipt}
use routeweiler_python_sdk.Mpp.Fields.{
  Required, int_of, truthy, amount_of, plain_int, text_of, parse_required_request_fields,
  method_details_of,
}

abbrev pub same_ℤ : ℤ → ℤ → Bool
same_ℤ (pos a) (pos b) = a == b
same_ℤ (negsuc a) (negsuc b) = a == b
same_ℤ _ _ = false

-- What `parse` keeps of a challenge, with the fields of `MppTempoRailRaw`.
pub record TempoChallenge : Type 0 where
  pub amount : ℤ
  pub currency : Text
  pub currency_contract : Text
  pub recipient : Text
  pub charge_id : Text
  pub expires_at : ℕ
  pub auth_params : List (Text × Text)
  pub chain_id : ℤ
  pub fee_payer : Bool
  pub network : Text

-- `_tip20_currency_string`
unfoldable pub tip20_currency_string : Text → Text
unfolding lower
tip20_currency_string contract = lower contract ++ codes "-tip20"

-- `_CHAIN_ID_TO_NETWORK`, with the name of any other chain.
unfoldable pub network_of : ℤ → Text
unfolding decimal
network_of chain_id =
    if same_ℤ chain_id (pos 42430)
    then codes "tempo"
    else if same_ℤ chain_id (pos 42431)
    then codes "tempo-moderato"
    else codes "tempo-chain-" ++ decimal chain_id

-- `_resolve_contract`
unfoldable pub resolve_contract : Text → Text → Option Text
unfolding starts_with canonical_addresses get_pair
resolve_contract network asset =
    if starts_with (codes "0x") asset
    then some asset
    else get_pair network asset canonical_addresses

-- `"pull" in [m.lower() for m in supported_modes]`
unfoldable pub items_have_pull : Items → Result Bool
unfolding lower text_eq
items_have_pull nil = ok false
items_have_pull (cons (str m) xs) =
    items_have_pull xs >>= λ later. ok (if text_eq (lower m) (codes "pull") then true else later)
items_have_pull (cons _ xs) = err uncaught

unfoldable pub keys_have_pull : Members → Bool
unfolding lower text_eq
keys_have_pull end = false
keys_have_pull (member k v ms) =
    let later = keys_have_pull ms in if text_eq (lower k) (codes "pull") then true else later

-- A text is a list of its characters, none of which is "pull".
unfoldable pub has_pull : Option Json → Result Bool
unfolding items_have_pull keys_have_pull
has_pull none = ok true
has_pull (some (arr xs)) = items_have_pull xs
has_pull (some (str s)) = ok false
has_pull (some (dict ms)) = ok (keys_have_pull ms)
has_pull (some _) = err uncaught

abbrev pub pull_only : Bool → Result (Unit {0})
pull_only true = ok tt
pull_only false = err challenge_parse

module _ (lib : Lib) where
  abbrev pub or_false : Option Json → Bool
  or_false none = false
  or_false (some v) = truthy lib v

  -- `methodDetails.chainId`
  abbrev pub chain_id_of : Option Json → Result ℤ
  chain_id_of none = err challenge_parse
  chain_id_of (some null) = err challenge_parse
  chain_id_of (some v) = plain_int (int_of lib v)

  -- `parse`, of the header and the times at which the clock is read.
  unfoldable pub parse : ℕ → ℕ → Text → Result TempoChallenge
  unfolding parse_mpp_envelope parse_required_request_fields int_of method_details_of get_member
      truthy has_pull compute_mpp_expiry tip20_currency_string network_of
  parse started now header = do
    e ← parse_mpp_envelope lib header
    fields ← parse_required_request_fields e.request
    amount ← amount_of (int_of lib fields.amount)
    details ← method_details_of e.request
    chain_id ← chain_id_of (get_member (codes "chainId") details)
    let fee_payer = or_false (get_member (codes "feePayer") details)
    pull ← has_pull (get_member (codes "supportedModes") details)
    pull_only pull >>= λ _. do
      expires_at ← compute_mpp_expiry lib started now e.params
      currency_contract ← text_of fields.currency
      recipient ← text_of fields.recipient
      ok (record {
        amount = amount;
        currency = tip20_currency_string currency_contract;
        currency_contract = currency_contract;
        recipient = recipient;
        charge_id = e.challenge_id;
        expires_at = expires_at;
        auth_params = e.params;
        chain_id = chain_id;
        fee_payer = fee_payer;
        network = network_of chain_id;
      })

-- `can_handle`, of the status and the header.
unfoldable pub can_handle : ℕ → Text → Bool
unfolding is_mpp_payment_for
can_handle status_code header = is_mpp_payment_for status_code header (codes "tempo" ∷ [])

-- `confirm`
unfoldable pub confirm : Lib → Exchange → Confirmed
unfolding confirm_mpp_receipt
confirm lib x =
    confirm_mpp_receipt lib (codes "tempo" ∷ []) (codes "tempo") (some (codes "tempo")) x
