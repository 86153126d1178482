-- ===== src/Mpp/Tempo/Payment.antt =====
-- src/routeweiler/rails/mpp_tempo.py: the funding source and the payment of a challenge.
use routeweiler_python_sdk.Prelude.{
  ℕ, ◌/◌, Bool, false, Option, none, some, List, [], ◌∷◌, ◌++◌, ◌&&◌, find?, if◌then◌else◌,
}
use routeweiler_python_sdk.Prelude.Int.{ℤ}
use routeweiler_python_sdk.Texts.{Text, codes, text_eq, starts_with, lower}
use routeweiler_python_sdk.Mpp.Jcs.{Json, str, dict, end, member, decimal}
use routeweiler_python_sdk.Mpp.Envelope.{Lib, build_mpp_credential, build_authorization_header}
use routeweiler_python_sdk.Mpp.Tempo.{TempoChallenge, same_ℤ, resolve_contract}

-- The arguments of `sign_transaction` that `pay` gives; the others have their defaults.
pub record SignRequest : Type 0 where
  pub tip20_token : Text
  pub recipient : Text
  pub amount : ℤ
  pub nonce_key : ℕ
  pub nonce : ℕ
  pub valid_before : ℕ
  pub fee_payer : Bool

-- `TempoFundingSource`, its signer and its RPC; `none` is an exception.
pub record TempoFundingSource : Type 0 where
  pub chain_id : ℤ
  pub address : Text
  pub asset : Text
  pub fetch_nonce : Option ℕ
  pub sign_transaction : SignRequest → Option Text

-- Whether a source pays in the token of the challenge.
unfoldable pub asset_matches : Text → Text → Text → Bool
unfolding lower starts_with text_eq resolve_contract
asset_matches network asset contract =
    let resolved : Bool = elim (resolve_contract network asset) [
      | none ↦ false
      | some [] ↦ false
      | some (c ∷ s) ↦ text_eq (lower (c ∷ s)) (lower contract)
    ] in
    if starts_with (codes "0x") (lower asset)
    then text_eq (lower asset) (lower contract)
    else resolved

-- `match_funding`
unfoldable pub match_funding : TempoChallenge → List TempoFundingSource → Option TempoFundingSource
unfolding asset_matches
match_funding c funding =
    find?
      (λ fs. same_ℤ fs.chain_id c.chain_id && asset_matches c.network fs.asset c.currency_contract)
      funding

-- The `credential` and the header of a PaymentResult.
pub record PaymentResult : Type 0 where
  pub header_value : Text
  pub charge_id : Text
  pub signed_tx : Text
  pub tx_hash : Text
  pub chain_id : ℤ
  pub challenge_echo : Json

pub data Payment : Type 0 where
  paid : PaymentResult → Payment
  no_funding_for_rail mpp_charge_failed failed : Payment

abbrev pub microseconds : ℕ
microseconds = 1_000_000

-- What `pay` asks the signer for.
unfoldable pub sign_request : TempoChallenge → ℕ → SignRequest
sign_request c nonce = record {
  tip20_token = c.currency_contract;
  recipient = c.recipient;
  amount = c.amount;
  nonce_key = 0;
  nonce = nonce;
  valid_before = c.expires_at / microseconds;
  fee_payer = c.fee_payer;
}

-- The credential of a signed transaction.
unfoldable pub credential_of : TempoChallenge → TempoFundingSource → Text → Json
unfolding build_mpp_credential decimal
credential_of c source signed_tx_hex =
    build_mpp_credential c.charge_id c.auth_params (codes "tempo")
      (member (codes "type") (str (codes "transaction"))
        (member (codes "signature") (str signed_tx_hex) end))
      (codes "did:pkh:eip155:" ++ decimal c.chain_id ++ codes ":" ++ source.address)

abbrev pub challenge_part : Json → Json
challenge_part (dict (member k v ms)) = v
challenge_part j = j

module _ (lib : Lib) (tempo_tx_hash : Text → Option Text) where
  abbrev pub result_of :
      TempoChallenge → TempoFundingSource → Text → Option Text → Option Text → Payment
  result_of c source signed_tx_hex (some computed_hash) (some header_value) = paid (record {
    header_value = header_value;
    charge_id = c.charge_id;
    signed_tx = signed_tx_hex;
    tx_hash = computed_hash;
    chain_id = c.chain_id;
    challenge_echo = challenge_part (credential_of c source signed_tx_hex);
  })
  result_of c source signed_tx_hex _ _ = failed

  abbrev pub signed : TempoChallenge → TempoFundingSource → Option Text → Payment
  signed c source none = mpp_charge_failed
  signed c source (some signed_tx_hex) =
      result_of c source signed_tx_hex (tempo_tx_hash signed_tx_hex)
        (build_authorization_header lib (credential_of c source signed_tx_hex))

  -- `pay`
  unfoldable pub pay : List TempoFundingSource → TempoChallenge → Payment
  unfolding match_funding sign_request
  pay funding c = elim (match_funding c funding) [
    | none ↦ no_funding_for_rail
    | some source ↦ elim source.fetch_nonce [
      | none ↦ mpp_charge_failed
      | some nonce ↦ signed c source (source.sign_transaction (sign_request c nonce))
    ]
  ]
