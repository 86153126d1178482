-- ===== src/Mpp/Tempo/Wallet.antt =====
-- `EthAccountTempoSigner` of src/routeweiler/funding/tempo.py. An amount below 0 raises OverflowError.
use routeweiler_python_sdk.Prelude.{ℕ, Option, none}
use routeweiler_python_sdk.Prelude.Int.{pos, negsuc}
use routeweiler_python_sdk.Bytes.{Bytes}
use routeweiler_python_sdk.Texts.{Text}
use routeweiler_python_sdk.Tempo.Transaction.{Ethereum, Transfer, sign_tempo_transaction}
use routeweiler_python_sdk.Mpp.Tempo.Payment.{SignRequest, TempoFundingSource}

-- A local wallet, which is its key and its address, on a chain.
pub record EthAccountTempoSigner : Type 0 where
  pub key : Bytes
  pub address : Text
  pub chain_id : ℕ

-- The arguments, with the defaults of those that are not given.
unfoldable pub transfer_of : EthAccountTempoSigner → SignRequest → ℕ → Transfer
transfer_of signer q amount = record {
  key = signer.key;
  chain_id = signer.chain_id;
  tip20_token = q.tip20_token;
  recipient = q.recipient;
  amount = amount;
  nonce_key = q.nonce_key;
  nonce = q.nonce;
  valid_before = q.valid_before;
  valid_after = 0;
  fee_payer = q.fee_payer;
  max_priority_fee_per_gas = 0;
  max_fee_per_gas = 20_000_000_000;
  gas_limit = 350_000;
}

-- `sign_transaction`
unfoldable pub sign_transaction : Ethereum → EthAccountTempoSigner → SignRequest → Option Text
unfolding transfer_of sign_tempo_transaction
sign_transaction eth signer q = elim q.amount [
  | negsuc n ↦ none
  | pos amount ↦ sign_tempo_transaction eth (transfer_of signer q amount)
]

-- A funding source with this signer.
unfoldable pub wallet_source :
    Ethereum → EthAccountTempoSigner → Text → Option ℕ → TempoFundingSource
unfolding sign_transaction
wallet_source eth signer asset fetch_nonce = record {
  chain_id = pos signer.chain_id;
  address = signer.address;
  asset = asset;
  fetch_nonce = fetch_nonce;
  sign_transaction = sign_transaction eth signer;
}
