-- ===== src/Tests/Rails.antt =====
-- Payments over src/routeweiler/rails/mpp_spt.py, mpp_tempo.py and x402.py.
use routeweiler_python_sdk.Prelude.{
  ◌≡◌, refl, false, arith, true, Option, none, some, List, [], ◌∷◌,
}
use routeweiler_python_sdk.Prelude.Int.{pos}
use routeweiler_python_sdk.Texts.{Text, codes}
use routeweiler_python_sdk.Mpp.Jcs.{null, int, str, dict, end, member}
use routeweiler_python_sdk.Mpp.Jcs.Reader.{read_json}
use routeweiler_python_sdk.Mpp.Envelope.{ok, build_authorization_header}
use routeweiler_python_sdk.Mpp.Spt.{SptChallenge}
use routeweiler_python_sdk.Mpp.Spt.Accepted.{IsPayable, parse-IsPayable}
use routeweiler_python_sdk.Mpp.Tempo.{TempoChallenge}
use routeweiler_python_sdk.Mpp.Tempo.Payment.{
  TempoFundingSource, PaymentResult, paid, no_funding_for_rail,
}
use routeweiler_python_sdk.Mpp.Tempo.Paid.{Behind, pay-Behind}
use routeweiler_python_sdk.X402.{
  Requirements, Decoder, EvmFundingSource, X402Challenge, signed, pay,
}
use routeweiler_python_sdk.Tempo.Transaction.{tx_hash}
use routeweiler_python_sdk.Mpp.Tempo.Wallet.{EthAccountTempoSigner, wallet_source}
use routeweiler_python_sdk.Mpp.Tempo.OnChain.{source, OnChain, pay-OnChain}
use routeweiler_python_sdk.Tests.Wire.{eth, recipient, token, recipient_parsed, token_parsed}
use routeweiler_python_sdk.X402.Priced.{Backed, pay-Backed}
use routeweiler_python_sdk.Mpp.Spt
use routeweiler_python_sdk.Mpp.Tempo
use routeweiler_python_sdk.Mpp.Tempo.Payment
use routeweiler_python_sdk.X402
use routeweiler_python_sdk.X402.Settled
use routeweiler_python_sdk.L402.Handled
use routeweiler_python_sdk.Exclusive.{AtMostOne, can_handle-AtMostOne}
use routeweiler_python_sdk.Tests.Mpp.{utf8-bytes, lib}

-- A request for 100 US cents.
abbrev spt_header : Text
spt_header =
    codes
      "Payment id=\"c1\", request=\"eyJhbW91bnQiOiIxMDAiLCJjdXJyZW5jeSI6IlVTRCIsInJlY2lwaWVudCI6ImFjY3RfMSJ9\""

abbrev spt_challenge : SptChallenge
spt_challenge = record {
  amount = pos 100;
  currency = codes "usd-fiat";
  iso_currency = codes "usd";
  recipient = codes "acct_1";
  challenge_id = codes "c1";
  expires_at = 300_001_000;
  auth_params =
      (codes "id", codes "c1")
      ∷ (
        codes "request",
        codes "eyJhbW91bnQiOiIxMDAiLCJjdXJyZW5jeSI6IlVTRCIsInJlY2lwaWVudCI6ImFjY3RfMSJ9",
      )
      ∷ [];
  seller_details = member (codes "account") (str (codes "acct_1")) end;
  payment_method_hint = none;
}

spt_parsed : Spt.parse lib 1_000 2_000 spt_header ≡ ok spt_challenge
unfolding Spt.parse read_json
spt_parsed = refl

parse-IsPayable_example : IsPayable 2_000 spt_challenge
parse-IsPayable_example = parse-IsPayable lib 1_000 2_000 spt_header spt_parsed

abbrev tempo_source : TempoFundingSource
tempo_source = record {
  chain_id = pos 42431;
  address = codes "0xme";
  asset = codes "0xAB";
  fetch_nonce = some 7;
  sign_transaction = λ q. some (codes "0x76");
}

abbrev tempo_challenge : TempoChallenge
tempo_challenge = record {
  amount = pos 5;
  currency = codes "0xab-tip20";
  currency_contract = codes "0xab";
  recipient = codes "0xyou";
  charge_id = codes "c1";
  expires_at = 300_001_000;
  auth_params = [];
  chain_id = pos 42431;
  fee_payer = false;
  network = codes "tempo-moderato";
}

abbrev tempo_tx_hash : Text → Option Text
tempo_tx_hash signed_tx = some (codes "0xhash")

abbrev tempo_funding : List TempoFundingSource
tempo_funding = record tempo_source { chain_id = pos 42430 } ∷ tempo_source ∷ []

abbrev tempo_result : PaymentResult
tempo_result = record {
  header_value =
      codes
        "Payment eyJjaGFsbGVuZ2UiOnsiaWQiOiJjMSIsImludGVudCI6ImNoYXJnZSIsIm1ldGhvZCI6InRlbXBvIn0sInBheWxvYWQiOnsic2lnbmF0dXJlIjoiMHg3NiIsInR5cGUiOiJ0cmFuc2FjdGlvbiJ9LCJzb3VyY2UiOiJkaWQ6cGtoOmVpcDE1NTo0MjQzMToweG1lIn0";
  charge_id = codes "c1";
  signed_tx = codes "0x76";
  tx_hash = codes "0xhash";
  chain_id = pos 42431;
  challenge_echo = dict (
      member (codes "id") (str (codes "c1")) (
        member (codes "method") (str (codes "tempo"))
          (member (codes "intent") (str (codes "charge")) end)));
}

tempo_paid : Payment.pay lib tempo_tx_hash tempo_funding tempo_challenge ≡ paid tempo_result
unfolding Payment.pay Payment.credential_of build_authorization_header
tempo_paid = refl

pay-Behind_example : Behind lib tempo_tx_hash tempo_funding tempo_challenge tempo_result
pay-Behind_example =
    pay-Behind lib tempo_tx_hash tempo_funding tempo_challenge utf8-bytes tempo_paid

-- Two entries, on Base and on Polygon.
abbrev entry : Text → Text → Requirements
entry network amount = record {
  scheme = codes "exact";
  network = network;
  amount = amount;
  asset = codes "0xaa";
  pay_to = codes "0xyou";
  max_timeout_seconds = 60;
  extra = end;
}

abbrev decoder : Decoder
decoder = record {
  json = lib;
  payload = read_json;
  is_two = λ s. false;
  validate = λ j. elim j [
    | int n ↦ some (entry (codes "eip155:8453") (codes "5"))
    | null ↦ some (entry (codes "eip155:137") (codes "900"))
    | _ ↦ none
  ];
  fromtimestamp = λ n. none;
}

abbrev x402_header : Text
x402_header = codes "{\"accepts\":[1,null],\"x402Version\":2}"

abbrev x402_challenge : X402Challenge
x402_challenge = record {
  amount = pos 5;
  currency = codes "eip155:8453/erc20:0xaa";
  payee = codes "0xyou";
  nonce = [];
  expires_at = 60_001_000;
  accepts = entry (codes "eip155:8453") (codes "5") ∷ entry (codes "eip155:137") (codes "900") ∷ [];
}

x402_parsed : X402.parse decoder 1_000 2_000 x402_header ≡ ok x402_challenge
unfolding X402.parse read_json
x402_parsed = refl

-- A wallet on Polygon alone pays a challenge whose price is that of the entry on Base.
abbrev x402_funding : List EvmFundingSource
x402_funding = record { network = codes "polygon"; asset = codes "0xAA" } ∷ []

abbrev sign : List Requirements → Option Text
sign accepts = some (codes "signed")

x402_paid : pay sign x402_funding x402_challenge ≡ signed (codes "signed")
unfolding pay
x402_paid = refl

pay-Backed_example : Backed sign x402_funding 2_000 x402_challenge (codes "signed")
pay-Backed_example =
    pay-Backed decoder sign x402_funding 1_000 2_000 x402_header x402_parsed x402_paid

-- A local wallet on the same chain.
abbrev signer : EthAccountTempoSigner
signer = record { key = 0x11 ∷ 0x22 ∷ []; address = codes "0xme"; chain_id = 42431 }

abbrev wallet_challenge : TempoChallenge
wallet_challenge = record tempo_challenge {
  amount = pos 1_500_000;
  currency_contract = codes "0x20c0000000000000000000000000000000000000";
  recipient = codes "0x00112233445566778899AABBccddeeff00112233";
}

abbrev contract : Text
contract = codes "0x20C0000000000000000000000000000000000000"

abbrev wallets : List TempoFundingSource
wallets = tempo_source ∷ source eth lib signer contract 7 wallet_challenge 1_500_000 ∷ []

matched :
    Payment.match_funding wallet_challenge wallets
    ≡ some (source eth lib signer contract 7 wallet_challenge 1_500_000)
unfolding Payment.match_funding wallet_source
matched = refl

pay-OnChain_example :
    (r : PaymentResult) × (Payment.pay lib (tx_hash eth) wallets wallet_challenge ≡ paid r)
    × OnChain eth lib signer contract 7 wallet_challenge 1_500_000 recipient token r
pay-OnChain_example =
    pay-OnChain eth lib signer contract 7 wallet_challenge 1_500_000 wallets matched refl
      recipient_parsed token_parsed refl refl (omega arith) (omega arith) (omega arith)
      (omega arith) (λ digest. (omega arith, omega arith, omega arith)) utf8-bytes

-- A header of MPP-Tempo.
can_handle-AtMostOne_example :
    AtMostOne
      (Handled.can_handle 402 (codes "Payment method=\"Tempo\""))
      (Tempo.can_handle 402 (codes "Payment method=\"Tempo\""))
      (Spt.can_handle 402 (codes "Payment method=\"Tempo\""))
can_handle-AtMostOne_example = can_handle-AtMostOne 402 (codes "Payment method=\"Tempo\"")

tempo_handled : Tempo.can_handle 402 (codes " payment method=\"Tempo\"") ≡ true
unfolding Tempo.can_handle
tempo_handled = refl

lsat_handled : Handled.can_handle 402 (codes " LSAT macaroon=x") ≡ true
unfolding Handled.can_handle
lsat_handled = refl

-- The payload decides, also where the response is no success.
settlement :
    Settled.parse_settlement decoder
      (codes "{\"success\":true,\"txHash\":\"\",\"transaction\":\"0x1\",\"amountPaid\":\"7\"}")
      false
    ≡ ok (record {
      success = true;
      tx_hash = some (str (codes "0x1"));
      network_id = none;
      payer_address = none;
      amount_paid = some (pos 7);
      facilitator = none;
    })
unfolding Settled.parse_settlement read_json
settlement = refl
