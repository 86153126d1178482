-- ===== src/Mpp/Tempo/OnChain.antt =====
-- A payment over Tempo with a local wallet, from the challenge to the transaction on the wire.
use routeweiler_python_sdk.Prelude.{
  if◌then◌else◌, ℕ, ◌*◌, ◌/◌, ◌≡◌, refl, some, List, [], ◌∷◌, ◌++◌, length, All, arith,
}
use routeweiler_python_sdk.Prelude.Int.{pos}
use routeweiler_python_sdk.Bytes.{Bytes, IsByte, to_bytes, zeros}
use routeweiler_python_sdk.Bytes.Hex.{hex, fromhex, remove_0x}
use routeweiler_python_sdk.Texts.{Text, codes}
use routeweiler_python_sdk.Tempo.{Rlp, int, bytes, rlp_encode_item}
use routeweiler_python_sdk.Tempo.Decode.{decode, Item}
use routeweiler_python_sdk.Tempo.Meaning.{StandsFor}
use routeweiler_python_sdk.Tempo.RoundTrip.{view, view-StandsFor}
use routeweiler_python_sdk.Tempo.Transaction.{
  Ethereum, Transfer, addr_bytes, py_list, unsigned_body, sender_signature, sign_tempo_transaction,
  tx_hash,
}
use routeweiler_python_sdk.Tempo.Signed.{IsWord, IsSignature, HoldsWords, calldata_of}
use routeweiler_python_sdk.Tempo.Returned.{sign_tempo_transaction_roundtrip}
use routeweiler_python_sdk.Tempo.Hash.{tx_hash-sign_tempo_transaction}
use routeweiler_python_sdk.Mpp.Jcs.{str, member, end}
use routeweiler_python_sdk.Mpp.Envelope.{Lib, build_authorization_header}
use routeweiler_python_sdk.Mpp.Credentials.{Carries, build_authorization_header-Carries}
use routeweiler_python_sdk.Mpp.Built.{
  IsSome, serialize_members-IsSome, str-IsSome, end-IsSome, build_mpp_credential-IsSome,
}
use routeweiler_python_sdk.Mpp.Tempo.{TempoChallenge}
use routeweiler_python_sdk.Mpp.Tempo.Payment.{
  TempoFundingSource, match_funding, PaymentResult, paid, microseconds, sign_request, credential_of,
  challenge_part, pay,
}
use routeweiler_python_sdk.Mpp.Tempo.Wallet.{
  EthAccountTempoSigner, transfer_of, sign_transaction, wallet_source,
}

module _ (eth : Ethereum) (lib : Lib) (signer : EthAccountTempoSigner) (asset : Text) (nonce : ℕ)
    (c : TempoChallenge) (amount : ℕ) where
  -- The source of the wallet, and the transfer that it has to sign: the fields of the challenge, with the
  -- defaults of the signer for the fees.
  abbrev pub source : TempoFundingSource
  source = wallet_source eth signer asset (some nonce)

  abbrev pub transfer : Transfer
  transfer = record {
    key = signer.key;
    chain_id = signer.chain_id;
    tip20_token = c.currency_contract;
    recipient = c.recipient;
    amount = amount;
    nonce_key = 0;
    nonce = nonce;
    valid_before = c.expires_at / microseconds;
    valid_after = 0;
    fee_payer = c.fee_payer;
    max_priority_fee_per_gas = 0;
    max_fee_per_gas = 20_000_000_000;
    gas_limit = 350_000;
  }

  -- The thirteen fields that are signed, in the order of the wire format.
  abbrev pub fields : Bytes → Bytes → List Rlp
  fields recipient token =
      int signer.chain_id
      ∷ int 0
      ∷ int 20_000_000_000
      ∷ int 350_000
      ∷ py_list (
          py_list (
            bytes token
            ∷ int 0
            ∷ bytes (
                (0xa9 ∷ 0x05 ∷ 0x9c ∷ 0xbb ∷ []) ++ ((zeros 12 ++ recipient) ++ to_bytes 32 amount))
            ∷ [])
          ∷ [])
      ∷ py_list []
      ∷ int 0
      ∷ int nonce
      ∷ int (c.expires_at / microseconds)
      ∷ int 0
      ∷ bytes (if c.fee_payer then zeros 20 else token)
      ∷ bytes []
      ∷ py_list []
      ∷ []

  -- A result whose header carries the credential of a transaction. A reader of the transaction gets an
  -- item that stands for the fields and the signature of their encoding, and the hash of the result is
  -- that of its bytes.
  pub record OnChain (recipient token : Bytes) (r : PaymentResult) : Type 0 where
    pub raw : Bytes
    pub signature : Bytes
    pub item : Item
    pub sent : r.signed_tx ≡ b'0' ∷ b'x' ∷ b'7' ∷ b'6' ∷ hex raw
    pub decoded : decode (2 * length raw) (raw ++ []) ≡ some (item, [])
    pub stands : StandsFor item (py_list (fields recipient token ++ bytes signature ∷ []))
    pub plain : Bytes
    pub unsigned : rlp_encode_item (py_list (fields recipient token)) ≡ some plain
    pub by :
        sender_signature (eth.sign_msg_hash signer.key (eth.keccak (0x76 ∷ plain))) ≡ some signature
    pub wire : Bytes
    pub read : fromhex (remove_0x r.signed_tx) ≡ some (0x76 ∷ wire)
    pub hash : r.tx_hash ≡ b'0' ∷ b'x' ∷ hex (eth.keccak (0x76 ∷ wire))
    pub carries : Carries lib (credential_of c source r.signed_tx) r.header_value

  fields-unsigned_body :
      (recipient token : Bytes)
      → unsigned_body transfer token (calldata_of recipient amount) ≡ fields recipient token
  unfolding unsigned_body
  fields-unsigned_body recipient token = refl

  credential-IsSome :
      (signed_tx : Text)
      → IsSome (build_authorization_header lib (credential_of c source signed_tx))
  unfolding credential_of
  credential-IsSome signed_tx =
      build_mpp_credential-IsSome lib c.charge_id c.auth_params (codes "tempo")
        (member (codes "type") (str (codes "transaction"))
          (member (codes "signature") (str signed_tx) end))
        _
        (serialize_members-IsSome (codes "type") (str (codes "transaction"))
          (member (codes "signature") (str signed_tx) end) (str-IsSome (codes "transaction"))
          (serialize_members-IsSome (codes "signature") (str signed_tx) end (str-IsSome signed_tx)
            end-IsSome))

  words-transfer :
      IsWord signer.chain_id
      → IsWord amount
      → IsWord nonce
      → IsWord (c.expires_at / microseconds)
      → HoldsWords transfer
  words-transfer chain paid_amount counted due = record {
    chain_id = chain;
    amount = paid_amount;
    nonce_key = omega arith;
    nonce = counted;
    valid_before = due;
    valid_after = omega arith;
    max_priority_fee_per_gas = omega arith;
    max_fee_per_gas = omega arith;
    gas_limit = omega arith;
  }

  source-signs :
      {text : Text}
      → c.amount ≡ pos amount
      → sign_tempo_transaction eth transfer ≡ some text
      → source.sign_transaction (sign_request c nonce) ≡ some text
  unfolding wallet_source sign_transaction sign_request transfer_of
  source-signs price h = rw price h

  -- `pay` once its three calls are known.
  pay_lem :
      (funding : List TempoFundingSource) {text hash header : Text}
      → match_funding c funding ≡ some source
      → source.sign_transaction (sign_request c nonce) ≡ some text
      → tx_hash eth text ≡ some hash
      → build_authorization_header lib (credential_of c source text) ≡ some header
      → (r : PaymentResult) × (pay lib (tx_hash eth) funding c ≡ paid r)
        × (r.signed_tx ≡ text)
        × (r.tx_hash ≡ hash)
        × (r.header_value ≡ header)
  unfolding pay wallet_source
  pay_lem funding {text} {hash} {header} matched signs hashes made = (
    record {
      header_value = header;
      charge_id = c.charge_id;
      signed_tx = text;
      tx_hash = hash;
      chain_id = c.chain_id;
      challenge_echo = challenge_part (credential_of c source text);
    },
    rw (matched, pay) (rw (signs) (rw (hashes, made) refl)),
    refl,
    refl,
    refl,
  )

  -- Where a wallet matches a challenge and its nonce was fetched, the addresses of the challenge are 20
  -- bytes, its numbers have at most 256 bits, signatures are two words and a recovery id, and UTF-8
  -- gives bytes, `pay` ends with a result. Its transaction decodes to the fields of a transfer of
  -- exactly the amount of the challenge to its recipient in its token, each in its place, and the
  -- signature of the wallet over the encoding of these fields. The place for the signature of a fee
  -- payer is the empty string, whether or not there is a fee payer. The hash in the result is that of
  -- the bytes of the transaction, and its header carries the credential.
  pub pay-OnChain :
      {recipient token : Bytes} (funding : List TempoFundingSource)
      → match_funding c funding ≡ some source
      → c.amount ≡ pos amount
      → addr_bytes c.recipient ≡ some recipient
      → addr_bytes c.currency_contract ≡ some token
      → length recipient ≡ 20
      → length token ≡ 20
      → IsWord signer.chain_id
      → IsWord amount
      → IsWord nonce
      → IsWord (c.expires_at / microseconds)
      → ((digest : Bytes) → IsSignature (eth.sign_msg_hash signer.key digest))
      → ((s : Text) → All IsByte (lib.utf8 s))
      → (r : PaymentResult) × (pay lib (tx_hash eth) funding c ≡ paid r) × OnChain recipient token r
  pay-OnChain {recipient} {token} funding matched price to of short_to short_of chain paid_amount
        counted due signs bytes_of =
      let words = words-transfer chain paid_amount counted due in
      let (raw, plain, sig, ran, decoded, unsigned, by, _) =
        sign_tempo_transaction_roundtrip eth transfer {recipient = recipient} {token = token} to of
          short_to short_of words signs in
      let (wire, same, read, hashed) = tx_hash-sign_tempo_transaction eth transfer ran in
      let (header, made) = credential-IsSome (b'0' ∷ b'x' ∷ b'7' ∷ b'6' ∷ hex raw) in
      let (r, paid_r, sent, hash, value) =
        pay_lem funding matched (source-signs price ran) hashed made in
      let carried =
        build_authorization_header-Carries lib
          (credential_of c source (b'0' ∷ b'x' ∷ b'7' ∷ b'6' ∷ hex raw)) bytes_of made in
      (
        r,
        paid_r,
        record {
          raw = raw;
          signature = sig;
          sent = sent;
          item = view (py_list (fields recipient token ++ bytes sig ∷ []));
          decoded = rw (fields-unsigned_body recipient token) at decoded;
          stands = view-StandsFor (py_list (fields recipient token ++ bytes sig ∷ []));
          plain = plain;
          unsigned = rw (fields-unsigned_body recipient token) at unsigned;
          by = by;
          wire = wire;
          read = rw sent read;
          hash = hash;
          carries = rw (sent, value) carried;
        },
      )
