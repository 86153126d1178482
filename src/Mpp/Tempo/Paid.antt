-- ===== src/Mpp/Tempo/Paid.antt =====
-- What a payment over Tempo rests on.
use routeweiler_python_sdk.Prelude.{
  ℕ, ◌/◌, ◌≡◌, ◌⊎◌, refl, Bool-cases, false, [], ◌∷◌, inl, inr, true, Option, none, some, List,
  ◌&&◌, All, Among, find?, find?-some, find?-Among, arith, and_true, Option-cases,
}
use routeweiler_python_sdk.Prelude.Int.{ℤ}
use routeweiler_python_sdk.Bytes.{IsByte}
use routeweiler_python_sdk.Texts.{Text, codes, lower, starts_with, text_eq, eq_of_text_eq}
use routeweiler_python_sdk.Mpp.Envelope.{Lib, build_authorization_header}
use routeweiler_python_sdk.Mpp.Credentials.{Carries, build_authorization_header-Carries}
use routeweiler_python_sdk.Mpp.Tempo.{same_ℤ, TempoChallenge, resolve_contract}
use routeweiler_python_sdk.Mpp.Tempo.Payment.{
  TempoFundingSource, asset_matches, match_funding, PaymentResult, paid, microseconds, sign_request,
  credential_of, result_of, signed, pay,
}

same_ℤ_eq : (a b : ℤ) → same_ℤ a b ≡ true → a ≡ b
same_ℤ_eq a b h = ground (arith, h)

paid_eq : {a b : PaymentResult} → paid a ≡ paid b → a ≡ b
paid_eq h = cc

-- The asset of a wallet is the contract, as an address or by the name of its token on the network,
-- whatever the case of the letters.
abbrev pub IsAssetOf : Text → Text → Text → Type 0
IsAssetOf network asset contract =
    (token : Text) × ((token ≡ asset) ⊎ (resolve_contract network asset ≡ some token))
    × (lower token ≡ lower contract)

asset_matches-IsAssetOf :
    (network asset contract : Text)
    → asset_matches network asset contract ≡ true
    → IsAssetOf network asset contract
unfolding asset_matches
asset_matches-IsAssetOf network asset contract h =
    elim (Bool-cases (starts_with (codes "0x") (lower asset))) [
      | inl address ↦ (
        asset,
        inl refl,
        eq_of_text_eq (lower asset) (lower contract) (rw (address, asset_matches) at h),
      )
      | inr name ↦ named (resolve_contract network asset) refl (rw (name, asset_matches) at h)
    ]
  where
    named :
        (o : Option Text)
        → resolve_contract network asset ≡ o
        → (elim o [
          | none ↦ false
          | some [] ↦ false
          | some (c ∷ s) ↦ text_eq (lower (c ∷ s)) (lower contract)
        ])
          ≡ true
        → IsAssetOf network asset contract
    named none known k = cc
    named (some []) known k = cc
    named (some (c ∷ s)) known k =
        (c ∷ s, inr known, eq_of_text_eq (lower (c ∷ s)) (lower contract) k)

match_funding-found :
    (c : TempoChallenge) (funding : List TempoFundingSource) {fs : TempoFundingSource}
    → match_funding c funding ≡ some fs
    → Among fs funding
      × (fs.chain_id ≡ c.chain_id)
      × (asset_matches c.network fs.asset c.currency_contract ≡ true)
match_funding-found c funding {fs} h =
    let fits = λ (s : TempoFundingSource).
      same_ℤ s.chain_id c.chain_id && asset_matches c.network s.asset c.currency_contract in
    let found : find? fits funding ≡ some fs = unfold match_funding in h in
    let (chain, token) =
      and_true (same_ℤ fs.chain_id c.chain_id)
        (asset_matches c.network fs.asset c.currency_contract) (find?-some fits funding found) in
    (find?-Among fits funding found, same_ℤ_eq fs.chain_id c.chain_id chain, token)

module _ (lib : Lib) (tempo_tx_hash : Text → Option Text) where
  -- What stands behind a result.
  pub record Behind (funding : List TempoFundingSource) (c : TempoChallenge) (r : PaymentResult)
      : Type 0 where
    pub source : TempoFundingSource
    pub listed : Among source funding
    pub on_chain : source.chain_id ≡ c.chain_id
    pub in_token : asset_matches c.network source.asset c.currency_contract ≡ true
    pub in_contract : IsAssetOf c.network source.asset c.currency_contract
    pub nonce : ℕ
    pub fetched : source.fetch_nonce ≡ some nonce
    pub signs :
        source.sign_transaction (record {
          tip20_token = c.currency_contract;
          recipient = c.recipient;
          amount = c.amount;
          nonce_key = 0;
          nonce = nonce;
          valid_before = c.expires_at / microseconds;
          fee_payer = c.fee_payer;
        })
        ≡ some r.signed_tx
    pub hashes : tempo_tx_hash r.signed_tx ≡ some r.tx_hash
    pub carries : Carries lib (credential_of c source r.signed_tx) r.header_value

  result_of-parts :
      (c : TempoChallenge) (source : TempoFundingSource) (tx : Text) (a b : Option Text)
      {r : PaymentResult}
      → result_of lib tempo_tx_hash c source tx a b ≡ paid r
      → (a ≡ some r.tx_hash) × (b ≡ some r.header_value) × (r.signed_tx ≡ tx)
  result_of-parts c source tx none b h = cc
  result_of-parts c source tx (some a) none h = cc
  result_of-parts c source tx (some a) (some b) {r} h = rw (← paid_eq h) (refl, refl, refl)

  signed_parts :
      (c : TempoChallenge) (source : TempoFundingSource) (o : Option Text) {r : PaymentResult}
      → signed lib tempo_tx_hash c source o ≡ paid r
      → (o ≡ some r.signed_tx)
        × (tempo_tx_hash r.signed_tx ≡ some r.tx_hash)
        × (build_authorization_header lib (credential_of c source r.signed_tx)
            ≡ some r.header_value)
  signed_parts c source none h = cc
  signed_parts c source (some tx) {r} h =
      let (hashed, header, same) = result_of-parts c source tx (tempo_tx_hash tx) _ h in
      (rw same refl, rw same hashed, rw same header)

  -- Where UTF-8 gives bytes, a payment over Tempo that ends with a result rests on a source that is on the
  -- chain of the challenge and pays in its token. Its signer signed a transfer of exactly the amount of
  -- the challenge to its recipient, under the nonce that was fetched and until the challenge expires;
  -- the result has the hash of that transaction, and its header carries the credential with it.
  pub pay-Behind :
      (funding : List TempoFundingSource) (c : TempoChallenge) {r : PaymentResult}
      → ((s : Text) → All IsByte (lib.utf8 s))
      → pay lib tempo_tx_hash funding c ≡ paid r
      → Behind funding c r
  unfolding pay
  pay-Behind funding c {r} bytes h = elim (Option-cases (match_funding c funding)) [
    | inl missing ↦ cc (rw (missing, pay) at h)
    | inr (source, found) ↦ elim (Option-cases source.fetch_nonce) [
      | inl unknown ↦ cc (rw unknown at (rw (found, pay) at h))
      | inr (nonce, fetched) ↦
          let (signs, hashes, header) =
            signed_parts c source (source.sign_transaction (sign_request c nonce))
              (rw fetched at (rw (found, pay) at h)) in
          let (listed, on_chain, in_token) = match_funding-found c funding found in
          record {
            source = source;
            listed = listed;
            on_chain = on_chain;
            in_token = in_token;
            in_contract =
                asset_matches-IsAssetOf c.network source.asset c.currency_contract in_token;
            nonce = nonce;
            fetched = fetched;
            signs = unfold sign_request in signs;
            hashes = hashes;
            carries =
                build_authorization_header-Carries lib (credential_of c source r.signed_tx) bytes
                  header;
          }
    ]
  ]
