-- ===== src/L402/Payment.antt =====
-- src/routeweiler/rails/l402.py: the funding source and the payment of a challenge. SHA-256 and the
-- Lightning node are parameters; `header_name` and `proof_type` are constants.
use routeweiler_python_sdk.Prelude.{
  ℕ, ◌≡◌, ◌≢◌, refl, inl, inr, true, false, Option, none, some, List, [], ◌∷◌, ◌++◌, All, Among,
  Option-cases, Bool-cases, arith, if◌then◌else◌,
}
use routeweiler_python_sdk.Bytes.{Bytes}
use routeweiler_python_sdk.Bytes.Hex.{hex}
use routeweiler_python_sdk.Texts.{Text, codes, text_eq, text_eq_refl, eq_of_text_eq}
use routeweiler_python_sdk.L402.{Challenge, invoice_network}

-- `LightningFundingSource`; `none` is an exception of the node.
pub record LightningFundingSource : Type 0 where
  pub network : Text
  pub pay_invoice : Text → Option Bytes

-- The `credential` of a PaymentResult.
pub record Credential : Type 0 where
  pub macaroon : Text
  pub preimage_hex : Text
  pub invoice : Text
  pub payment_hash_hex : Text
  pub amount_paid_sats : ℕ

pub record PaymentResult : Type 0 where
  pub header_value : Text
  pub credential : Credential
  pub proof_value : Text

-- How `pay` ends.
pub data Payment : Type 0 where
  paid : PaymentResult → Payment
  no_funding_for_rail invoice_payment preimage_mismatch : Payment

-- The first source of a network.
unfoldable pub source_of : Text → List LightningFundingSource → Option LightningFundingSource
unfolding text_eq
source_of network [] = none
source_of network (fs ∷ funding) =
    let later = source_of network funding in if text_eq fs.network network then some fs else later

abbrev pub source_on : List LightningFundingSource → Option Text → Option LightningFundingSource
source_on funding none = none
source_on funding (some target_network) = source_of target_network funding

-- `match_funding`
unfoldable pub match_funding : Text → List LightningFundingSource → Option LightningFundingSource
unfolding invoice_network source_of
match_funding bolt11 funding = source_on funding (invoice_network bolt11)

-- What a payment used: a source on the network of the invoice.
pub record Used (funding : List LightningFundingSource) (c : Challenge) : Type 0 where
  pub source : LightningFundingSource
  pub listed : Among source funding
  pub fits : invoice_network c.invoice ≡ some source.network

absent :
    (network : Text) (o : Option Text) (funding : List LightningFundingSource)
    → o ≡ some network
    → source_of network funding ≡ none
    → All (λ fs. o ≢ some fs.network) funding
unfolding source_of
absent network o [] known h = tt
absent network o (fs ∷ funding) known h = elim (Bool-cases (text_eq fs.network network)) [
  | inl here ↦ let no : ⊥ = ground (arith, here, h) in elim no [ ]
  | inr other ↦ (
    λ same.
        let back : network ≡ fs.network = cc in
        let shown : text_eq fs.network network ≡ true = rw back (text_eq_refl fs.network) in
        ground (arith, shown, other),
    absent network o funding known (ground (arith, other, h)),
  )
]

found :
    (network : Text) (funding : List LightningFundingSource) {fs : LightningFundingSource}
    → source_of network funding ≡ some fs
    → Among fs funding × (network ≡ fs.network)
unfolding source_of
found network [] h = cc
found network (s ∷ funding) {fs} h = elim (Bool-cases (text_eq s.network network)) [
  | inl here ↦
      let same : s ≡ fs = ground (arith, here, h) in
      let fits = eq_of_text_eq s.network network here in (inl same, cc)
  | inr other ↦
      let (listed, fits) = found network funding (ground (arith, other, h)) in (inr listed, fits)
]

unknown :
    (o : Option Text) (funding : List LightningFundingSource)
    → o ≡ none
    → All (λ (fs : LightningFundingSource). o ≢ some fs.network) funding
unknown o [] h = tt
unknown o (fs ∷ funding) h = (λ same. cc, unknown o funding h)

module _ (sha256 : Bytes → Bytes) where
  abbrev pub result_of : Challenge → Text → PaymentResult
  result_of c preimage_hex = record {
    header_value = codes "L402 " ++ c.macaroon ++ codes ":" ++ preimage_hex;
    credential = record {
      macaroon = c.macaroon;
      preimage_hex = preimage_hex;
      invoice = c.invoice;
      payment_hash_hex = c.nonce;
      amount_paid_sats = c.sats;
    };
    proof_value = preimage_hex;
  }

  -- What follows `pay_invoice`.
  unfoldable pub checked : Challenge → Option Bytes → Payment
  unfolding hex text_eq
  checked c none = invoice_payment
  checked c (some preimage) =
      if text_eq (hex (sha256 preimage)) c.nonce
      then paid (result_of c (hex preimage))
      else preimage_mismatch

  -- `pay`
  unfoldable pub pay : List LightningFundingSource → Challenge → Payment
  unfolding match_funding checked
  pay funding c = elim (match_funding c.invoice funding) [
    | none ↦ no_funding_for_rail
    | some source ↦ checked c (source.pay_invoice c.invoice)
  ]

  -- What stands behind each way to end.
  abbrev pub Ends : List LightningFundingSource → Challenge → Payment → Type 0
  Ends funding c no_funding_for_rail =
      All (λ fs. invoice_network c.invoice ≢ some fs.network) funding
  Ends funding c invoice_payment = (u : Used funding c) × (u.source.pay_invoice c.invoice ≡ none)
  Ends funding c preimage_mismatch =
      (u : Used funding c) × (preimage : Bytes) × (u.source.pay_invoice c.invoice ≡ some preimage)
      × (hex (sha256 preimage) ≢ c.nonce)
  Ends funding c (paid result) =
      (u : Used funding c) × (preimage : Bytes) × (u.source.pay_invoice c.invoice ≡ some preimage)
      × (hex (sha256 preimage) ≡ c.nonce)
      × (result ≡ result_of c (hex preimage))

  checked-Ends :
      (funding : List LightningFundingSource) (c : Challenge) (u : Used funding c)
      → Ends funding c (checked c (u.source.pay_invoice c.invoice))
  unfolding checked
  checked-Ends funding c u = elim (Option-cases (u.source.pay_invoice c.invoice)) [
    | inl failed ↦ rw (failed, checked) (u, failed)
    | inr (preimage, revealed) ↦ elim (Bool-cases (text_eq (hex (sha256 preimage)) c.nonce)) [
      | inl same ↦
          rw (revealed, checked)
            (rw same
              (u, preimage, revealed, eq_of_text_eq (hex (sha256 preimage)) c.nonce same, refl))
      | inr other ↦
          rw (revealed, checked)
            (rw other (u, preimage, revealed, λ e. differ (hex (sha256 preimage)) c.nonce e other))
    ]
  ]
    where
      differ : (s t : Text) → s ≡ t → text_eq s t ≡ false → ⊥
      differ s t e h =
          let shown : text_eq s t ≡ true = rw e (text_eq_refl t) in ground (arith, shown, h)

  -- A payment ends in one of four ways: no source is on the network of the invoice, and no node is
  -- asked; the node of a source on that network failed to pay the invoice; it revealed a preimage
  -- whose hash is not that of the challenge; or it revealed one whose hash is, and the result has the
  -- header and the credential of that preimage.
  pub pay-Ends :
      (funding : List LightningFundingSource) (c : Challenge) → Ends funding c (pay funding c)
  unfolding pay match_funding
  pay-Ends funding c = elim (Option-cases (invoice_network c.invoice)) [
    | inl off ↦ rw (off, pay) (unknown (invoice_network c.invoice) funding off)
    | inr (network, known) ↦ elim (Option-cases (source_of network funding)) [
      | inl none_fits ↦
          rw (known, pay)
            (rw none_fits (absent network (invoice_network c.invoice) funding known none_fits))
      | inr (source, first) ↦
          let (listed, same) = found network funding first in
          let fits : invoice_network c.invoice ≡ some source.network = cc in
          let used : Used funding c = record { source = source; listed = listed; fits = fits } in
          rw (known, pay) (rw first (checked-Ends funding c used))
    ]
  ]
