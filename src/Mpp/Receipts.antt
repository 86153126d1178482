-- ===== src/Mpp/Receipts.antt =====
-- `confirm_mpp_receipt` of src/routeweiler/rails/_mpp_http.py.
use routeweiler_python_sdk.Prelude.{
  ◌≡◌, ◌⊎◌, inl, inr, refl, Bool, true, false, Option, none, some, List, ◌&&◌, not, any, Bool-cases,
  Option-cases, if◌then◌else◌,
}
use routeweiler_python_sdk.Prelude.Int.{ℤ}
use routeweiler_python_sdk.Texts.{Text, codes, text_eq, eq_of_text_eq, get}
use routeweiler_python_sdk.Mpp.Envelope.{
  Converted, value, bad, too_large, MppReceipt, Lib, is_empty, get_or, parse_payment_receipt,
}
use routeweiler_python_sdk.Mpp.Fields.{int_of_text}

-- `SettlementInfo`, without the payer.
pub record SettlementInfo : Type 0 where
  pub success : Bool
  pub tx_hash : Option Text
  pub network_id : Text
  pub amount_paid : Option ℤ
  pub facilitator : Option Text

-- What `confirm` ends with.
pub data Confirmed : Type 0 where
  settled : SettlementInfo → Confirmed
  receipt_verification failed : Confirmed

-- The response, and what the adapter knows of its payment.
pub record Exchange : Type 0 where
  pub receipt_header : Text
  pub is_success : Bool
  pub proof_value : Option Text
  pub charge_id : Text

abbrev pub amount_paid : Converted → SettlementInfo → Confirmed
amount_paid (value n) s = settled (record s { amount_paid = some n })
amount_paid bad s = settled s
amount_paid too_large s = failed

module _ (lib : Lib) (expected_methods : List Text) (network_id : Text)
    (facilitator : Option Text) where
  -- What the receipt says of the settlement.
  abbrev pub info : Exchange → MppReceipt → SettlementInfo
  info x receipt = record {
    success = receipt.is_success && x.is_success;
    tx_hash = some receipt.reference;
    network_id = network_id;
    amount_paid = none;
    facilitator = facilitator;
  }

  abbrev pub wrong_id : Exchange → MppReceipt → Bool
  wrong_id x receipt = not (is_empty x.charge_id) && not (text_eq receipt.challenge_id x.charge_id)

  unfoldable pub verified : Exchange → MppReceipt → Confirmed
  unfolding text_eq int_of_text get
  verified x receipt =
      if wrong_id x receipt
      then receipt_verification
      else if not (any (text_eq receipt.method) expected_methods)
      then receipt_verification
      else amount_paid (int_of_text (get_or (codes "amount") (codes "0") receipt.settlement))
          (info x receipt)

  -- `confirm_mpp_receipt`
  unfoldable pub confirm_mpp_receipt : Exchange → Confirmed
  unfolding parse_payment_receipt verified
  confirm_mpp_receipt x =
      let read : Confirmed = elim (parse_payment_receipt lib x.receipt_header) [
        | none ↦ receipt_verification
        | some receipt ↦ verified x receipt
      ] in
      if is_empty x.receipt_header
      then settled (record {
        success = x.is_success;
        tx_hash = x.proof_value;
        network_id = network_id;
        amount_paid = none;
        facilitator = facilitator;
      })
      else read

  -- What a settlement with a receipt rests on.
  abbrev pub Backed : Exchange → SettlementInfo → Type 0
  Backed x s =
      (receipt : MppReceipt) × (parse_payment_receipt lib x.receipt_header ≡ some receipt)
      × (any (text_eq receipt.method) expected_methods ≡ true)
      × ((is_empty x.charge_id ≡ true) ⊎ (receipt.challenge_id ≡ x.charge_id))
      × (s.tx_hash ≡ some receipt.reference)
      × (s.success ≡ (receipt.is_success && x.is_success))

  amount_paid_kept :
      (n : Converted) (s : SettlementInfo) {t : SettlementInfo}
      → amount_paid n s ≡ settled t
      → (t.tx_hash ≡ s.tx_hash) × (t.success ≡ s.success)
  amount_paid_kept (value n) s {t} h =
      let same : record s { amount_paid = some n } ≡ t = cc in rw (← same) (refl, refl)
  amount_paid_kept bad s {t} h = let same : s ≡ t = cc in rw (← same) (refl, refl)
  amount_paid_kept too_large s h = cc

  same_id :
      (x : Exchange) (receipt : MppReceipt)
      → wrong_id x receipt ≡ false
      → (is_empty x.charge_id ≡ true) ⊎ (receipt.challenge_id ≡ x.charge_id)
  same_id x receipt h = elim (Bool-cases (is_empty x.charge_id)) [
    | inl empty ↦ inl empty
    | inr given ↦ elim (Bool-cases (text_eq receipt.challenge_id x.charge_id)) [
      | inl same ↦ inr (eq_of_text_eq receipt.challenge_id x.charge_id same)
      | inr other ↦ cc (rw (given, other) at h)
    ]
  ]

  verified-Backed :
      (x : Exchange) (receipt : MppReceipt) {s : SettlementInfo}
      → parse_payment_receipt lib x.receipt_header ≡ some receipt
      → verified x receipt ≡ settled s
      → Backed x s
  unfolding verified
  verified-Backed x receipt {s} read h = elim (Bool-cases (wrong_id x receipt)) [
    | inl wrong ↦ cc (rw wrong at h)
    | inr right ↦ elim (Bool-cases (any (text_eq receipt.method) expected_methods)) [
      | inl known ↦
          let kept =
            amount_paid_kept (int_of_text (get_or (codes "amount") (codes "0") receipt.settlement))
              (info x receipt) (rw (right, known) at h) in
          (receipt, read, known, same_id x receipt right, kept.0, kept.1)
      | inr unknown ↦ cc (rw (right, unknown) at h)
    ]
  ]

  -- A settlement of a response with a receipt header rests on a receipt that was decoded, whose method is
  -- one of the rail's and whose challenge is the one that was paid, where the credential names it. It is
  -- a success only if both the receipt and the response say so.
  pub confirm_mpp_receipt-Backed :
      (x : Exchange) {s : SettlementInfo}
      → is_empty x.receipt_header ≡ false
      → confirm_mpp_receipt x ≡ settled s
      → Backed x s
  unfolding confirm_mpp_receipt
  confirm_mpp_receipt-Backed x {s} there h =
      elim (Option-cases (parse_payment_receipt lib x.receipt_header)) [
        | inl missing ↦ cc (rw there at (rw (missing, confirm_mpp_receipt) at h))
        | inr (receipt, read) ↦
            verified-Backed x receipt read (rw there at (rw (read, confirm_mpp_receipt) at h))
      ]
