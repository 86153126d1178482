-- ===== src/X402/Settled.antt =====
-- src/routeweiler/rails/x402.py: the detector and the settlement of the adapter. The base64 and JSON of
-- the header are the decoder of the challenge.
use routeweiler_python_sdk.Prelude.{ℕ, Bool, false, Option, none, some, ◌==◌, if◌then◌else◌}
use routeweiler_python_sdk.Prelude.Int.{ℤ}
use routeweiler_python_sdk.Texts.{Text, codes}
use routeweiler_python_sdk.Mpp.Jcs.{Json, Members, null, dict}
use routeweiler_python_sdk.Mpp.Envelope.{
  uncaught, Result, ok, err, Converted, value, bad, too_large, is_empty, get_member,
}
use routeweiler_python_sdk.Mpp.Fields.{int_of, truthy}
use routeweiler_python_sdk.X402.{Decoder}

-- `can_handle`, of the status and the header.
unfoldable pub can_handle : ℕ → Option Text → Bool
can_handle status_code none = false
can_handle status_code (some header) = status_code == 402

-- `SettlementInfo`; its texts are values of the payload, of any type.
pub record SettlementInfo : Type 0 where
  pub success : Bool
  pub tx_hash : Option Json
  pub network_id : Option Json
  pub payer_address : Option Json
  pub amount_paid : Option ℤ
  pub facilitator : Option Json

-- `SettlementInfo(success=response.is_success)`
abbrev pub minimal : Bool → SettlementInfo
minimal is_success = record {
  success = is_success;
  tx_hash = none;
  network_id = none;
  payer_address = none;
  amount_paid = none;
  facilitator = none;
}

module _ (d : Decoder) where
  abbrev pub true_value : Option Json → Option Json
  true_value none = none
  true_value (some v) = if truthy d.json v then some v else none

  abbrev pub or_other : Option Json → Option Json → Option Json
  or_other (some v) other = some v
  or_other none other = other

  -- `data.get(key) or data.get(other) or None`
  unfoldable pub either_of : Text → Text → Members → Option Json
  unfolding get_member truthy
  either_of key other data' =
      or_other (true_value (get_member key data')) (true_value (get_member other data'))

  abbrev pub given_amount : Converted → Result (Option ℤ)
  given_amount (value n) = ok (some n)
  given_amount bad = ok none
  given_amount too_large = err uncaught

  -- `amount_paid`, where `null` counts as missing.
  unfoldable pub amount_paid_of : Option Json → Result (Option ℤ)
  unfolding int_of
  amount_paid_of none = ok none
  amount_paid_of (some null) = ok none
  amount_paid_of (some v) = given_amount (int_of d.json v)

  abbrev pub is_true : Option Json → Bool
  is_true none = false
  is_true (some v) = truthy d.json v

  abbrev pub settled : Members → Result (Option ℤ) → Result SettlementInfo
  settled data' (err e) = err e
  settled data' (ok amount_paid) = ok (record {
    success = is_true (get_member (codes "success") data');
    tx_hash = either_of (codes "txHash") (codes "transaction") data';
    network_id = either_of (codes "networkId") (codes "network") data';
    payer_address = either_of (codes "payerAddress") (codes "payer") data';
    amount_paid = amount_paid;
    facilitator = true_value (get_member (codes "facilitator") data');
  })

  -- `confirm`, which is `_parse_settlement`
  unfoldable pub parse_settlement : Text → Bool → Result SettlementInfo
  unfolding get_member truthy either_of amount_paid_of
  parse_settlement raw is_success =
      let read : Result SettlementInfo = elim (d.payload raw) [
        | none ↦ ok (minimal is_success)
        | some (dict data') ↦ settled data' (amount_paid_of (get_member (codes "amountPaid") data'))
        | some _ ↦ err uncaught
      ] in
      if is_empty raw then ok (minimal is_success) else read
