-- ===== src/Budgets/Receipts.antt =====
-- src/routeweiler/budgets/receipts.py: issuing and verifying receipts. Ed25519 is a library: its
-- signature and its verification, with the base64 around them, are parameters.
use routeweiler_python_sdk.Prelude.{ℕ, String, Bool, List, [], ◌∷◌, not, str_eq, find?}
use routeweiler_python_sdk.Prelude.Int.{ℤ}
use routeweiler_python_sdk.Normalized.{Rail}
use routeweiler_python_sdk.Budgets.Schema.{Currency, Envelope, DrawReceipt, Db}
use routeweiler_python_sdk.Budgets.Errors.{
  Action, receipt_verification, gets, or_raise, raise_if, ◌>>=◌, ◌>>◌,
}

-- A value of the JSON object that `canonical_payload` writes.
pub data Field : Type 0 where
  text : String → Field
  int : ℤ → Field
  date : ℕ → Field
  currency : Currency → Field
  rail : Rail → Field

abbrev pub Payload : Type 0
Payload = List (String × Field)

-- `canonical_payload`: the signed fields in the order of the sorted keys. `json.dumps` writes this
-- object; the parameter `sign` takes the object in place of its text.
unfoldable pub canonical_payload : DrawReceipt → Payload
canonical_payload r =
    ("amount_reserved_currency", currency r.currency)
    ∷ ("amount_reserved_minor_units", int r.amount_reserved)
    ∷ ("envelope_id", text r.envelope_id)
    ∷ ("expires_at", date r.expires_at)
    ∷ ("idempotency_key", text r.idempotency_key)
    ∷ ("issued_at", date r.issued_at)
    ∷ ("rail_quoted", rail r.rail_quoted)
    ∷ ("receipt_id", text r.receipt_id)
    ∷ ("request_id", text r.request_id)
    ∷ []

-- The library: `b64encode(private_key.sign(payload))`, and whether decoding the key and the
-- signature and `public_key.verify` end without an exception.
pub record Ed25519 : Type 1 where
  pub PrivateKey : Type 0
  pub sign : PrivateKey → Payload → String
  pub accepts : String → String → Payload → Bool

module _ (ed : Ed25519) where
  open ed use {PrivateKey, sign, accepts}

  -- `issue`: the receipt with an empty signature is serialised and signed.
  unfoldable pub issue : PrivateKey → DrawReceipt → DrawReceipt
  issue key unsigned = record unsigned { signature = sign key (canonical_payload unsigned) }

  -- `verify`
  unfoldable pub verify : DrawReceipt → Action Db Unit
  verify r =
      raise_if (not (accepts r.counter_public_key r.signature (canonical_payload r)))
        receipt_verification

  -- `verify_against_envelope`
  unfoldable pub verify_against_envelope : DrawReceipt → Action Db Unit
  unfolding verify
  verify_against_envelope r = do
    row ← gets (λ db. find? (λ (e : Envelope). str_eq e.id r.envelope_id) db.envelopes)
    e ← or_raise row receipt_verification
    raise_if (not (str_eq e.counter_public_key r.counter_public_key)) receipt_verification
    verify r
