-- ===== src/Mpp/Spt/Accepted.antt =====
-- What `parse` accepts and `pay` does over Stripe.
use routeweiler_python_sdk.Prelude.{
  ℕ, ◌<◌, ◌≡◌, inl, inr, Bool, true, false, ◌&&◌, any, arith, Bool-cases, if◌then◌else◌,
}
use routeweiler_python_sdk.Prelude.Int.{ℤ, pos, ltb_ℤ, ◌≤ℤ◌}
use routeweiler_python_sdk.Texts.{Text, codes, text_eq, lower, get}
use routeweiler_python_sdk.Mpp.Envelope.{
  ok, err, challenge_parse, Ensures, >>=-Ensures, ensured, ok_eq, Lib, get_member,
  parse_mpp_envelope, compute_mpp_expiry,
}
use routeweiler_python_sdk.Mpp.Expiry.{lt-compute_mpp_expiry}
use routeweiler_python_sdk.Mpp.Fields.{
  int_of, amount_of, text_of, parse_required_request_fields, method_details_of,
}
use routeweiler_python_sdk.Mpp.Spt.{
  stripe_fiat_min_minor_units, stripe_known_fiats, currency_of, non_negative, checked_minimum,
  SptChallenge, hint_of, seller_details_of, parse,
}

-- A challenge that may be paid.
pub record IsPayable (now : ℕ) (c : SptChallenge) : Type 0 where
  pub not_negative : pos 0 ≤ℤ c.amount
  pub minimum : any (text_eq c.iso_currency) stripe_known_fiats ≡ true → pos 50 ≤ℤ c.amount
  pub ahead : now < c.expires_at

non_negative_lem : (n : ℤ) {m : ℤ} → non_negative n ≡ ok m → pos 0 ≤ℤ m
non_negative_lem n {m} h = elim (Bool-cases (ltb_ℤ n (pos 0))) [
  | inl below ↦ cc (rw below at h)
  | inr fine ↦ rw (← ok_eq (rw fine at h)) (ground (arith, fine))
]

-- The test of the minimum, for any answer to the first question.
minimum_lem :
    (known : Bool) (n : ℤ) {m : ℤ}
    → (if known && ltb_ℤ n stripe_fiat_min_minor_units then err challenge_parse else ok n) ≡ ok m
    → (n ≡ m) × (known ≡ true → stripe_fiat_min_minor_units ≤ℤ m)
minimum_lem false n h = (ok_eq h, λ k. cc)
minimum_lem true n h = elim (Bool-cases (ltb_ℤ n stripe_fiat_min_minor_units)) [
  | inl below ↦ cc (rw below at h)
  | inr fine ↦ let same = ok_eq (rw fine at h) in (same, λ k. rw (← same) (ground (arith, fine)))
]

checked_minimum_lem :
    (iso : Text) (n : ℤ) {m : ℤ}
    → checked_minimum iso n ≡ ok m
    → (n ≡ m) × (any (text_eq iso) stripe_known_fiats ≡ true → stripe_fiat_min_minor_units ≤ℤ m)
unfolding checked_minimum
checked_minimum_lem iso n h = minimum_lem (any (text_eq iso) stripe_known_fiats) n h

module _ (lib : Lib) where
  parse-Ensures :
      (started now : ℕ) (header : Text) → Ensures (parse lib started now header) (IsPayable now)
  unfolding parse
  parse-Ensures started now header =
      >>=-Ensures (parse_mpp_envelope lib header) _ (IsPayable now) λ e _.
        >>=-Ensures (parse_required_request_fields e.request) _ (IsPayable now) λ fields _.
          >>=-Ensures (amount_of (int_of lib fields.amount)) _ (IsPayable now) λ given _.
            >>=-Ensures (non_negative given) _ (IsPayable now) λ amount above.
              >>=-Ensures (currency_of fields.currency) _ (IsPayable now) λ raw_currency _.
                >>=-Ensures (checked_minimum (lower raw_currency) amount) _ (IsPayable now)
                  λ checked least.
                    >>=-Ensures (method_details_of e.request) _ (IsPayable now) λ details _.
                      >>=-Ensures (compute_mpp_expiry lib started now e.params) _ (IsPayable now)
                        λ expires_at ahead.
                          >>=-Ensures (text_of fields.recipient) _ (IsPayable now) λ recipient _.
                            >>=-Ensures
                              (hint_of lib (get_member (codes "paymentMethodHint") details)
                                (get (codes "payment_method_hint") e.params))
                              _ (IsPayable now)
                              λ hint _.
                                >>=-Ensures
                                  (seller_details_of lib
                                    (get_member (codes "sellerDetails") details) recipient)
                                  _ (IsPayable now)
                                  λ seller_details _.
                                    let (same, minimum) =
                                      checked_minimum_lem (lower raw_currency) amount least in
                                    record {
                                      not_negative = rw (← same) (non_negative_lem given above);
                                      minimum = minimum;
                                      ahead = lt-compute_mpp_expiry lib started now e.params ahead;
                                    }

  -- A challenge that `parse` accepts has an amount that is not negative, and at least 50 minor units in
  -- the known fiat currencies, and it has not expired.
  pub parse-IsPayable :
      (started now : ℕ) (header : Text) {c : SptChallenge}
      → parse lib started now header ≡ ok c
      → IsPayable now c
  parse-IsPayable started now header h =
      ensured (parse lib started now header) (IsPayable now) (parse-Ensures started now header) h
