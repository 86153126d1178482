-- ===== src/Exclusive.antt =====
-- The detectors of the adapters that read the header WWW-Authenticate: src/routeweiler/rails/l402.py,
-- mpp_tempo.py and mpp_spt.py.
use routeweiler_python_sdk.Prelude.{
  ℕ, ◌+◌, ◌≡◌, refl, inl, inr, leb, Bool, true, false, Option, none, some, List, [], ◌∷◌, ◌&&◌,
  ◌==◌, any, arith, Bool-cases, if◌then◌else◌,
}
use routeweiler_python_sdk.Texts.{
  Text, codes, text_eq, eq_of_text_eq, starts_with, lower, is_space, strip, get,
}
use routeweiler_python_sdk.L402.{first_word, is_accepted}
use routeweiler_python_sdk.Mpp.Params.{parse_payment_challenge}
use routeweiler_python_sdk.Mpp.Envelope.{is_mpp_payment_for, or_empty}
use routeweiler_python_sdk.L402.Handled
use routeweiler_python_sdk.Mpp.Tempo
use routeweiler_python_sdk.Mpp.Spt
use routeweiler_python_sdk.Mpp.Spt.{handled_methods}

-- At most one of three.
abbrev pub AtMostOne : Bool → Bool → Bool → Type 0
AtMostOne a b c = ((a && b) ≡ false) × ((a && c) ≡ false) × ((b && c) ≡ false)

at_most_one :
    (is_402 is_payment accepted tempo stripe : Bool)
    → (is_payment ≡ true → accepted ≡ false)
    → (tempo ≡ true → stripe ≡ false)
    → AtMostOne
        (is_402 && accepted)
        (is_402 && (is_payment && tempo))
        (is_402 && (is_payment && stripe))
at_most_one false is_payment accepted tempo stripe h k = (refl, refl, refl)
at_most_one true false accepted tempo stripe h k = ground arith
at_most_one true true accepted false stripe h k = rw (h refl) (refl, refl, refl)
at_most_one true true accepted true stripe h k = rw (h refl, k refl) (refl, refl, refl)

abbrev lower_char : ℕ → ℕ
lower_char c = if leb b'A' c && leb c b'Z' then c + 32 else c

no_p : (c : ℕ) (s : Text) → lower_char c ≡ b'p' → is_accepted (lower (c ∷ s)) ≡ false
unfolding is_accepted lower text_eq
no_p c s h = rw h refl

-- A header that starts with "payment" has a first word of another letter than "l402" and "lsat".
first_word-payment :
    (s : Text)
    → starts_with (codes "payment") (lower s) ≡ true
    → is_accepted (lower (first_word s).0) ≡ false
unfolding starts_with lower first_word is_accepted text_eq
first_word-payment [] h = refl
first_word-payment (c ∷ s) h = elim (Bool-cases (is_space c)) [
  | inl blank ↦ rw blank refl
  | inr other ↦ rw other (no_p c (first_word s).0 (ground (arith, h)))
]

abbrev method_in : List Text → Option (List (Text × Text)) → Bool
method_in methods o = elim o [
  | none ↦ false
  | some params ↦ any (text_eq (lower (or_empty (get (codes "method") params)))) methods
]

other_method :
    (o : Option (List (Text × Text)))
    → method_in (codes "tempo" ∷ []) o ≡ true
    → method_in handled_methods o ≡ false
other_method none h = refl
other_method (some params) h =
    let method = lower (or_empty (get (codes "method") params)) in
    let same = eq_of_text_eq method (codes "tempo") (ground (arith, h)) in
    rw same (unfold text_eq in refl)

-- No response is handled by two of the adapters for L402, MPP-Tempo and MPP-SPT.
pub can_handle-AtMostOne :
    (status_code : ℕ) (header : Text)
    → AtMostOne
        (Handled.can_handle status_code header)
        (Tempo.can_handle status_code header)
        (Spt.can_handle status_code header)
unfolding Handled.can_handle Tempo.can_handle Spt.can_handle is_mpp_payment_for
can_handle-AtMostOne status_code header =
    at_most_one (status_code == 402) (starts_with (codes "payment") (lower (strip header)))
      (is_accepted (lower (first_word (strip header)).0))
      (method_in (codes "tempo" ∷ []) (parse_payment_challenge header))
      (method_in handled_methods (parse_payment_challenge header))
      (first_word-payment (strip header)) (other_method (parse_payment_challenge header))
