-- ===== src/L402.antt =====
-- src/routeweiler/rails/l402.py: the challenge of the adapter for Lightning invoices. `re`, the
-- conversion of a caveat to a time and pymacaroons are libraries; times are seconds, one before 1970 is
-- 0. Texts are the codes of ASCII characters.
pub mod Pico
pub mod Payment
pub mod Handled
use routeweiler_python_sdk.Prelude.{
  ℕ, ◌+◌, ◌/◌, Bool, true, false, Option, none, some, List, [], ◌∷◌, ◌++◌, not, ◌&&◌, ◌||◌, leb,
  ◌==◌, if◌then◌else◌,
}
use routeweiler_python_sdk.Bytes.{Bytes}
use routeweiler_python_sdk.Bytes.Hex.{hex}
use routeweiler_python_sdk.Texts.{
  Text, codes, text_eq, starts_with, is_in, lower, is_space, lstrip, strip, get,
}
use routeweiler_python_sdk.Bolt11.{DecodedBolt11, decode}

-- The libraries that the adapter calls.
pub record Lib : Type 0 where
  -- the first group of `re.search` for a quoted and for an unquoted parameter
  pub quoted : Text → Text → Option Text
  pub unquoted : Text → Text → Option Text
  pub decode_utf8 : Bytes → Text
  pub caveats : Text → List (Text × Text)
  -- `datetime.fromtimestamp(int(s))`; `none` is ValueError or OSError
  pub fromtimestamp : Text → Option ℕ
  -- it raises OverflowError
  pub overflows : Text → Bool
  -- `datetime.fromtimestamp` has a date for the number
  pub has_date : ℕ → Bool

-- What `parse` raises; the last is an error of `datetime`.
pub data ParseError : Type 0 where
  challenge_parse challenge_expired no_date : ParseError

-- The challenge, with the fields that the invoice determines.
pub record Challenge : Type 0 where
  pub sats : ℕ
  pub payee : Text
  pub nonce : Text
  pub expires_at : ℕ
  pub macaroon : Text
  pub invoice : Text

pub data Parsed : Type 0 where
  parsed : Challenge → Parsed
  raised : ParseError → Parsed

-- `_invoice_network`, with `_HRP_TO_NETWORK`
unfoldable pub invoice_network : Text → Option Text
unfolding lower starts_with
invoice_network bolt11 =
    if starts_with (codes "lnbcrt") (lower bolt11)
    then some (codes "bitcoin-regtest")
    else if starts_with (codes "lntbs") (lower bolt11)
    then some (codes "bitcoin-signet")
    else if starts_with (codes "lntb") (lower bolt11)
    then some (codes "bitcoin-testnet")
    else if starts_with (codes "lnbc") (lower bolt11)
    then some (codes "bitcoin")
    else none

-- The first word, and what stands behind it.
unfoldable pub first_word : Text → Text × Text
first_word [] = ([], [])
first_word (c ∷ s) =
    let later = first_word s in if is_space c then ([], s) else (c ∷ later.0, later.1)

-- `s.split(",")[0]`
unfoldable pub before_comma : Text → Text
before_comma [] = []
before_comma (c ∷ s) = let rest = before_comma s in if c == b',' then [] else c ∷ rest

-- `_ACCEPTED_SCHEMES`
unfoldable pub is_accepted : Text → Bool
unfolding text_eq
is_accepted scheme = text_eq scheme (codes "l402") || text_eq scheme (codes "lsat")

abbrev pub first_macaroon : Text → Text
first_macaroon macaroon =
    if is_in (codes ",") macaroon then strip (before_comma macaroon) else macaroon

abbrev pub both : Option Text → Option Text → Option (Text × Text)
both (some macaroon) (some invoice) = some (first_macaroon macaroon, invoice)
both _ _ = none

abbrev pub is_empty : Text → Bool
is_empty [] = true
is_empty _ = false

-- `min`, where there is a second time.
abbrev pub earlier_of : ℕ → Option ℕ → ℕ
earlier_of a none = a
earlier_of a (some b) = if leb a b then a else b

abbrev pub is_past : ℕ → Option ℕ → Bool
is_past now none = false
is_past now (some at) = leb at now

abbrev pub or_zero : Option ℕ → ℕ
or_zero none = 0
or_zero (some n) = n

abbrev pub or_hash : Option Text → Text → Text
or_hash none payment_hash = payment_hash
or_hash (some payee) payment_hash = payee

-- `(inv.amount_msat or 0) // 1000`
unfoldable pub sats_of : DecodedBolt11 → ℕ
sats_of inv = or_zero inv.amount_msat / 1000

module _ (lib : Lib) where
  abbrev pub or_unquoted : Option Text → Text → Text → Option Text
  or_unquoted (some value) params name = some value
  or_unquoted none params name = lib.unquoted name params

  -- `_extract_param`
  unfoldable pub extract_param : Text → Text → Option Text
  extract_param params name = or_unquoted (lib.quoted name params) params name

  -- `_parse_www_authenticate`
  unfoldable pub parse_www_authenticate : Text → Option (Text × Text)
  unfolding first_word strip lstrip is_accepted lower extract_param before_comma
  parse_www_authenticate header =
      let word = first_word (strip header) in
      let params = lstrip word.1 in
      let found =
        both (extract_param params (codes "macaroon")) (extract_param params (codes "invoice")) in
      if is_empty params then none else if not (is_accepted (lower word.0)) then none else found

  abbrev pub caveat_time : Option Text → Option ℕ
  caveat_time none = none
  caveat_time (some s) = if is_empty s then none else lib.fromtimestamp s

  abbrev pub caveat_overflows : Option Text → Bool
  caveat_overflows none = false
  caveat_overflows (some s) = not (is_empty s) && lib.overflows s

  -- `parse` from the decoded invoice on.
  unfoldable pub challenge_of : ℕ → Text → Text → DecodedBolt11 → Parsed
  unfolding get sats_of
  challenge_of now macaroon bolt11 inv =
      let invoice_expires_at = inv.timestamp + inv.expiry in
      let valid_until = get (codes "valid_until") (lib.caveats macaroon) in
      let macaroon_expires_at = caveat_time valid_until in
      if not (lib.has_date invoice_expires_at)
      then raised no_date
      else if leb invoice_expires_at now
      then raised challenge_expired
      else if caveat_overflows valid_until
      then raised no_date
      else if is_past now macaroon_expires_at
      then raised challenge_expired
      else parsed (record {
        sats = sats_of inv;
        payee = or_hash inv.payee_pubkey_hex inv.payment_hash_hex;
        nonce = inv.payment_hash_hex;
        expires_at = earlier_of invoice_expires_at macaroon_expires_at;
        macaroon = macaroon;
        invoice = bolt11;
      })

  -- `L402Adapter.parse`, of the header.
  unfoldable pub parse : ℕ → Text → Parsed
  parse now www_auth = elim (parse_www_authenticate www_auth) [
    | none ↦ raised challenge_parse
    | some (macaroon, bolt11) ↦ elim (decode lib.decode_utf8 bolt11) [
      | none ↦ raised challenge_parse
      | some inv ↦ challenge_of now macaroon bolt11 inv
    ]
  ]
