-- ===== src/L402/Pico.antt =====
-- Invoices whose amount is in pico-bitcoin.
use routeweiler_python_sdk.Prelude.{
  ℕ, ◌+◌, ◌-◌, ◌/◌, not, leb, take, drop, ◌≡◌, refl, ap, Bool, true, false, Option, none, some,
  List, [], ◌∷◌, ◌++◌, All, arith, inl, inr, Bool-cases, ltb, length, if◌then◌else◌,
}
use routeweiler_python_sdk.Bytes.{Bytes}
use routeweiler_python_sdk.Texts.{get, Text, codes, lower, strip}
use routeweiler_python_sdk.Bolt11.{
  to_bits, bits_to_int, tagged_fields, no_fields, DecodedBolt11, TaggedFields, hrp_tail, is_digit,
  last_of, digits_to_int, times, tail_amount, parse_hrp_amount, split_last, data5_of, invoice,
  decode_bits, decode_groups, decode_parts, decode,
}
use routeweiler_python_sdk.L402.{
  Lib, challenge_parse, or_zero, is_past, caveat_time, caveat_overflows, Challenge, Parsed, parsed,
  raised, sats_of, parse_www_authenticate, challenge_of, parse,
}

-- The prefix of an invoice over so many pico-bitcoin.
abbrev pub pico_hrp : Text → Text
pico_hrp digits = codes "lnbc" ++ digits ++ b'p' ∷ []

pico_tail :
    (digits : Text)
    → All (λ c. is_digit c ≡ true) digits
    → hrp_tail (pico_hrp digits) ≡ some (digits ++ b'p' ∷ [])
unfolding hrp_tail
pico_tail [] h = refl
pico_tail (c ∷ digits) h = ground (arith, h.0)

last_of-append : (s : Text) (c : ℕ) → last_of (s ++ c ∷ []) ≡ some (s, c)
unfolding last_of
last_of-append [] c = refl
last_of-append (d ∷ s) c = rw (last_of-append s c) refl

times-none : (a : Option ℕ) → times a none ≡ none
times-none none = refl
times-none (some a) = refl

tail_amount-pico : (tail digits : Text) → tail_amount tail (some (digits, b'p')) ≡ none
tail_amount-pico tail digits = times-none (digits_to_int digits)

parse_hrp_amount-tail :
    (hrp tail digits : Text)
    → hrp_tail hrp ≡ some tail
    → last_of tail ≡ some (digits, b'p')
    → parse_hrp_amount hrp ≡ none
unfolding parse_hrp_amount
parse_hrp_amount-tail hrp tail digits h l =
    rw (h, parse_hrp_amount) (rw l (tail_amount-pico tail digits))

parse_hrp_amount-pico :
    (digits : Text)
    → All (λ c. is_digit c ≡ true) digits
    → parse_hrp_amount (pico_hrp digits) ≡ none
parse_hrp_amount-pico digits h =
    parse_hrp_amount-tail (pico_hrp digits) (digits ++ b'p' ∷ []) digits (pico_tail digits h)
      (last_of-append digits b'p')

-- What is decoded has the amount of the prefix.
abbrev HasAmount : Option ℕ → Option DecodedBolt11 → Type 0
HasAmount amount none = Unit {0}
HasAmount amount (some inv) = inv.amount_msat ≡ amount

if-HasAmount :
    (amount : Option ℕ) (t : Bool) (o : Option DecodedBolt11)
    → HasAmount amount o
    → HasAmount amount (if t then none else o)
if-HasAmount amount true o h = tt
if-HasAmount amount false o h = h

module _ (utf8 : Bytes → Text) (hrp : Text) where
  invoice-HasAmount :
      (amount : Option ℕ) (stamp : ℕ) (f : TaggedFields) (hash : Option Text)
      → HasAmount amount (invoice utf8 amount stamp f hash)
  invoice-HasAmount amount stamp f none = tt
  invoice-HasAmount amount stamp f (some hash) = refl

  decode_bits-HasAmount :
      (bits : List ℕ) → HasAmount (parse_hrp_amount hrp) (decode_bits utf8 hrp bits)
  unfolding decode_bits
  decode_bits-HasAmount bits =
      let f = tagged_fields utf8 (length bits) (drop 35 bits) no_fields in
      if-HasAmount (parse_hrp_amount hrp) (ltb (length bits) 35) _
        (invoice-HasAmount (parse_hrp_amount hrp) (bits_to_int (take 35 bits)) f f.payment_hash_hex)

  decode_groups-HasAmount :
      (data5 : List ℕ) → HasAmount (parse_hrp_amount hrp) (decode_groups utf8 hrp data5)
  unfolding decode_groups
  decode_groups-HasAmount data5 = if-HasAmount (parse_hrp_amount hrp) (ltb (length data5) 117) _ (
      if-HasAmount (parse_hrp_amount hrp) (ltb (length (take (length data5 - 110) data5)) 7) _
        (decode_bits-HasAmount (to_bits (take (length data5 - 110) data5))))

  data5-HasAmount :
      (o : Option (List ℕ))
      → HasAmount
          (parse_hrp_amount hrp)
          (elim o [ none ↦ none | some data5 ↦ decode_groups utf8 hrp data5 ])
  data5-HasAmount none = tt
  data5-HasAmount (some data5) = decode_groups-HasAmount data5

  decode_parts-HasAmount :
      (data_str : Text) → HasAmount (parse_hrp_amount hrp) (decode_parts utf8 hrp data_str)
  unfolding decode_parts
  decode_parts-HasAmount data_str = if-HasAmount (parse_hrp_amount hrp) (ltb (length hrp) 2) _ (
      if-HasAmount (parse_hrp_amount hrp) (ltb (length data_str) 118) _
        (data5-HasAmount (data5_of data_str)))

-- A challenge for nothing.
abbrev IsFree : Text → Parsed → Type 0
IsFree bolt11 (raised e) = Unit {0}
IsFree bolt11 (parsed c) = (c.sats ≡ 0) × (c.invoice ≡ bolt11)

sats_of-none : (inv : DecodedBolt11) → inv.amount_msat ≡ none → sats_of inv ≡ 0
unfolding sats_of
sats_of-none inv h = ap (λ (o : Option ℕ). or_zero o / 1000) h

module _ (lib : Lib) (now : ℕ) where
  challenge_of-IsFree :
      (macaroon bolt11 : Text) (inv : DecodedBolt11)
      → inv.amount_msat ≡ none
      → IsFree bolt11 (challenge_of lib now macaroon bolt11 inv)
  unfolding challenge_of
  challenge_of-IsFree macaroon bolt11 inv h =
      let due = inv.timestamp + inv.expiry in
      let valid_until = get (codes "valid_until") (lib.caveats macaroon) in
      let until = caveat_time lib valid_until in
      elim (Bool-cases (not (lib.has_date due))) [
        | inl e ↦ rw (e, challenge_of) tt
        | inr e ↦ elim (Bool-cases (leb due now)) [
          | inl late ↦ rw (e, challenge_of) (rw late tt)
          | inr early ↦ elim (Bool-cases (caveat_overflows lib valid_until)) [
            | inl far ↦ rw (e, challenge_of) (rw early (rw far tt))
            | inr near ↦ elim (Bool-cases (is_past now until)) [
              | inl over ↦ rw (e, challenge_of) (rw early (rw near (rw over tt)))
              | inr valid ↦
                  rw (e, challenge_of) (rw early (rw near (rw valid (sats_of-none inv h, refl))))
            ]
          ]
        ]
      ]

  decoded-IsFree :
      (macaroon bolt11 : Text) (o : Option DecodedBolt11)
      → HasAmount none o
      → IsFree bolt11 (elim o [
        | none ↦ raised challenge_parse
        | some inv ↦ challenge_of lib now macaroon bolt11 inv
      ])
  decoded-IsFree macaroon bolt11 none h = tt
  decoded-IsFree macaroon bolt11 (some inv) h = challenge_of-IsFree macaroon bolt11 inv h

  decode-pico :
      (bolt11 digits data_str : Text)
      → All (λ c. is_digit c ≡ true) digits
      → split_last b'1' (lower (strip bolt11)) ≡ some (pico_hrp digits, data_str)
      → HasAmount none (decode lib.decode_utf8 bolt11)
  unfolding decode
  decode-pico bolt11 digits data_str h parts =
      rw (parts, decode)
        (rw (parse_hrp_amount-pico digits h) at
          (decode_parts-HasAmount lib.decode_utf8 (pico_hrp digits) data_str))

  read :
      (p : Parsed) (bolt11 : Text) {c : Challenge}
      → IsFree bolt11 p
      → p ≡ parsed c
      → (c.sats ≡ 0) × (c.invoice ≡ bolt11)
  read (raised e) bolt11 h same = cc
  read (parsed d) bolt11 {c} h same = let e : d ≡ c = cc in rw (← e) h

  -- A challenge that is parsed from a header whose invoice is over a number of pico-bitcoin has a price
  -- of 0 sats, and keeps that invoice.
  pub parse_pico :
      (www_auth macaroon bolt11 digits data_str : Text) {c : Challenge}
      → parse_www_authenticate lib www_auth ≡ some (macaroon, bolt11)
      → split_last b'1' (lower (strip bolt11)) ≡ some (pico_hrp digits, data_str)
      → All (λ c. is_digit c ≡ true) digits
      → parse lib now www_auth ≡ parsed c
      → (c.sats ≡ 0) × (c.invoice ≡ bolt11)
  unfolding parse
  parse_pico www_auth macaroon bolt11 digits data_str header parts h same =
      read (parse lib now www_auth) bolt11
        (rw (header, parse)
          (decoded-IsFree macaroon bolt11 (decode lib.decode_utf8 bolt11)
            (decode-pico bolt11 digits data_str h parts)))
        same
