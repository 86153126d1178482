-- ===== src/Bolt11.antt =====
-- src/routeweiler/rails/_bolt11.py: the decoder of Lightning invoices. Texts are the codes of ASCII
-- characters, `none` is Bolt11DecodeError; the decoding of UTF-8 is a parameter. CPython's limit on the digits
-- that `int` reads is left out.
pub mod Fields
pub mod Invoices
use routeweiler_python_sdk.Prelude.{
  ℕ, zero, suc, ◌+◌, ◌-◌, ◌*◌, ◌/◌, ◌%◌, Bool, true, false, Option, none, some, List, [], ◌∷◌, ◌++◌,
  ◌&&◌, ◌||◌, ltb, leb, ◌==◌, length, take, drop, if◌then◌else◌,
}
use routeweiler_python_sdk.Bytes.{Bytes}
use routeweiler_python_sdk.Bytes.Hex.{hex}
use routeweiler_python_sdk.Texts.{Text, codes, lower, strip, starts_with, drop_prefix}

-- `_CHARSET`
abbrev pub charset : Text
charset = codes "qpzry9x8gf2tvdw0s3jn54khce6mua7l"

abbrev pub next_index : Option ℕ → Option ℕ
next_index none = none
next_index (some i) = some (suc i)

-- `s.find(ch)`
unfoldable pub index_of : ℕ → Text → Option ℕ
index_of ch [] = none
index_of ch (c ∷ s) = let later = next_index (index_of ch s) in if c == ch then some 0 else later

abbrev pub cons_some : Option ℕ → Option (List ℕ) → Option (List ℕ)
cons_some (some i) (some rest) = some (i ∷ rest)
cons_some _ _ = none

-- The groups of five bits.
unfoldable pub data5_of : Text → Option (List ℕ)
unfolding index_of
data5_of [] = some []
data5_of (ch ∷ s) = cons_some (index_of ch charset) (data5_of s)

abbrev pub or_here : ℕ → ℕ → Text → Option (Text × Text) → Option (Text × Text)
or_here c d s (some (before, after)) = some (d ∷ before, after)
or_here c d s none = if d == c then some ([], s) else none

-- The text before and behind `s.rfind(c)`.
unfoldable pub split_last : ℕ → Text → Option (Text × Text)
split_last c [] = none
split_last c (d ∷ s) = or_here c d s (split_last c s)

-- `_to_bits`
unfoldable pub to_bits : List ℕ → List ℕ
to_bits [] = []
to_bits (v ∷ more) = v / 16 % 2 ∷ v / 8 % 2 ∷ v / 4 % 2 ∷ v / 2 % 2 ∷ v % 2 ∷ to_bits more

-- The loop of `_bits_to_int`.
unfoldable pub bits_from : ℕ → List ℕ → ℕ
bits_from result [] = result
bits_from result (b ∷ bits) = bits_from (result * 2 + b) bits

abbrev pub bits_to_int : List ℕ → ℕ
bits_to_int bits = bits_from 0 bits

-- One byte of `_bits_to_bytes`, padded by zeros.
unfoldable pub byte_from : ℕ → ℕ → List ℕ → ℕ
byte_from zero byte bits = byte
byte_from (suc n) byte [] = byte_from n (byte * 2) []
byte_from (suc n) byte (b ∷ bits) = byte_from n (byte * 2 + b) bits

-- `_bits_to_bytes`
unfoldable pub bits_to_bytes : ℕ → List ℕ → Bytes
unfolding byte_from
bits_to_bytes zero bits = []
bits_to_bytes (suc n) bits = byte_from 8 0 bits ∷ bits_to_bytes n (drop 8 bits)

-- What the loop over the tagged fields collects.
pub record TaggedFields : Type 0 where
  pub payment_hash_hex : Option Text
  pub expiry : ℕ
  pub payee_pubkey_hex : Option Text
  pub description : Option Text

abbrev pub no_fields : TaggedFields
no_fields = record {
  payment_hash_hex = none;
  expiry = 3600;
  payee_pubkey_hex = none;
  description = none;
}

-- `DecodedBolt11`
pub record DecodedBolt11 : Type 0 where
  pub amount_msat : Option ℕ
  pub payment_hash_hex : Text
  pub expiry : ℕ
  pub timestamp : ℕ
  pub payee_pubkey_hex : Option Text
  pub description : Option Text

-- `_parse_hrp_amount`: the text behind the first prefix that fits.
unfoldable pub hrp_tail : Text → Option Text
unfolding starts_with drop_prefix
hrp_tail hrp =
    if starts_with (codes "lnbcrt") hrp
    then some (drop_prefix (codes "lnbcrt") hrp)
    else if starts_with (codes "lntbs") hrp
    then some (drop_prefix (codes "lntbs") hrp)
    else if starts_with (codes "lntb") hrp
    then some (drop_prefix (codes "lntb") hrp)
    else if starts_with (codes "lnbc") hrp
    then some (drop_prefix (codes "lnbc") hrp)
    else none

abbrev pub is_digit : ℕ → Bool
is_digit c = leb b'0' c && leb c b'9'

-- `s.isdigit()` and `int(s)`
unfoldable pub int_of : ℕ → Text → Option ℕ
int_of n [] = some n
int_of n (c ∷ s) = let later = int_of (n * 10 + (c - b'0')) s in if is_digit c then later else none

abbrev pub digits_to_int : Text → Option ℕ
digits_to_int [] = none
digits_to_int (c ∷ s) = int_of 0 (c ∷ s)

abbrev pub is_alpha : ℕ → Bool
is_alpha c = (leb b'a' c && leb c b'z') || (leb b'A' c && leb c b'Z')

-- `_MULT_MSAT`
abbrev pub mult_msat : ℕ → Option ℕ
mult_msat c =
    if c == b'm'
    then some 100_000_000
    else if c == b'u'
    then some 100_000
    else if c == b'n'
    then some 100
    else none

-- The text without its last character, and that character.
abbrev pub push_front : ℕ → Option (Text × ℕ) → Option (Text × ℕ)
push_front c none = some ([], c)
push_front c (some (s, d)) = some (c ∷ s, d)

unfoldable pub last_of : Text → Option (Text × ℕ)
last_of [] = none
last_of (c ∷ s) = push_front c (last_of s)

abbrev pub times : Option ℕ → Option ℕ → Option ℕ
times (some a) (some b) = some (a * b)
times _ _ = none

abbrev pub tail_amount : Text → Option (Text × ℕ) → Option ℕ
tail_amount tail none = none
tail_amount tail (some (digits, mult_char)) =
    if is_alpha mult_char
    then times (digits_to_int digits) (mult_msat mult_char)
    else times (digits_to_int tail) (some 100_000_000_000)

-- `_parse_hrp_amount`
unfoldable pub parse_hrp_amount : Text → Option ℕ
unfolding hrp_tail int_of last_of
parse_hrp_amount hrp = elim (hrp_tail hrp) [
  | none ↦ none
  | some tail ↦ tail_amount tail (last_of tail)
]

module _ (decode_utf8 : Bytes → Text) where
  -- What one field adds: payment hash, expiry, payee and description.
  unfoldable pub with_field : ℕ → ℕ → List ℕ → TaggedFields → TaggedFields
  unfolding bits_to_bytes bits_from hex
  with_field tag length_5 value_bits f =
      if tag == 1 && length_5 == 52
      then record f { payment_hash_hex = some (hex (bits_to_bytes 32 value_bits)) }
      else if tag == 6
      then record f { expiry = bits_to_int value_bits }
      else if tag == 19 && length_5 == 53
      then record f { payee_pubkey_hex = some (hex (bits_to_bytes 33 value_bits)) }
      else if tag == 13
      then record f {
        description = some (decode_utf8 (bits_to_bytes (length value_bits / 8) value_bits));
      }
      else f

  -- The loop over the tagged fields, on the bits from `pos` on; each turn takes fifteen bits or more.
  unfoldable pub tagged_fields : ℕ → List ℕ → TaggedFields → TaggedFields
  unfolding bits_from with_field
  tagged_fields zero bits f = f
  tagged_fields (suc fuel) bits f =
      let tag = bits_to_int (take 5 bits) in
      let length_5 = bits_to_int (take 10 (drop 5 bits)) in
      let value_bits = take (length_5 * 5) (drop 15 bits) in
      let more =
        tagged_fields fuel (drop (length_5 * 5) (drop 15 bits))
          (with_field tag length_5 value_bits f) in
      if ltb (length bits) 15 then f else if ltb (length value_bits) (length_5 * 5) then f else more

  abbrev pub invoice : Option ℕ → ℕ → TaggedFields → Option Text → Option DecodedBolt11
  invoice amount timestamp f none = none
  invoice amount timestamp f (some payment_hash_hex) = some (record {
    amount_msat = amount;
    payment_hash_hex = payment_hash_hex;
    expiry = f.expiry;
    timestamp = timestamp;
    payee_pubkey_hex = f.payee_pubkey_hex;
    description = f.description;
  })

  -- What follows the bits.
  unfoldable pub decode_bits : Text → List ℕ → Option DecodedBolt11
  unfolding tagged_fields parse_hrp_amount
  decode_bits hrp bits =
      let f = tagged_fields (length bits) (drop 35 bits) no_fields in
      let decoded =
        invoice (parse_hrp_amount hrp) (bits_to_int (take 35 bits)) f f.payment_hash_hex in
      if ltb (length bits) 35 then none else decoded

  unfoldable pub decode_groups : Text → List ℕ → Option DecodedBolt11
  unfolding to_bits decode_bits
  decode_groups hrp data5 =
      let payload5 = take (length data5 - (6 + 104)) data5 in
      if ltb (length data5) (7 + 104 + 6)
      then none
      else if ltb (length payload5) 7
      then none
      else decode_bits hrp (to_bits payload5)

  unfoldable pub decode_parts : Text → Text → Option DecodedBolt11
  unfolding data5_of decode_groups
  decode_parts hrp data_str =
      let grouped : Option DecodedBolt11 = elim (data5_of data_str) [
        | none ↦ none
        | some data5 ↦ decode_groups hrp data5
      ] in
      if ltb (length hrp) 2
      then none
      else if ltb (length data_str) (6 + 104 + 8)
      then none
      else grouped

  -- `decode`
  unfoldable pub decode : Text → Option DecodedBolt11
  decode bolt11 = elim (split_last b'1' (lower (strip bolt11))) [
    | none ↦ none
    | some (hrp, data_str) ↦ decode_parts hrp data_str
  ]
