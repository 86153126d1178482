-- ===== src/Tests/Invoice.antt =====
-- Lightning invoices: src/routeweiler/rails/_bolt11.py and l402.py. The first is over 25 milli-bitcoin.
use routeweiler_python_sdk.Prelude.{
  ℕ, ◌+◌, ◌≡◌, refl, true, false, if◌then◌else◌, none, some, List, [], ◌∷◌, ◌++◌, All, arith,
}
use routeweiler_python_sdk.Bytes.{Bytes}
use routeweiler_python_sdk.Bytes.Hex.{repeat, hex}
use routeweiler_python_sdk.Texts.{Text, codes, text_eq, is_in, lower, strip}
use routeweiler_python_sdk.Bolt11.{
  is_digit, to_bits, bits_to_int, bits_to_bytes, split_last, decode_parts, parse_hrp_amount, decode,
}
use routeweiler_python_sdk.Bolt11.Fields.{Field, IsGroup, all_written}
use routeweiler_python_sdk.Bolt11.Invoices.{chars_of, said, decode_roundtrip}
use routeweiler_python_sdk.L402.{
  Lib, Challenge, parsed, parse_www_authenticate, challenge_of, parse,
}
use routeweiler_python_sdk.L402.Pico.{pico_hrp, parse_pico}
use routeweiler_python_sdk.L402.Payment.{
  LightningFundingSource, paid, preimage_mismatch, result_of, pay, Ends, pay-Ends,
}

-- Bytes of ASCII.
abbrev utf8 : Bytes → Text
utf8 bs = bs

abbrev hrp : Text
hrp = codes "lnbc25m"

amount : parse_hrp_amount hrp ≡ some 2_500_000_000
unfolding parse_hrp_amount
amount = refl

-- The timestamp of the first example of BOLT 11.
abbrev stamp : List ℕ
stamp = 1 ∷ 12 ∷ 18 ∷ 31 ∷ 28 ∷ 25 ∷ 2 ∷ []

abbrev hash_field : Field
hash_field = record { tag = 1; groups = repeat 52 17 }

-- Two groups for 60 seconds.
abbrev expiry_field : Field
expiry_field = record { tag = 6; groups = 1 ∷ 28 ∷ [] }

abbrev overhead : List ℕ
overhead = repeat 110 9

abbrev text : Text
text =
    b' '
    ∷ (hrp ++ b'1' ∷ chars_of ((stamp ++ all_written (hash_field ∷ expiry_field ∷ [])) ++ overhead))

cleaned :
    lower (strip text)
    ≡ hrp ++ b'1' ∷ chars_of ((stamp ++ all_written (hash_field ∷ expiry_field ∷ [])) ++ overhead)
unfolding lower strip repeat
cleaned = refl

overhead-IsGroup : All IsGroup overhead
unfolding repeat
overhead-IsGroup = omega arith

decode_roundtrip_example : decode utf8 text ≡ said utf8 hrp stamp (hash_field ∷ expiry_field ∷ [])
unfolding repeat
decode_roundtrip_example =
    decode_roundtrip utf8 hrp text stamp overhead (hash_field ∷ expiry_field ∷ []) cleaned
      (omega arith) refl refl (omega arith) (omega arith) overhead-IsGroup (omega arith)

-- The same over 9678785340 pico-bitcoin, which are 967878534 millisatoshi.
abbrev pico_text : Text
pico_text =
    pico_hrp (codes "9678785340")
    ++ b'1' ∷ chars_of ((stamp ++ all_written (hash_field ∷ expiry_field ∷ [])) ++ overhead)

-- A header that the regular expressions take apart as it was put together.
abbrev lib : Lib
lib = record {
  quoted = λ name params.
      if text_eq name (codes "macaroon") then some (codes "AGIAJEe") else some pico_text;
  unquoted = λ name params. none;
  decode_utf8 = utf8;
  caveats = λ macaroon. [];
  fromtimestamp = λ s. none;
  overflows = λ s. false;
  has_date = λ n. true;
}

abbrev www_auth : Text
www_auth = codes "L402 macaroon=AGIAJEe, invoice=lnbc"

header : parse_www_authenticate lib www_auth ≡ some (codes "AGIAJEe", pico_text)
unfolding parse_www_authenticate text_eq is_in
header = refl

parts :
    split_last b'1' (lower (strip pico_text))
    ≡ some (
      pico_hrp (codes "9678785340"),
      chars_of ((stamp ++ all_written (hash_field ∷ expiry_field ∷ [])) ++ overhead),
    )
unfolding split_last lower strip repeat
parts = refl

digits : All (λ c. is_digit c ≡ true) (codes "9678785340")
digits = (refl, (refl, (refl, (refl, (refl, (refl, (refl, (refl, (refl, (refl, tt))))))))))

abbrev hash_hex : Text
hash_hex = hex (bits_to_bytes 32 (to_bits hash_field.groups))

abbrev free : Challenge
free = record {
  sats = 0;
  payee = hash_hex;
  nonce = hash_hex;
  expires_at = bits_to_int (to_bits stamp) + 60;
  macaroon = codes "AGIAJEe";
  invoice = pico_text;
}

accepted : parse lib 1_000 www_auth ≡ parsed free
unfolding parse parse_www_authenticate text_eq is_in challenge_of decode lower strip split_last
    decode_parts repeat hex bits_to_bytes to_bits
accepted = refl

parse_pico_example : (free.sats ≡ 0) × (free.invoice ≡ pico_text)
parse_pico_example =
    parse_pico lib 1_000 www_auth (codes "AGIAJEe") pico_text (codes "9678785340")
      (chars_of ((stamp ++ all_written (hash_field ∷ expiry_field ∷ [])) ++ overhead)) header parts
      digits accepted

-- A hash that is one byte, the sum of the bytes, and a node that knows the preimage 1, 2, 3.
unfoldable total_of : Bytes → ℕ
total_of [] = 0
total_of (b ∷ bs) = b + total_of bs

abbrev sum_hash : Bytes → Bytes
sum_hash bs = total_of bs ∷ []

abbrev node : LightningFundingSource
node = record { network = codes "bitcoin"; pay_invoice = λ bolt11. some (1 ∷ 2 ∷ 3 ∷ []) }

abbrev due : Challenge
due = record free { sats = 967_878; nonce = codes "06" }

paid_due : pay sum_hash (node ∷ []) due ≡ paid (result_of sum_hash due (codes "010203"))
unfolding pay total_of
paid_due = refl

refused_preimage : pay sum_hash (node ∷ []) free ≡ preimage_mismatch
unfolding pay total_of bits_to_bytes to_bits repeat
refused_preimage = refl

pay-Ends_example : Ends sum_hash (node ∷ []) due (pay sum_hash (node ∷ []) due)
pay-Ends_example = pay-Ends sum_hash (node ∷ []) due
