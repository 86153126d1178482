-- ===== src/Tests/Wire.antt =====
-- A Tempo transaction: src/routeweiler/rails/_tempo_tx.py.
use routeweiler_python_sdk.Prelude.{
  ℕ, ◌*◌, ◌%◌, ◌^◌, ◌<◌, ◌≡◌, refl, false, some, List, [], ◌∷◌, ◌++◌, length, arith,
}
use routeweiler_python_sdk.Bytes.{Bytes, to_bytes, from_bytes, byte_length, zeros}
use routeweiler_python_sdk.Bytes.Hex.{hex, fromhex, remove_0x, zfill}
use routeweiler_python_sdk.Texts.{codes}
use routeweiler_python_sdk.Tempo.{
  Rlp, int, bytes, int_bytes, encode_bytes, rlp_length_prefix, rlp_encode_item,
}
use routeweiler_python_sdk.Tempo.Meaning.{StandsFor}
use routeweiler_python_sdk.Tempo.Decode.{Item, decode}
use routeweiler_python_sdk.Tempo.RoundTrip.{size, rlp_encode_item_roundtrip}
use routeweiler_python_sdk.Tempo.Transaction.{
  Ethereum, addr_bytes, Transfer, py_list, sign_tempo_transaction,
}
use routeweiler_python_sdk.Tempo.Signed.{calldata_of, HoldsWords}
use routeweiler_python_sdk.Tempo.Returned.{sign_tempo_transaction_roundtrip}

abbrev value : Rlp
value = py_list (int 1024 ∷ bytes (0x7f ∷ []) ∷ py_list [] ∷ int 0 ∷ bytes (zeros 60) ∷ [])

value-size : size value < 2 ^ 64
unfolding int_bytes zeros byte_length to_bytes
value-size = omega arith

rlp_encode_item_roundtrip_example :
    (out : Bytes) × (i : Item) × (rlp_encode_item value ≡ some out)
    × StandsFor i value
    × ((rest : Bytes) → decode (2 * length out) (out ++ rest) ≡ some (i, rest))
rlp_encode_item_roundtrip_example = rlp_encode_item_roundtrip value value-size

encoded :
    rlp_encode_item (py_list (int 1024 ∷ bytes (0x7f ∷ []) ∷ py_list [] ∷ int 0 ∷ []))
    ≡ some (0xc6 ∷ 0x82 ∷ 0x04 ∷ 0x00 ∷ 0x7f ∷ 0xc0 ∷ 0x80 ∷ [])
unfolding rlp_encode_item encode_bytes rlp_length_prefix int_bytes byte_length to_bytes
encoded = refl

-- A hash and signatures that depend on what they are given.
abbrev pub eth : Ethereum
eth = record {
  keccak = λ bs. to_bytes 32 (from_bytes 7 bs);
  sign_msg_hash = λ key digest.
      (from_bytes 0 digest % 256 ^ 32, from_bytes 0 key % 256 ^ 32, from_bytes 0 digest % 2);
}

abbrev transfer : Transfer
transfer = record {
  key = 0x11 ∷ 0x22 ∷ [];
  chain_id = 42431;
  tip20_token = codes "0x20c0000000000000000000000000000000000000";
  recipient = codes "0x00112233445566778899AABBccddeeff00112233";
  amount = 1_500_000;
  nonce_key = 0;
  nonce = 7;
  valid_before = 1_767_225_600;
  valid_after = 0;
  fee_payer = false;
  max_priority_fee_per_gas = 0;
  max_fee_per_gas = 20_000_000_000;
  gas_limit = 350_000;
}

abbrev pub recipient : Bytes
recipient =
    0x00 ∷ 0x11 ∷ 0x22 ∷ 0x33 ∷ 0x44 ∷ 0x55 ∷ 0x66 ∷ 0x77 ∷ 0x88 ∷ 0x99 ∷ 0xaa ∷ 0xbb ∷ 0xcc ∷ 0xdd
    ∷ 0xee ∷ 0xff ∷ 0x00 ∷ 0x11 ∷ 0x22 ∷ 0x33 ∷ []

pub recipient_parsed : addr_bytes transfer.recipient ≡ some recipient
unfolding addr_bytes fromhex remove_0x zfill
recipient_parsed = refl

abbrev pub token : Bytes
token =
    0x20 ∷ 0xc0 ∷ 0x00 ∷ 0x00 ∷ 0x00 ∷ 0x00 ∷ 0x00 ∷ 0x00 ∷ 0x00 ∷ 0x00 ∷ 0x00 ∷ 0x00 ∷ 0x00 ∷ 0x00
    ∷ 0x00 ∷ 0x00 ∷ 0x00 ∷ 0x00 ∷ 0x00 ∷ 0x00 ∷ []

pub token_parsed : addr_bytes transfer.tip20_token ≡ some token
unfolding addr_bytes fromhex remove_0x zfill
token_parsed = refl

words : HoldsWords transfer
words = record {
  chain_id = omega arith;
  amount = omega arith;
  nonce_key = omega arith;
  nonce = omega arith;
  valid_before = omega arith;
  valid_after = omega arith;
  max_priority_fee_per_gas = omega arith;
  max_fee_per_gas = omega arith;
  gas_limit = omega arith;
}

abbrev call : Bytes
call = calldata_of recipient 1_500_000

sent : (text : List ℕ) × (sign_tempo_transaction eth transfer ≡ some text)
sent =
    let (raw, _, _, ran, _, _, _, _) =
      sign_tempo_transaction_roundtrip eth transfer recipient_parsed token_parsed refl refl words
        (λ digest. (omega arith, omega arith, omega arith)) in
    (b'0' ∷ b'x' ∷ b'7' ∷ b'6' ∷ hex raw, ran)
