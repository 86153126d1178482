-- ===== src/Tempo/Returned.antt =====
-- The text that `sign_tempo_transaction` returns, and `tx_hash` of it.
use routeweiler_python_sdk.Prelude.{◌*◌, ◌≡◌, refl, some, [], ◌∷◌, ◌++◌, length, arith}
use mathlib.Core.List.{append-nil}
use routeweiler_python_sdk.Bytes.{Bytes}
use routeweiler_python_sdk.Bytes.Hex.{hex}
use routeweiler_python_sdk.Tempo.{bytes, rlp_encode_item}
use routeweiler_python_sdk.Tempo.Decode.{decode}
use routeweiler_python_sdk.Tempo.RoundTrip.{view, encoding}
use routeweiler_python_sdk.Tempo.Transaction.{
  Ethereum, addr_bytes, encode_transfer_calldata, Transfer, py_list, unsigned_body,
  sender_signature, sign_tempo_transaction,
}
use routeweiler_python_sdk.Tempo.Signed.{
  calldata_of, encode_transfer_calldata_lem, length-calldata_of, IsSignature, HoldsWords,
  sender_signature_lem, sizes-unsigned_body,
}

-- The calls of `sign_tempo_transaction`, in its order.
sign_tempo_transaction_lem :
    (eth : Ethereum) (t : Transfer) {calldata token plain sig raw : Bytes}
    → encode_transfer_calldata t.recipient t.amount ≡ some calldata
    → addr_bytes t.tip20_token ≡ some token
    → rlp_encode_item (py_list (unsigned_body t token calldata)) ≡ some plain
    → sender_signature (eth.sign_msg_hash t.key (eth.keccak (0x76 ∷ plain))) ≡ some sig
    → rlp_encode_item (py_list (unsigned_body t token calldata ++ bytes sig ∷ [])) ≡ some raw
    → sign_tempo_transaction eth t ≡ some (b'0' ∷ b'x' ∷ b'7' ∷ b'6' ∷ hex raw)
unfolding sign_tempo_transaction
sign_tempo_transaction_lem eth t called parsed unsigned signed whole =
    rw (called, parsed) (rw unsigned (rw signed (rw whole refl)))

module _ (eth : Ethereum) (t : Transfer) {recipient token : Bytes} where
  -- For a transfer between addresses of 20 bytes, with numbers of at most 256 bits and a key whose
  -- signatures are two words and a recovery id, signing returns 0x76 and the hexadecimal digits of an
  -- encoding from which the decoder gets the thirteen fields and a sender signature of 65 bytes, the
  -- signature of the Keccak hash of 0x76 and the encoding of the thirteen fields alone.
  pub sign_tempo_transaction_roundtrip :
      addr_bytes t.recipient ≡ some recipient
      → addr_bytes t.tip20_token ≡ some token
      → length recipient ≡ 20
      → length token ≡ 20
      → HoldsWords t
      → ((digest : Bytes) → IsSignature (eth.sign_msg_hash t.key digest))
      → (raw plain sig : Bytes) × (sign_tempo_transaction eth t
          ≡ some (b'0' ∷ b'x' ∷ b'7' ∷ b'6' ∷ hex raw))
        × (decode (2 * length raw) (raw ++ [])
            ≡ some (
              view (
                  py_list
                    (unsigned_body t token (calldata_of recipient t.amount) ++ bytes sig ∷ [])),
              [],
            ))
        × (rlp_encode_item (py_list (unsigned_body t token (calldata_of recipient t.amount)))
            ≡ some plain)
        × (sender_signature (eth.sign_msg_hash t.key (eth.keccak (0x76 ∷ plain))) ≡ some sig)
        × (length sig ≡ 65)
  sign_tempo_transaction_roundtrip to of short_to short_of words signs =
      let calldata = calldata_of recipient t.amount in
      let body = unsigned_body t token calldata in
      let sized =
        sizes-unsigned_body t words token calldata short_of
          (omega (arith, short_to, length-calldata_of recipient t.amount)) in
      let unsigned = encoding (py_list body) (omega (arith, (rw (append-nil) at (sized [])))) in
      let (sig, signed, wide) =
        sender_signature_lem (eth.sign_msg_hash t.key (eth.keccak (0x76 ∷ unsigned.out)))
          (signs (eth.keccak (0x76 ∷ unsigned.out))) in
      let whole =
        encoding (py_list (body ++ bytes sig ∷ [])) (omega (arith, sized (bytes sig ∷ []), wide)) in
      (
        whole.out,
        unsigned.out,
        sig,
        sign_tempo_transaction_lem eth t
            (encode_transfer_calldata_lem t.recipient t.amount to words.amount) of unsigned.written
            signed whole.written,
        whole.reads (2 * length whole.out) [] (omega arith),
        unsigned.written,
        signed,
        wide,
      )
