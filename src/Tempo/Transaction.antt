-- ===== src/Tempo/Transaction.antt =====
-- src/routeweiler/rails/_tempo_tx.py: the transaction and its signature. Texts are the codes of their
-- characters; `none` is an exception. Keccak and secp256k1 are libraries.
use routeweiler_python_sdk.Prelude.{
  ℕ, ◌^◌, Bool, Option, none, some, List, [], ◌∷◌, ◌++◌, ltb, if◌then◌else◌,
}
use routeweiler_python_sdk.Bytes.{Bytes, to_bytes, zeros}
use routeweiler_python_sdk.Bytes.Hex.{hex, fromhex, remove_0x, zfill}
use routeweiler_python_sdk.Tempo.{
  Rlp, int, bytes, list, RlpList, nil, cons, one_byte, ◌>>=◌, rlp_encode_item,
}

-- `keccak`, and `PrivateKey(key).sign_msg_hash(digest)` as r, s and v.
pub record Ethereum : Type 0 where
  pub keccak : Bytes → Bytes
  pub sign_msg_hash : Bytes → Bytes → ℕ × ℕ × ℕ

-- `v.to_bytes(n, "big")`: a number that is too large raises OverflowError.
unfoldable pub checked_bytes : ℕ → ℕ → Option Bytes
checked_bytes n v = if ltb v (256 ^ n) then some (to_bytes n v) else none

-- `_TRANSFER_SELECTOR`
abbrev pub transfer_selector : Bytes
transfer_selector = 0xa9 ∷ 0x05 ∷ 0x9c ∷ 0xbb ∷ []

-- `_addr_bytes`
unfoldable pub addr_bytes : List ℕ → Option Bytes
addr_bytes hex_address = fromhex (zfill 40 (remove_0x hex_address))

-- `_encode_transfer_calldata`
unfoldable pub encode_transfer_calldata : List ℕ → ℕ → Option Bytes
unfolding addr_bytes checked_bytes
encode_transfer_calldata recipient amount = addr_bytes recipient >>= λ addr.
    checked_bytes 32 amount >>= λ padded_amount.
    some (transfer_selector ++ ((zeros 12 ++ addr) ++ padded_amount))

-- The keyword arguments of `sign_tempo_transaction`; the wallet is its key.
pub record Transfer : Type 0 where
  pub key : Bytes
  pub chain_id : ℕ
  pub tip20_token : List ℕ
  pub recipient : List ℕ
  pub amount : ℕ
  pub nonce_key : ℕ
  pub nonce : ℕ
  pub valid_before : ℕ
  pub valid_after : ℕ
  pub fee_payer : Bool
  pub max_priority_fee_per_gas : ℕ
  pub max_fee_per_gas : ℕ
  pub gas_limit : ℕ

-- A Python list.
abbrev pub rlps : List Rlp → RlpList
rlps [] = nil
rlps (x ∷ xs) = cons x (rlps xs)

abbrev pub py_list : List Rlp → Rlp
py_list xs = list (rlps xs)

-- `unsigned_body`, of the bytes of the token and the call data.
unfoldable pub unsigned_body : Transfer → Bytes → Bytes → List Rlp
unsigned_body t token calldata =
    int t.chain_id
    ∷ int t.max_priority_fee_per_gas
    ∷ int t.max_fee_per_gas
    ∷ int t.gas_limit
    ∷ py_list (py_list (bytes token ∷ int 0 ∷ bytes calldata ∷ []) ∷ [])
    ∷ py_list []
    ∷ int t.nonce_key
    ∷ int t.nonce
    ∷ int t.valid_before
    ∷ int t.valid_after
    ∷ bytes (if t.fee_payer then zeros 20 else token)
    ∷ bytes []
    ∷ py_list []
    ∷ []

-- r, s and v in 65 bytes.
unfoldable pub sender_signature : ℕ × ℕ × ℕ → Option Bytes
unfolding checked_bytes
sender_signature (r, s, v) = checked_bytes 32 r >>= λ rs.
    checked_bytes 32 s >>= λ ss. one_byte v >>= λ vs. some ((rs ++ ss) ++ vs)

-- The signed transaction behind its type byte.
unfoldable pub signed_rlp : Ethereum → Transfer → Bytes → Bytes → Option Bytes
unfolding sender_signature
signed_rlp eth t token calldata =
    let body = unsigned_body t token calldata in
    rlp_encode_item (py_list body) >>= λ rlp_unsigned.
    sender_signature (eth.sign_msg_hash t.key (eth.keccak (0x76 ∷ rlp_unsigned))) >>= λ sender_sig.
    rlp_encode_item (py_list (body ++ bytes sender_sig ∷ []))

-- `sign_tempo_transaction`
unfoldable pub sign_tempo_transaction : Ethereum → Transfer → Option (List ℕ)
unfolding encode_transfer_calldata signed_rlp
sign_tempo_transaction eth t = encode_transfer_calldata t.recipient t.amount >>= λ calldata.
    addr_bytes t.tip20_token >>= λ token.
    signed_rlp eth t token calldata >>= λ rlp. some (b'0' ∷ b'x' ∷ b'7' ∷ b'6' ∷ hex rlp)

-- `tx_hash`
unfoldable pub tx_hash : Ethereum → List ℕ → Option (List ℕ)
tx_hash eth signed_tx_hex =
    fromhex (remove_0x signed_tx_hex) >>= λ raw. some (b'0' ∷ b'x' ∷ hex (eth.keccak raw))
