-- ===== src/Tempo.antt =====
-- src/routeweiler/rails/_tempo_tx.py: the RLP encoder. Bytes are lists of numbers; `none` is the
-- ValueError of `bytes([n])` for a number above 255.
pub mod Decode
pub mod Meaning
pub mod Prefixes
pub mod RoundTrip
pub mod Transaction
pub mod Bytewise
pub mod Signed
pub mod Returned
pub mod Hash
use routeweiler_python_sdk.Prelude.{
  ℕ, ◌+◌, Bool, true, false, Option, none, some, List, [], ◌∷◌, ◌++◌, ltb, ◌==◌, length,
  if◌then◌else◌,
}
use routeweiler_python_sdk.Bytes.{Bytes, byte_length, to_bytes}

-- The values that `_rlp_encode_item` is given.
mutual
  pub data Rlp : Type 0 where
    int : ℕ → Rlp
    bytes : Bytes → Rlp
    list : RlpList → Rlp

  pub data RlpList : Type 0 where
    nil : RlpList
    cons : Rlp → RlpList → RlpList

-- `bytes([n])`
abbrev pub one_byte : ℕ → Option Bytes
one_byte n = if ltb n 256 then some (n ∷ []) else none

module _ {A : Type 0} {B : Type 0} where
  infixl 5 ◌>>=◌
  abbrev pub ◌>>=◌ : Option A → (A → Option B) → Option B
  none >>= f = none
  some a >>= f = f a

-- `_rlp_length_prefix`
unfoldable pub rlp_length_prefix : ℕ → ℕ → Option Bytes
rlp_length_prefix n offset =
    let length_bytes = to_bytes (byte_length n) n in
    let long = one_byte (offset + 55 + length length_bytes) >>= λ p. some (p ++ length_bytes) in
    if ltb n 56 then one_byte (offset + n) else long

-- The bytes of an integer, of 0 none.
unfoldable pub int_bytes : ℕ → Bytes
int_bytes v = if v == 0 then [] else to_bytes (byte_length v) v

abbrev pub self_describing : Bytes → Bool
self_describing (b ∷ []) = ltb b 0x80
self_describing _ = false

abbrev pub prefixed : ℕ → Bytes → Option Bytes
prefixed offset payload = rlp_length_prefix (length payload) offset >>= λ p. some (p ++ payload)

unfoldable pub encode_bytes : Bytes → Option Bytes
unfolding rlp_length_prefix
encode_bytes value = if self_describing value then some value else prefixed 0x80 value

-- `_rlp_encode_item`
unfoldable mutual
  pub rlp_encode_item : Rlp → Option Bytes
  rlp_encode_item (int v) = encode_bytes (int_bytes v)
  rlp_encode_item (bytes value) = encode_bytes value
  rlp_encode_item (list items) = rlp_encode_items items >>= prefixed 0xC0

  pub rlp_encode_items : RlpList → Option Bytes
  rlp_encode_items nil = some []
  rlp_encode_items (cons x xs) =
      rlp_encode_item x >>= λ a. rlp_encode_items xs >>= λ b. some (a ++ b)
