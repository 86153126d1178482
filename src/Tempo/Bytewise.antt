-- ===== src/Tempo/Bytewise.antt =====
-- The encoder writes bytes where its input holds bytes.
use routeweiler_python_sdk.Prelude.{
  ℕ, ◌+◌, inl, inr, Option, none, some, ◌++◌, ltb, ◌==◌, length, All, All-append, arith, Bool-cases,
}
use routeweiler_python_sdk.Bytes.{Bytes, IsByte, byte_length, to_bytes}
use routeweiler_python_sdk.Bytes.Numbers.{to_bytes-IsByte}
use routeweiler_python_sdk.Tempo.{
  Rlp, int, bytes, list, RlpList, nil, cons, one_byte, ◌>>=◌, rlp_length_prefix, int_bytes,
  self_describing, prefixed, encode_bytes, rlp_encode_item, rlp_encode_items,
}

-- Every `bytes` in a value holds bytes.
abbrev mutual
  pub HoldsBytes : Rlp → Type 0
  HoldsBytes (int v) = Unit {0}
  HoldsBytes (bytes bs) = All IsByte bs
  HoldsBytes (list xs) = HoldBytes xs

  pub HoldBytes : RlpList → Type 0
  HoldBytes nil = Unit {0}
  HoldBytes (cons x xs) = HoldsBytes x × HoldBytes xs

abbrev pub Bytewise : Option Bytes → Type 0
Bytewise none = Unit {0}
Bytewise (some bs) = All IsByte bs

one_byte-Bytewise : (n : ℕ) → Bytewise (one_byte n)
one_byte-Bytewise n = ground arith

appended-Bytewise :
    (a : Option Bytes) (bs : Bytes)
    → Bytewise a
    → All IsByte bs
    → Bytewise (a >>= λ p. some (p ++ bs))
appended-Bytewise none bs h k = tt
appended-Bytewise (some p) bs h k = All-append IsByte p bs h k

joined-Bytewise :
    (a b : Option Bytes) → Bytewise a → Bytewise b → Bytewise (a >>= λ p. b >>= λ q. some (p ++ q))
joined-Bytewise none b h k = tt
joined-Bytewise (some p) none h k = tt
joined-Bytewise (some p) (some q) h k = All-append IsByte p q h k

rlp_length_prefix-Bytewise : (n offset : ℕ) → Bytewise (rlp_length_prefix n offset)
unfolding rlp_length_prefix
rlp_length_prefix-Bytewise n offset = elim (Bool-cases (ltb n 56)) [
  | inl short ↦ rw short (one_byte-Bytewise (offset + n))
  | inr long ↦
      let lb = to_bytes (byte_length n) n in
      rw long (
        appended-Bytewise (one_byte (offset + 55 + length lb)) lb
          (one_byte-Bytewise (offset + 55 + length lb)) (to_bytes-IsByte (byte_length n) n))
]

prefixed-Bytewise : (offset : ℕ) (bs : Bytes) → All IsByte bs → Bytewise (prefixed offset bs)
prefixed-Bytewise offset bs h =
    appended-Bytewise (rlp_length_prefix (length bs) offset) bs
      (rlp_length_prefix-Bytewise (length bs) offset) h

listed-Bytewise : (a : Option Bytes) → Bytewise a → Bytewise (a >>= prefixed 0xC0)
listed-Bytewise none h = tt
listed-Bytewise (some bs) h = prefixed-Bytewise 0xC0 bs h

encode_bytes-Bytewise : (bs : Bytes) → All IsByte bs → Bytewise (encode_bytes bs)
unfolding encode_bytes
encode_bytes-Bytewise bs h = elim (Bool-cases (self_describing bs)) [
  | inl itself ↦ rw itself h
  | inr other ↦ rw other (prefixed-Bytewise 0x80 bs h)
]

int_bytes-IsByte : (v : ℕ) → All IsByte (int_bytes v)
unfolding int_bytes
int_bytes-IsByte v = elim (Bool-cases (v == 0)) [
  | inl e ↦ rw e tt
  | inr e ↦ rw e (to_bytes-IsByte (byte_length v) v)
]

mutual
  unfolding rlp_encode_item

  pub rlp_encode_item-Bytewise : (x : Rlp) → HoldsBytes x → Bytewise (rlp_encode_item x)
  rlp_encode_item-Bytewise (int v) h = encode_bytes-Bytewise (int_bytes v) (int_bytes-IsByte v)
  rlp_encode_item-Bytewise (bytes bs) h = encode_bytes-Bytewise bs h
  rlp_encode_item-Bytewise (list xs) h =
      listed-Bytewise (rlp_encode_items xs) (rlp_encode_items-Bytewise xs h)

  pub rlp_encode_items-Bytewise : (xs : RlpList) → HoldBytes xs → Bytewise (rlp_encode_items xs)
  rlp_encode_items-Bytewise nil h = tt
  rlp_encode_items-Bytewise (cons x xs) h =
      joined-Bytewise (rlp_encode_item x) (rlp_encode_items xs) (rlp_encode_item-Bytewise x h.0)
        (rlp_encode_items-Bytewise xs h.1)
