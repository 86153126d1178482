-- ===== src/Tempo/Hash.antt =====
-- `tx_hash` of what `sign_tempo_transaction` returns.
use routeweiler_python_sdk.Prelude.{
  ℕ, ◌^◌, ◌≡◌, refl, sym, inl, inr, Bool, true, false, Option, none, some, List, [], ◌∷◌, ◌++◌, ltb,
  All, All-append, arith, Bool-cases, if◌then◌else◌,
}
use routeweiler_python_sdk.Bytes.{Bytes, IsByte, zeros}
use routeweiler_python_sdk.Bytes.Numbers.{to_bytes-IsByte}
use routeweiler_python_sdk.Bytes.Hex.{hex, fromhex, remove_0x, fromhex-hex, fromhex-IsByte}
use routeweiler_python_sdk.Tempo.{bytes, one_byte, ◌>>=◌, rlp_encode_item}
use routeweiler_python_sdk.Tempo.Bytewise.{HoldsBytes, Bytewise, rlp_encode_item-Bytewise}
use routeweiler_python_sdk.Tempo.Transaction.{
  Ethereum, checked_bytes, transfer_selector, addr_bytes, encode_transfer_calldata, Transfer,
  py_list, unsigned_body, sender_signature, signed_rlp, sign_tempo_transaction, tx_hash,
}
use routeweiler_python_sdk.Tempo.Signed.{zeros-IsByte}

>>=-some :
    {A B : Type 0} (m : Option A) (f : A → Option B) {b : B}
    → m >>= f ≡ some b
    → (a : A) × (m ≡ some a) × (f a ≡ some b)
>>=-some none f h = cc
>>=-some (some a) f h = (a, refl, h)

>>=-Bytewise :
    {A : Type 0} (m : Option A) (f : A → Option Bytes)
    → ((a : A) → m ≡ some a → Bytewise (f a))
    → Bytewise (m >>= f)
>>=-Bytewise none f h = tt
>>=-Bytewise (some a) f h = h a refl

Bytewise-All : (m : Option Bytes) {bs : Bytes} → Bytewise m → m ≡ some bs → All IsByte bs
Bytewise-All none h e = cc
Bytewise-All (some a) {bs} h e = let same : a ≡ bs = cc in rw (← same) h

checked_bytes-Bytewise : (n v : ℕ) → Bytewise (checked_bytes n v)
unfolding checked_bytes
checked_bytes-Bytewise n v = elim (Bool-cases (ltb v (256 ^ n))) [
  | inl small ↦ rw small (to_bytes-IsByte n v)
  | inr large ↦ rw large tt
]

checked_bytes-IsByte : (n v : ℕ) {bs : Bytes} → checked_bytes n v ≡ some bs → All IsByte bs
checked_bytes-IsByte n v = Bytewise-All (checked_bytes n v) (checked_bytes-Bytewise n v)

addr_bytes-IsByte : (s : List ℕ) {bs : Bytes} → addr_bytes s ≡ some bs → All IsByte bs
unfolding addr_bytes
addr_bytes-IsByte s h = fromhex-IsByte _ h

encode_transfer_calldata-Bytewise :
    (s : List ℕ) (amount : ℕ) → Bytewise (encode_transfer_calldata s amount)
unfolding encode_transfer_calldata
encode_transfer_calldata-Bytewise s amount = >>=-Bytewise (addr_bytes s) _ λ addr parsed.
    >>=-Bytewise (checked_bytes 32 amount) _ λ padded fits.
      All-append IsByte transfer_selector ((zeros 12 ++ addr) ++ padded) (omega arith) (
        All-append IsByte (zeros 12 ++ addr) padded
          (All-append IsByte (zeros 12) addr (zeros-IsByte 12) (addr_bytes-IsByte s parsed))
          (checked_bytes-IsByte 32 amount fits))

one_byte-IsByte : (v : ℕ) {bs : Bytes} → one_byte v ≡ some bs → All IsByte bs
one_byte-IsByte v {bs} h = elim (Bool-cases (ltb v 256)) [
  | inl small ↦
      let same : v ∷ [] ≡ bs = ground (arith, h, small) in rw (← same) (ground (arith, small), tt)
  | inr large ↦ ground (arith, h, large)
]

sender_signature-Bytewise : (p : ℕ × ℕ × ℕ) → Bytewise (sender_signature p)
unfolding sender_signature
sender_signature-Bytewise (r, s, v) = >>=-Bytewise (checked_bytes 32 r) _ λ rs hr.
    >>=-Bytewise (checked_bytes 32 s) _ λ ss hs. >>=-Bytewise (one_byte v) _ λ vs hv.
      All-append IsByte (rs ++ ss) vs
        (All-append IsByte rs ss (checked_bytes-IsByte 32 r hr) (checked_bytes-IsByte 32 s hs))
        (one_byte-IsByte v hv)

fee_token-IsByte :
    (b : Bool) (token : Bytes) → All IsByte token → All IsByte (if b then zeros 20 else token)
fee_token-IsByte true token h = zeros-IsByte 20
fee_token-IsByte false token h = h

HoldBytes-signed_body :
    (t : Transfer) (token calldata sig : Bytes)
    → All IsByte token
    → All IsByte calldata
    → All IsByte sig
    → HoldsBytes (py_list (unsigned_body t token calldata ++ bytes sig ∷ []))
unfolding unsigned_body
HoldBytes-signed_body t token calldata sig h k l =
    let fee = fee_token-IsByte t.fee_payer token h in
    (
      tt,
      (
        tt,
        (
          tt,
          (
            tt,
            (((h, (tt, (k, tt))), tt), (tt, (tt, (tt, (tt, (tt, (fee, (tt, (tt, (l, tt)))))))))),
          ),
        ),
      ),
    )

signed_rlp-Bytewise :
    (eth : Ethereum) (t : Transfer) (token calldata : Bytes)
    → All IsByte token
    → All IsByte calldata
    → Bytewise (signed_rlp eth t token calldata)
unfolding signed_rlp
signed_rlp-Bytewise eth t token calldata h k =
    >>=-Bytewise (rlp_encode_item (py_list (unsigned_body t token calldata))) _ λ plain _.
      let p = eth.sign_msg_hash t.key (eth.keccak (0x76 ∷ plain)) in
      >>=-Bytewise (sender_signature p) _ λ sig signed. rlp_encode_item-Bytewise _ (
        HoldBytes-signed_body t token calldata sig h k
          (Bytewise-All (sender_signature p) (sender_signature-Bytewise p) signed))

-- Of any text that signing returns, the digits behind 0x read as bytes, the first of which is 0x76, and
-- `tx_hash` returns the digits of the Keccak hash of these bytes.
pub tx_hash-sign_tempo_transaction :
    (eth : Ethereum) (t : Transfer) {text : List ℕ}
    → sign_tempo_transaction eth t ≡ some text
    → (raw : Bytes) × (text ≡ b'0' ∷ b'x' ∷ hex (0x76 ∷ raw))
      × (fromhex (remove_0x text) ≡ some (0x76 ∷ raw))
      × (tx_hash eth text ≡ some (b'0' ∷ b'x' ∷ hex (eth.keccak (0x76 ∷ raw))))
unfolding sign_tempo_transaction tx_hash remove_0x hex
tx_hash-sign_tempo_transaction eth t {text} h =
    let (calldata, called, h1) = >>=-some (encode_transfer_calldata t.recipient t.amount) _ h in
    let (token, parsed, h2) = >>=-some (addr_bytes t.tip20_token) _ h1 in
    let (raw, encoded, h3) = >>=-some (signed_rlp eth t token calldata) _ h2 in
    let wire =
      Bytewise-All (signed_rlp eth t token calldata)
        (signed_rlp-Bytewise eth t token calldata (addr_bytes-IsByte t.tip20_token parsed) (
          Bytewise-All (encode_transfer_calldata t.recipient t.amount)
            (encode_transfer_calldata-Bytewise t.recipient t.amount) called))
        encoded in
    let read = fromhex-hex (0x76 ∷ raw) (omega arith, wire) in
    let same : b'0' ∷ b'x' ∷ hex (0x76 ∷ raw) ≡ text = cc in
    (raw, sym same, rw (← same) read, rw (← same) (rw read refl))
