-- ===== src/Tempo/Signed.antt =====
-- What `sign_tempo_transaction` returns, read by the decoder.
use routeweiler_python_sdk.Prelude.{
  ℕ, zero, suc, ◌+◌, ◌/◌, ◌^◌, ◌≤◌, ◌<◌, ◌≡◌, refl, inl, inr, some, List, [], ◌∷◌, ◌++◌, ◌==◌,
  length, length-append, All, arith, Bool-cases, if◌then◌else◌,
}
use routeweiler_python_sdk.Bytes.{Bytes, IsByte, byte_length, to_bytes, zeros}
use routeweiler_python_sdk.Bytes.Numbers.{length-to_bytes, Fits, byte_length-le}
use routeweiler_python_sdk.Tempo.{Rlp, one_byte, int_bytes}
use routeweiler_python_sdk.Tempo.RoundTrip.{sizes}
use routeweiler_python_sdk.Tempo.Transaction.{
  checked_bytes, transfer_selector, addr_bytes, encode_transfer_calldata, Transfer, rlps,
  unsigned_body, sender_signature,
}

Fits-pow : (n v : ℕ) → v < 256 ^ n → Fits n v
Fits-pow zero v h = omega (arith, h)
Fits-pow (suc n) v h = Fits-pow n (v / 256) (grind arith)

-- A number of at most 256 bits.
abbrev pub IsWord : ℕ → Type 0
IsWord v = v < 256 ^ 32

length-int_bytes : (v : ℕ) → IsWord v → length (int_bytes v) ≤ 32
unfolding int_bytes
length-int_bytes v h = elim (Bool-cases (v == 0)) [
  | inl e ↦ rw e (omega arith)
  | inr e ↦
      rw e (omega (arith, length-to_bytes (byte_length v) v, byte_length-le 32 v (Fits-pow 32 v h)))
]

length-zeros : (n : ℕ) → length (zeros n) ≡ n
unfolding zeros
length-zeros zero = refl
length-zeros (suc n) = omega (arith, length-zeros n)

pub zeros-IsByte : (n : ℕ) → All IsByte (zeros n)
unfolding zeros
zeros-IsByte zero = tt
zeros-IsByte (suc n) = (omega arith, zeros-IsByte n)

checked_bytes_lem : (n v : ℕ) → v < 256 ^ n → checked_bytes n v ≡ some (to_bytes n v)
unfolding checked_bytes
checked_bytes_lem n v h = ground (arith, h)

pub encode_transfer_calldata_lem :
    (address : List ℕ) (amount : ℕ) {recipient : Bytes}
    → addr_bytes address ≡ some recipient
    → IsWord amount
    → encode_transfer_calldata address amount
      ≡ some (transfer_selector ++ ((zeros 12 ++ recipient) ++ to_bytes 32 amount))
unfolding encode_transfer_calldata
encode_transfer_calldata_lem address amount parsed h =
    rw (parsed, checked_bytes_lem 32 amount h) refl

-- The call data of a transfer.
abbrev pub calldata_of : Bytes → ℕ → Bytes
calldata_of recipient amount = transfer_selector ++ ((zeros 12 ++ recipient) ++ to_bytes 32 amount)

pub length-calldata_of :
    (recipient : Bytes) (amount : ℕ) → length (calldata_of recipient amount) ≡ 48 + length recipient
length-calldata_of recipient amount = omega (
  arith,
  length-append (zeros 12 ++ recipient) (to_bytes 32 amount),
  length-append (zeros 12) recipient,
  length-zeros 12,
  length-to_bytes 32 amount,
)

-- What a signature of secp256k1 is: two words and the recovery id.
abbrev pub IsSignature : ℕ × ℕ × ℕ → Type 0
IsSignature (r, s, v) = IsWord r × IsWord s × v < 256

pub sender_signature_lem :
    (p : ℕ × ℕ × ℕ)
    → IsSignature p
    → (sig : Bytes) × (sender_signature p ≡ some sig) × (length sig ≡ 65)
unfolding sender_signature
sender_signature_lem (r, s, v) (hr, hs, hv) =
    let one : one_byte v ≡ some (v ∷ []) = ground (arith, hv) in
    let rs = to_bytes 32 r in
    let ss = to_bytes 32 s in
    (
      (rs ++ ss) ++ v ∷ [],
      rw (checked_bytes_lem 32 r hr, checked_bytes_lem 32 s hs, one) refl,
      omega (
        arith,
        length-append (rs ++ ss) (v ∷ []),
        length-append rs ss,
        length-to_bytes 32 r,
        length-to_bytes 32 s,
      ),
    )

-- The numbers of a transfer have at most 256 bits.
pub record HoldsWords (t : Transfer) : Type 0 where
  pub chain_id : IsWord t.chain_id
  pub amount : IsWord t.amount
  pub nonce_key : IsWord t.nonce_key
  pub nonce : IsWord t.nonce
  pub valid_before : IsWord t.valid_before
  pub valid_after : IsWord t.valid_after
  pub max_priority_fee_per_gas : IsWord t.max_priority_fee_per_gas
  pub max_fee_per_gas : IsWord t.max_fee_per_gas
  pub gas_limit : IsWord t.gas_limit

module _ (t : Transfer) (words : HoldsWords t) (token calldata : Bytes) where
  length-fee_token : length token ≡ 20 → length (if t.fee_payer then zeros 20 else token) ≡ 20
  length-fee_token h = elim (Bool-cases t.fee_payer) [
    | inl e ↦ rw e (length-zeros 20)
    | inr e ↦ rw e h
  ]

  pub sizes-unsigned_body :
      length token ≡ 20
      → length calldata ≡ 68
      → (more : List Rlp)
      → sizes (rlps (unsigned_body t token calldata ++ more)) ≤ 1000 + sizes (rlps more)
  unfolding unsigned_body
  sizes-unsigned_body h k more = omega (
    arith,
    length-int_bytes t.chain_id words.chain_id,
    length-int_bytes t.max_priority_fee_per_gas words.max_priority_fee_per_gas,
    length-int_bytes t.max_fee_per_gas words.max_fee_per_gas,
    length-int_bytes t.gas_limit words.gas_limit,
    length-int_bytes t.nonce_key words.nonce_key,
    length-int_bytes t.nonce words.nonce,
    length-int_bytes t.valid_before words.valid_before,
    length-int_bytes t.valid_after words.valid_after,
    length-int_bytes 0 (omega arith),
    length-fee_token h,
    h,
    k,
  )
