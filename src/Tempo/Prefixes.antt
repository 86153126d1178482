-- ===== src/Tempo/Prefixes.antt =====
-- The prefixes that the encoder writes, as the decoder reads them.
use routeweiler_python_sdk.Prelude.{
  ℕ, ◌+◌, ◌-◌, ◌^◌, ◌≤◌, ◌<◌, ◌≡◌, inl, inr, false, some, [], ◌∷◌, ◌++◌, ltb, length, arith,
  Bool-cases,
}
use routeweiler_python_sdk.Bytes.{Bytes, byte_length, to_bytes, from_bytes}
use routeweiler_python_sdk.Bytes.Numbers.{
  length-to_bytes, from_bytes-to_bytes, Fits-byte_length, byte_length-le, byte_length_step,
  Fits-word,
}
use routeweiler_python_sdk.Tempo.{rlp_length_prefix}
use routeweiler_python_sdk.Tempo.Decode.{
  Kind, string, listing, sized, read_length, read_header, split_at-append,
}

abbrev pub offset : Kind → ℕ
offset string = 0x80
offset listing = 0xC0

-- A prefix is there, short, and read back.
pub record Prefix (k : Kind) (n : ℕ) : Type 0 where
  pub out : Bytes
  pub written : rlp_length_prefix n (offset k) ≡ some out
  pub long : 1 ≤ length out
  pub short : length out ≤ 9
  pub reads : (rest : Bytes) → read_header (out ++ rest) ≡ some (sized k n rest)

short_prefix : (k : Kind) (n : ℕ) → n < 56 → Prefix k n
unfolding rlp_length_prefix read_header read_length
short_prefix string n h = record {
  out = (0x80 + n) ∷ [];
  written = ground (arith, h);
  long = omega arith;
  short = omega arith;
  reads = λ rest. ground (arith, h);
}
short_prefix listing n h = record {
  out = (0xC0 + n) ∷ [];
  written = ground (arith, h);
  long = omega arith;
  short = omega arith;
  reads = λ rest. ground (arith, h);
}

-- The length of a long value takes one to eight bytes.
length_bytes : (n : ℕ) → 56 ≤ n → n < 2 ^ 64 → (1 ≤ byte_length n) × (byte_length n ≤ 8)
length_bytes n lo hi =
    (omega (arith, byte_length_step n (omega (arith, lo))), byte_length-le 8 n (Fits-word n hi))

read_length_long :
    (k : Kind) (n : ℕ) (rest : Bytes)
    → 1 ≤ byte_length n
    → read_length k (55 + byte_length n) (to_bytes (byte_length n) n ++ rest)
      ≡ some (sized k n rest)
unfolding read_length
read_length_long k n rest lo =
    let lb = to_bytes (byte_length n) n in
    let width : 55 + byte_length n - 55 ≡ length lb =
      omega (arith, length-to_bytes (byte_length n) n) in
    let back : from_bytes 0 lb ≡ n = from_bytes-to_bytes (byte_length n) n (Fits-byte_length n) in
    let long : ltb (55 + byte_length n) 56 ≡ false = ground (arith, lo) in
    rw (long, width) (rw (split_at-append lb rest, back))

long_prefix : (k : Kind) (n : ℕ) → 56 ≤ n → n < 2 ^ 64 → Prefix k n
unfolding rlp_length_prefix read_header
long_prefix string n lo hi =
    let (one, eight) = length_bytes n lo hi in
    let lb = to_bytes (byte_length n) n in
    let width = length-to_bytes (byte_length n) n in
    record {
      out = (0x80 + 55 + byte_length n) ∷ lb;
      written = ground (arith, lo, width, eight);
      long = omega arith;
      short = omega (arith, width, eight);
      reads = λ rest. ground (arith, one, eight, read_length_long string n rest one);
    }
long_prefix listing n lo hi =
    let (one, eight) = length_bytes n lo hi in
    let lb = to_bytes (byte_length n) n in
    let width = length-to_bytes (byte_length n) n in
    record {
      out = (0xC0 + 55 + byte_length n) ∷ lb;
      written = ground (arith, lo, width, eight);
      long = omega arith;
      short = omega (arith, width, eight);
      reads = λ rest. ground (arith, one, eight, read_length_long listing n rest one);
    }

pub prefix_of : (k : Kind) (n : ℕ) → n < 2 ^ 64 → Prefix k n
prefix_of k n h = elim (Bool-cases (ltb n 56)) [
  | inl small ↦ short_prefix k n (ground (arith, small))
  | inr large ↦ long_prefix k n (ground (arith, large)) h
]
