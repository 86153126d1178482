-- ===== src/Tempo/RoundTrip.antt =====
-- What the encoder writes, the decoder reads.
use routeweiler_python_sdk.Prelude.{
  ℕ, zero, suc, ◌+◌, ◌*◌, ◌^◌, ◌≤◌, ◌<◌, ◌≡◌, refl, inl, inr, true, some, [], ◌∷◌, ◌++◌, length,
  length-append, arith, Bool-cases,
}
use mathlib.Core.List.{append_assoc}
use routeweiler_python_sdk.Bytes.{Bytes}
use routeweiler_python_sdk.Tempo.{
  Rlp, int, bytes, list, RlpList, nil, cons, int_bytes, self_describing, encode_bytes,
  rlp_encode_item, rlp_encode_items,
}
use routeweiler_python_sdk.Tempo.Decode.{
  Item, ItemList, str, lst, Kind, string, listing, Header, single, sized, split_at, read_length,
  read_header, decode, decode_all, split_at-append,
}
use routeweiler_python_sdk.Tempo.Decode as Decode
use routeweiler_python_sdk.Tempo.Meaning.{StandsFor, StandForAll, int_bytes-StandsFor}
use routeweiler_python_sdk.Tempo.Prefixes.{Prefix, prefix_of}

-- What a value stands for: an integer is the string of its shortest bytes.
abbrev mutual
  pub view : Rlp → Item
  view (int v) = str (int_bytes v)
  view (bytes bs) = str bs
  view (list xs) = lst (views xs)

  pub views : RlpList → ItemList
  views nil = Decode.nil
  views (cons x xs) = Decode.cons (view x) (views xs)

-- An upper bound of the length of an encoding.
abbrev mutual
  pub size : Rlp → ℕ
  size (int v) = 9 + length (int_bytes v)
  size (bytes bs) = 9 + length bs
  size (list xs) = 9 + sizes xs

  pub sizes : RlpList → ℕ
  sizes nil = 0
  sizes (cons x xs) = size x + sizes xs

-- An encoding is there, and read back in front of anything.
pub record Encoding (x : Rlp) : Type 0 where
  pub out : Bytes
  pub written : rlp_encode_item x ≡ some out
  pub some_byte : 1 ≤ length out
  pub bounded : length out ≤ size x
  pub reads :
      (fuel : ℕ) (rest : Bytes)
      → 2 * length out ≤ fuel
      → decode fuel (out ++ rest) ≡ some (view x, rest)

record Encodings (xs : RlpList) : Type 0 where
  out : Bytes
  written : rlp_encode_items xs ≡ some out
  bounded : length out ≤ sizes xs
  reads : (fuel : ℕ) → 2 * length out + 1 ≤ fuel → decode_all fuel out ≡ some (views xs)

-- A string of bytes.
record StringEncoding (bs : Bytes) : Type 0 where
  out : Bytes
  written : encode_bytes bs ≡ some out
  some_byte : 1 ≤ length out
  bounded : length out ≤ 9 + length bs
  reads :
      (fuel : ℕ) (rest : Bytes)
      → 2 * length out ≤ fuel
      → decode fuel (out ++ rest) ≡ some (str bs, rest)

decode_single :
    (fuel b : ℕ) (rest : Bytes)
    → b < 0x80
    → 2 ≤ fuel
    → decode fuel (b ∷ rest) ≡ some (str (b ∷ []), rest)
unfolding decode read_header
decode_single zero b rest h k = absurd (omega (arith, k))
decode_single (suc fuel) b rest h k = ground (arith, h)

decode_string :
    (bs : Bytes) (p : Prefix string (length bs)) (fuel : ℕ) (rest : Bytes)
    → 2 * length (p.out ++ bs) ≤ fuel
    → decode fuel ((p.out ++ bs) ++ rest) ≡ some (str bs, rest)
unfolding decode
decode_string bs p zero rest h = absurd (omega (arith, h, length-append p.out bs, p.long))
decode_string bs p (suc fuel) rest h =
    rw (append_assoc p.out bs rest)
      (rw (p.reads (bs ++ rest), decode) (rw (split_at-append bs rest)))

self_encoding : (bs : Bytes) → self_describing bs ≡ true → StringEncoding bs
unfolding encode_bytes
self_encoding [] h = cc
self_encoding (b ∷ []) h = record {
  out = b ∷ [];
  written = ground (arith, h);
  some_byte = omega arith;
  bounded = omega arith;
  reads = λ fuel rest k. decode_single fuel b rest (ground (arith, h)) (omega (arith, k));
}
self_encoding (b ∷ c ∷ bs) h = cc

string_encoding : (bs : Bytes) → length bs < 2 ^ 64 → StringEncoding bs
unfolding encode_bytes
string_encoding bs h = elim (Bool-cases (self_describing bs)) [
  | inl itself ↦ self_encoding bs itself
  | inr other ↦
      let p = prefix_of string (length bs) h in
      record {
        out = p.out ++ bs;
        written = rw (other, p.written);
        some_byte = omega (arith, length-append p.out bs, p.long);
        bounded = omega (arith, length-append p.out bs, p.short);
        reads = decode_string bs p;
      }
]

decode_listing :
    (xs : RlpList) (e : Encodings xs) (p : Prefix listing (length e.out)) (fuel : ℕ) (rest : Bytes)
    → 2 * length (p.out ++ e.out) ≤ fuel
    → decode fuel ((p.out ++ e.out) ++ rest) ≡ some (lst (views xs), rest)
unfolding decode
decode_listing xs e p zero rest h = absurd (omega (arith, h, length-append p.out e.out, p.long))
decode_listing xs e p (suc fuel) rest h =
    let enough : 2 * length e.out + 1 ≤ fuel =
      omega (arith, h, length-append p.out e.out, p.long) in
    rw (append_assoc p.out e.out rest) (
      rw (p.reads (e.out ++ rest), decode)
        (rw (split_at-append e.out rest) (rw (e.reads fuel enough))))

decode_all-nil : (fuel : ℕ) → 1 ≤ fuel → decode_all fuel [] ≡ some Decode.nil
unfolding decode_all
decode_all-nil zero h = absurd (omega (arith, h))
decode_all-nil (suc fuel) h = refl

decode_all_step :
    (fuel : ℕ) (bs more : Bytes) (i : Item) (is : ItemList)
    → 1 ≤ length bs
    → decode fuel (bs ++ more) ≡ some (i, more)
    → decode_all fuel more ≡ some is
    → decode_all (suc fuel) (bs ++ more) ≡ some (Decode.cons i is)
unfolding decode_all
decode_all_step fuel [] more i is h one rest = absurd (omega (arith, h))
decode_all_step fuel (b ∷ bs) more i is h one rest = rw one (rw rest)

decode_all-cons :
    (x : Rlp) (xs : RlpList) (e : Encoding x) (es : Encodings xs) (fuel : ℕ)
    → 2 * length (e.out ++ es.out) + 1 ≤ fuel
    → decode_all fuel (e.out ++ es.out) ≡ some (Decode.cons (view x) (views xs))
decode_all-cons x xs e es zero h = absurd (omega (arith, h))
decode_all-cons x xs e es (suc fuel) h =
    let wide = length-append e.out es.out in
    decode_all_step fuel e.out es.out (view x) (views xs) e.some_byte
      (e.reads fuel es.out (omega (arith, h, wide)))
      (es.reads fuel (omega (arith, h, wide, e.some_byte)))

mutual
  unfolding rlp_encode_item

  pub encoding : (x : Rlp) → size x < 2 ^ 64 → Encoding x
  encoding (int v) h =
      let e = string_encoding (int_bytes v) (omega (arith, h)) in
      record {
        out = e.out;
        written = e.written;
        some_byte = e.some_byte;
        bounded = e.bounded;
        reads = e.reads;
      }
  encoding (bytes bs) h =
      let e = string_encoding bs (omega (arith, h)) in
      record {
        out = e.out;
        written = e.written;
        some_byte = e.some_byte;
        bounded = e.bounded;
        reads = e.reads;
      }
  encoding (list xs) h =
      let e = encodings xs (omega (arith, h)) in
      let p = prefix_of listing (length e.out) (omega (arith, h, e.bounded)) in
      record {
        out = p.out ++ e.out;
        written = rw e.written (rw p.written);
        some_byte = omega (arith, length-append p.out e.out, p.long);
        bounded = omega (arith, length-append p.out e.out, p.short, e.bounded);
        reads = decode_listing xs e p;
      }

  encodings : (xs : RlpList) → sizes xs < 2 ^ 64 → Encodings xs
  encodings nil h = record {
    out = [];
    written = refl;
    bounded = omega arith;
    reads = decode_all-nil;
  }
  encodings (cons x xs) h =
      let e = encoding x (omega (arith, h)) in
      let es = encodings xs (omega (arith, h)) in
      record {
        out = e.out ++ es.out;
        written = rw (e.written, es.written);
        bounded = omega (arith, length-append e.out es.out, e.bounded, es.bounded);
        reads = decode_all-cons x xs e es;
      }

mutual
  pub view-StandsFor : (x : Rlp) → StandsFor (view x) x
  view-StandsFor (int v) = int_bytes-StandsFor v
  view-StandsFor (bytes bs) = refl
  view-StandsFor (list xs) = views-StandForAll xs

  views-StandForAll : (xs : RlpList) → StandForAll (views xs) xs
  views-StandForAll nil = tt
  views-StandForAll (cons x xs) = (view-StandsFor x, views-StandForAll xs)

-- A value whose fields take less than 2 ^ 64 bytes has an encoding. The decoder gets from it an item
-- that stands for the value, an integer as a string that is the integer in base 256 without a zero in
-- front, and leaves whatever follows.
pub rlp_encode_item_roundtrip :
    (x : Rlp)
    → size x < 2 ^ 64
    → (out : Bytes) × (i : Item) × (rlp_encode_item x ≡ some out)
      × StandsFor i x
      × ((rest : Bytes) → decode (2 * length out) (out ++ rest) ≡ some (i, rest))
rlp_encode_item_roundtrip x h =
    let e = encoding x h in
    (
      e.out,
      view x,
      e.written,
      view-StandsFor x,
      λ rest. e.reads (2 * length e.out) rest (omega arith),
    )
