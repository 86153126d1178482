-- ===== src/Bolt11/Invoices.antt =====
-- What `decode` returns for an invoice that was written from its parts.
use routeweiler_python_sdk.Prelude.{
  ℕ, zero, suc, ◌-◌, ◌≤◌, ◌<◌, ◌≡◌, refl, ap, ◌∙◌, Bool, true, false, Option, none, some, List, [],
  ◌∷◌, ◌++◌, not, ◌&&◌, ltb, ◌==◌, length, length-append, take, drop, take-append, drop-append, All,
  All-append, arith, inl, inr, Bool-cases,
}
use routeweiler_python_sdk.Bytes.{Bytes}
use routeweiler_python_sdk.Texts.{Text, lower, strip}
use routeweiler_python_sdk.Bolt11.{
  charset, index_of, data5_of, split_last, to_bits, bits_to_int, TaggedFields, no_fields,
  DecodedBolt11, parse_hrp_amount, tagged_fields, invoice, decode_bits, decode_groups, decode_parts,
  decode,
}
use routeweiler_python_sdk.Bolt11.Fields.{
  Field, IsGroup, IsField, all_written, collected, length-to_bits, to_bits-append, fields-read,
  length-all_written, all_written-IsGroup,
}

-- The character of a group.
abbrev pub at : ℕ → Text → ℕ
at i [] = 0
at zero (c ∷ s) = c
at (suc i) (c ∷ s) = at i s

abbrev pub char_of : ℕ → ℕ
char_of v = at v charset

abbrev pub chars_of : List ℕ → Text
chars_of [] = []
chars_of (v ∷ vs) = char_of v ∷ chars_of vs

abbrev is_index : Option ℕ → ℕ → Bool
is_index none v = false
is_index (some i) v = i == v

abbrev good : ℕ → Bool
good v = is_index (index_of (char_of v) charset) v && not (char_of v == b'1')

abbrev all_below : ℕ → (ℕ → Bool) → Bool
all_below zero p = true
all_below (suc n) p = p n && all_below n p

below : (p : ℕ → Bool) (n v : ℕ) → all_below n p ≡ true → v < n → p v ≡ true
below p zero v h lt = absurd (omega (arith, lt))
below p (suc n) v h lt = elim (Bool-cases (v == n)) [
  | inl same ↦ let e : v ≡ n = ground (arith, same) in rw e (ground (arith, h))
  | inr less ↦ below p n v (ground (arith, h)) (ground (arith, less, lt))
]

charset-good : all_below 32 good ≡ true
unfolding index_of
charset-good = refl

good-index :
    (v : ℕ) (o : Option ℕ) (b : Bool) → is_index o v && not b ≡ true → (o ≡ some v) × (b ≡ false)
good-index v none b h = cc
good-index v (some i) true h = ground (arith, h)
good-index v (some i) false h = let e : i ≡ v = ground (arith, h) in (ap some e, refl)

char-read : (v : ℕ) → v < 32 → (index_of (char_of v) charset ≡ some v) × (char_of v == b'1' ≡ false)
char-read v h =
    good-index v (index_of (char_of v) charset) (char_of v == b'1') (below good 32 v charset-good h)

data5_of-chars_of : (vs : List ℕ) → All IsGroup vs → data5_of (chars_of vs) ≡ some vs
unfolding data5_of
data5_of-chars_of [] h = refl
data5_of-chars_of (v ∷ vs) h = rw ((char-read v h.0).0, data5_of-chars_of vs h.1) refl

split_last-chars_of : (vs : List ℕ) → All IsGroup vs → split_last b'1' (chars_of vs) ≡ none
unfolding split_last
split_last-chars_of [] h = refl
split_last-chars_of (v ∷ vs) h = rw (split_last-chars_of vs h.1) (rw (char-read v h.0).1 refl)

split_last-append :
    (c : ℕ) (before after : Text)
    → split_last c after ≡ none
    → split_last c (before ++ c ∷ after) ≡ some (before, after)
unfolding split_last
split_last-append c [] after h = rw h (ground arith)
split_last-append c (d ∷ before) after h = rw (split_last-append c before after h) refl

length-chars_of : (vs : List ℕ) → length (chars_of vs) ≡ length vs
length-chars_of [] = refl
length-chars_of (v ∷ vs) = omega (arith, length-chars_of vs)

take-of_length : {A : Type 0} (n : ℕ) (xs ys : List A) → length xs ≡ n → take n (xs ++ ys) ≡ xs
take-of_length n xs ys h = rw (← h) (take-append xs ys)

drop-of_length : {A : Type 0} (n : ℕ) (xs ys : List A) → length xs ≡ n → drop n (xs ++ ys) ≡ ys
drop-of_length n xs ys h = rw (← h) (drop-append xs ys)

-- One field takes three groups.
length-some : (fs : List Field) → 1 ≤ length fs → 3 ≤ length (all_written fs)
length-some [] h = absurd (omega (arith, h))
length-some (f ∷ fs) h = omega arith

module _ (utf8 : Bytes → Text) (hrp : Text) where
  -- What the parts of an invoice say.
  abbrev pub said : List ℕ → List Field → Option DecodedBolt11
  said ts fs =
      let f = collected utf8 fs no_fields in
      invoice utf8 (parse_hrp_amount hrp) (bits_to_int (to_bits ts)) f f.payment_hash_hex

  decode_bits-parts :
      (bits stamp : List ℕ) (f : TaggedFields)
      → ltb (length bits) 35 ≡ false
      → take 35 bits ≡ stamp
      → tagged_fields utf8 (length bits) (drop 35 bits) no_fields ≡ f
      → decode_bits utf8 hrp bits
        ≡ invoice utf8 (parse_hrp_amount hrp) (bits_to_int stamp) f f.payment_hash_hex
  unfolding decode_bits
  decode_bits-parts bits stamp f long taken read = rw (long, taken, read) refl

  decode_bits_lem :
      (ts : List ℕ) (fs : List Field)
      → length ts ≡ 7
      → All IsField fs
      → decode_bits utf8 hrp (to_bits (ts ++ all_written fs)) ≡ said ts fs
  decode_bits_lem ts fs h k =
      let bits = to_bits ts ++ to_bits (all_written fs) in
      let wide : length (to_bits ts) ≡ 35 = omega (arith, length-to_bits ts, h) in
      let whole = length-append (to_bits ts) (to_bits (all_written fs)) in
      let enough : length fs ≤ length bits =
        omega (arith, whole, length-all_written fs, length-to_bits (all_written fs)) in
      let long : ltb (length bits) 35 ≡ false = ground (arith, whole, wide) in
      let read = fields-read utf8 (length bits) fs no_fields k enough in
      let stamp = take-of_length 35 (to_bits ts) (to_bits (all_written fs)) wide in
      let left = drop-of_length 35 (to_bits ts) (to_bits (all_written fs)) wide in
      rw (to_bits-append ts (all_written fs)) (
        decode_bits-parts bits (to_bits ts) (collected utf8 fs no_fields) long stamp
          (ap (λ (b : List ℕ). tagged_fields utf8 (length bits) b no_fields) left ∙ read))

  decode_groups_lem :
      (ts tail : List ℕ) (fs : List Field)
      → length ts ≡ 7
      → length tail ≡ 110
      → All IsField fs
      → decode_groups utf8 hrp ((ts ++ all_written fs) ++ tail) ≡ said ts fs
  unfolding decode_groups
  decode_groups_lem ts tail fs h l k =
      let payload = ts ++ all_written fs in
      let whole = length-append payload tail in
      let room = length-append ts (all_written fs) in
      let long : ltb (length (payload ++ tail)) 117 ≡ false = ground (arith, whole, l, room, h) in
      let stamped : ltb (length payload) 7 ≡ false = ground (arith, room, h) in
      let stripped : take (length (payload ++ tail) - 110) (payload ++ tail) ≡ payload =
        take-of_length (length (payload ++ tail) - 110) payload tail (omega (arith, whole, l)) in
      rw long (rw stripped (rw stamped (decode_bits_lem ts fs h k)))

  decode_parts_lem :
      (ts tail : List ℕ) (fs : List Field)
      → 2 ≤ length hrp
      → length ts ≡ 7
      → length tail ≡ 110
      → 1 ≤ length fs
      → All IsGroup ((ts ++ all_written fs) ++ tail)
      → All IsField fs
      → decode_parts utf8 hrp (chars_of ((ts ++ all_written fs) ++ tail)) ≡ said ts fs
  unfolding decode_parts
  decode_parts_lem ts tail fs p h l n g k =
      let groups = (ts ++ all_written fs) ++ tail in
      let whole = length-append (ts ++ all_written fs) tail in
      let room = length-append ts (all_written fs) in
      let long : ltb (length (chars_of groups)) 118 ≡ false =
        ground (arith, length-chars_of groups, whole, room, h, l, length-some fs n) in
      let prefixed : ltb (length hrp) 2 ≡ false = ground (arith, p) in
      rw prefixed (rw long (rw (data5_of-chars_of groups g) (decode_groups_lem ts tail fs h l k)))

  -- If a text without its outer white space and in lower case is a prefix of two characters or more, the
  -- separator 1 and the characters of a timestamp of 7 groups, of at least one tagged field and of 110
  -- more groups, then `decode` returns the amount of the prefix, the timestamp and what the fields say
  -- one after another, or raises if none of them is a payment hash; the 110 groups do not matter.
  pub decode_roundtrip :
      (text : Text) (ts tail : List ℕ) (fs : List Field)
      → lower (strip text) ≡ hrp ++ b'1' ∷ chars_of ((ts ++ all_written fs) ++ tail)
      → 2 ≤ length hrp
      → length ts ≡ 7
      → length tail ≡ 110
      → 1 ≤ length fs
      → All IsGroup ts
      → All IsGroup tail
      → All IsField fs
      → decode utf8 text ≡ said ts fs
  unfolding decode
  decode_roundtrip text ts tail fs same p h l n gt gl k =
      let groups = (ts ++ all_written fs) ++ tail in
      let g =
        All-append IsGroup (ts ++ all_written fs) tail
          (All-append IsGroup ts (all_written fs) gt (all_written-IsGroup fs k)) gl in
      rw (same, decode)
        (rw (split_last-append b'1' hrp (chars_of groups) (split_last-chars_of groups g))
          (decode_parts_lem ts tail fs p h l n g k))
