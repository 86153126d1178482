-- ===== src/Bolt11/Fields.antt =====
-- The tagged fields of an invoice, as they are written and as the loop reads them.
use routeweiler_python_sdk.Prelude.{
  ℕ, zero, suc, ◌*◌, ◌/◌, ◌%◌, ◌≤◌, ◌<◌, ◌≡◌, refl, ap, ◌∙◌, false, List, [], ◌∷◌, ◌++◌, ltb,
  length, length-append, take, drop, take-append, drop-append, All, All-append, arith,
}
use routeweiler_python_sdk.Bytes.{Bytes}
use routeweiler_python_sdk.Texts.{Text}
use routeweiler_python_sdk.Bolt11.{
  to_bits, bits_from, bits_to_int, TaggedFields, with_field, tagged_fields,
}

-- A field: its tag and its groups of five bits.
pub record Field : Type 0 where
  pub tag : ℕ
  pub groups : List ℕ

abbrev pub IsGroup : ℕ → Type 0
IsGroup v = v < 32

-- A tag of five bits and a length of ten.
abbrev pub IsField : Field → Type 0
IsField f = (f.tag < 32) × (length f.groups < 1024) × All IsGroup f.groups

-- The tag, the length in two groups and the value.
abbrev pub written : Field → List ℕ
written f = f.tag ∷ length f.groups / 32 ∷ length f.groups % 32 ∷ f.groups

abbrev pub all_written : List Field → List ℕ
all_written [] = []
all_written (f ∷ fs) = written f ++ all_written fs

-- What the fields say, later ones last.
abbrev pub collected : (Bytes → Text) → List Field → TaggedFields → TaggedFields
collected utf8 [] r = r
collected utf8 (f ∷ fs) r =
    collected utf8 fs (with_field utf8 f.tag (length f.groups) (to_bits f.groups) r)

pub length-to_bits : (vs : List ℕ) → length (to_bits vs) ≡ length vs * 5
unfolding to_bits
length-to_bits [] = refl
length-to_bits (v ∷ vs) = omega (arith, length-to_bits vs)

pub to_bits-append : (vs ws : List ℕ) → to_bits (vs ++ ws) ≡ to_bits vs ++ to_bits ws
unfolding to_bits
to_bits-append [] ws = refl
to_bits-append (v ∷ vs) ws = rw (to_bits-append vs ws) refl

tag-read : (v : ℕ) (vs rest : List ℕ) → v < 32 → bits_to_int (take 5 (to_bits (v ∷ vs) ++ rest)) ≡ v
unfolding to_bits bits_from
tag-read v vs rest h = omega (arith, h)

length-read :
    (a n : ℕ) (vs rest : List ℕ)
    → n < 1024
    → bits_to_int (take 10 (drop 5 (to_bits (a ∷ n / 32 ∷ n % 32 ∷ vs) ++ rest))) ≡ n
unfolding to_bits bits_from
length-read a n vs rest h = omega (arith, h)

taken :
    (f : Field) (rest : List ℕ)
    → take (length f.groups * 5) (drop 15 (to_bits (written f) ++ rest)) ≡ to_bits f.groups
unfolding to_bits
taken f rest = rw (← length-to_bits f.groups) (take-append (to_bits f.groups) rest)

dropped :
    (f : Field) (rest : List ℕ)
    → drop (length f.groups * 5) (drop 15 (to_bits (written f) ++ rest)) ≡ rest
unfolding to_bits
dropped f rest = rw (← length-to_bits f.groups) (drop-append (to_bits f.groups) rest)

long : (f : Field) (rest : List ℕ) → ltb (length (to_bits (written f) ++ rest)) 15 ≡ false
unfolding to_bits
long f rest = ground arith

module _ (utf8 : Bytes → Text) where
  turn_lem :
      (fuel : ℕ) (bits rest value : List ℕ) (r : TaggedFields) (t n : ℕ)
      → bits_to_int (take 5 bits) ≡ t
      → bits_to_int (take 10 (drop 5 bits)) ≡ n
      → take (n * 5) (drop 15 bits) ≡ value
      → drop (n * 5) (drop 15 bits) ≡ rest
      → ltb (length bits) 15 ≡ false
      → ltb (length value) (n * 5) ≡ false
      → tagged_fields utf8 (suc fuel) bits r
        ≡ tagged_fields utf8 fuel rest (with_field utf8 t n value r)
  unfolding tagged_fields
  turn_lem fuel bits rest value r t n tag len taken dropped long whole =
      rw (long, tagged_fields) (rw len (rw tag (rw taken (rw whole (rw dropped refl)))))

  -- One turn of the loop reads one field.
  field-read :
      (fuel : ℕ) (f : Field) (rest : List ℕ) (r : TaggedFields)
      → IsField f
      → tagged_fields utf8 (suc fuel) (to_bits (written f) ++ rest) r
        ≡ tagged_fields utf8 fuel rest
            (with_field utf8 f.tag (length f.groups) (to_bits f.groups) r)
  field-read fuel f rest r (ht, hl, hg) =
      let value = to_bits f.groups in
      let width = length-to_bits f.groups in
      turn_lem fuel (to_bits (written f) ++ rest) rest value r f.tag (length f.groups)
        (tag-read f.tag _ rest ht) (length-read f.tag (length f.groups) f.groups rest hl)
        (taken f rest) (dropped f rest) (long f rest) (ground (arith, width))

  tagged_fields-nil : (fuel : ℕ) (r : TaggedFields) → tagged_fields utf8 fuel [] r ≡ r
  unfolding tagged_fields
  tagged_fields-nil zero r = refl
  tagged_fields-nil (suc fuel) r = refl

  -- Enough turns read all fields.
  pub fields-read :
      (fuel : ℕ) (fs : List Field) (r : TaggedFields)
      → All IsField fs
      → length fs ≤ fuel
      → tagged_fields utf8 fuel (to_bits (all_written fs)) r ≡ collected utf8 fs r
  unfolding to_bits
  fields-read fuel [] r h le = tagged_fields-nil fuel r
  fields-read zero (f ∷ fs) r h le = absurd (omega (arith, le))
  fields-read (suc fuel) (f ∷ fs) r h le =
      ap (λ bits. tagged_fields utf8 (suc fuel) bits r)
        (to_bits-append (written f) (all_written fs))
      ∙ field-read fuel f (to_bits (all_written fs)) r h.0
      ∙ fields-read fuel fs (with_field utf8 f.tag (length f.groups) (to_bits f.groups) r) h.1
          (omega (arith, le))

-- Each field takes three groups or more.
pub length-all_written : (fs : List Field) → length fs ≤ length (all_written fs)
length-all_written [] = omega arith
length-all_written (f ∷ fs) =
    omega (arith, length-all_written fs, length-append (written f) (all_written fs))

-- The groups of fields are groups.
pub all_written-IsGroup : (fs : List Field) → All IsField fs → All IsGroup (all_written fs)
all_written-IsGroup [] h = tt
all_written-IsGroup (f ∷ fs) ((ht, hl, hg), more) =
    All-append IsGroup (written f) (all_written fs) (ht, (omega (arith, hl), (omega arith, hg)))
      (all_written-IsGroup fs more)
