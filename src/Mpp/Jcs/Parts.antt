-- ===== src/Mpp/Jcs/Parts.antt =====
-- The texts of numbers, lists and dicts, as the reader sees them.
use routeweiler_python_sdk.Prelude.{
  ℕ, zero, suc, ◌+◌, ◌*◌, ◌/◌, ◌%◌, ◌≤◌, ◌<◌, ◌⊎◌, ◌≡◌, refl, ap, ◌∙◌, inl, inr, Bool, true, false,
  some, [], ◌∷◌, ◌++◌, ltb, ◌==◌, arith, length, Bool-cases,
}
use routeweiler_python_sdk.Prelude.Int.{ℤ, pos, negsuc}
use routeweiler_python_sdk.Texts.{Text, codes}
use routeweiler_python_sdk.Mpp.Jcs.{
  Json, null, bool, int, str, digits_onto, decimal, quoted, bool_text,
}
use routeweiler_python_sdk.Mpp.Jcs.Strings.{read_string, read_string-quoted}
use routeweiler_python_sdk.Mpp.Jcs.Reader.{
  is_digit, read_digits, as_str, as_int, as_minus, read_value,
}

-- A number ends here.
abbrev pub Stops : Text → Type 0
Stops [] = Unit
Stops (c ∷ s) = is_digit c ≡ false

-- A text is read as a value, with enough fuel and any text behind it.
abbrev pub ReadsAs : Json → Text → Type 0
ReadsAs j t =
    (f : ℕ) (rest : Text) → length t ≤ f → Stops rest → read_value f (t ++ rest) ≡ some (j, rest)

read_digits-Stops : (n : ℕ) (s : Text) → Stops s → read_digits n s ≡ (n, s)
unfolding read_digits
read_digits-Stops n [] h = refl
read_digits-Stops n (c ∷ s) h = rw h

digit_is_digit : (n : ℕ) → is_digit (b'0' + n % 10) ≡ true
digit_is_digit n = ground arith

read_digit :
    (m n k : ℕ) (s : Text)
    → m * 10 + n % 10 ≡ k
    → read_digits m ((b'0' + n % 10) ∷ s) ≡ read_digits k s
unfolding read_digits
read_digit m n k s h = rw (digit_is_digit n) (ap (λ v. read_digits v s) (omega (arith, h)))

read_digits-digits_onto :
    (f n : ℕ) (s : Text) → n ≤ f → read_digits 0 (digits_onto f n s) ≡ read_digits n s
unfolding read_digits digits_onto
read_digits-digits_onto zero n s h = read_digit 0 n n s (omega (arith, h))
read_digits-digits_onto (suc f) n s h = elim (Bool-cases (ltb n 10)) [
  | inl small ↦ rw small (read_digit 0 n n s (ground (arith, small)))
  | inr large ↦ rw large (
      read_digits-digits_onto f (n / 10) _ (ground (arith, large, h))
      ∙ read_digit (n / 10) n n s (omega arith))
]

digits_onto-append : (f n : ℕ) (s r : Text) → digits_onto f n s ++ r ≡ digits_onto f n (s ++ r)
unfolding digits_onto
digits_onto-append zero n s r = refl
digits_onto-append (suc f) n s r =
    ground (arith, digits_onto-append f (n / 10) ((b'0' + n % 10) ∷ s) r)

digits_onto_head :
    (f n : ℕ) (s : Text) → (c : ℕ) × (t : Text) × (digits_onto f n s ≡ c ∷ t) × (is_digit c ≡ true)
unfolding digits_onto
digits_onto_head zero n s = (b'0' + n % 10, s, refl, ground arith)
digits_onto_head (suc f) n s = elim (Bool-cases (ltb n 10)) [
  | inl small ↦ rw small (b'0' + n % 10, s, refl, ground arith)
  | inr large ↦ rw large (digits_onto_head f (n / 10) ((b'0' + n % 10) ∷ s))
]

-- Numbers.
as_int-digits :
    (f n : ℕ) (rest : Text)
    → Stops rest
    → n ≤ f
    → read_digits 0 (digits_onto f n [] ++ rest) ≡ (n, rest)
as_int-digits f n rest stops h =
    rw (digits_onto-append f n [] rest)
      (read_digits-digits_onto f n rest h ∙ read_digits-Stops n rest stops)

not_digit : (c k : ℕ) → is_digit c ≡ true → (k < b'0') ⊎ (b'9' < k) → (c == k) ≡ false
not_digit c k h other = ground (arith, h, other)

-- Behind a first digit the reader reads a number.
read_value_digit :
    (f c : ℕ) (s : Text)
    → is_digit c ≡ true
    → read_value (suc f) (c ∷ s) ≡ as_int (read_digits 0 (c ∷ s))
unfolding read_value
read_value_digit f c s h = rw (
  not_digit c b'"' h (inl (omega arith)),
  not_digit c b'[' h (inr (omega arith)),
  not_digit c b'{' h (inr (omega arith)),
  not_digit c b'-' h (inl (omega arith)),
  h,
)

read_value_number :
    (f : ℕ) (s : Text)
    → 0 < f
    → ((c : ℕ) × (t : Text) × (s ≡ c ∷ t) × (is_digit c ≡ true))
    → read_value f s ≡ as_int (read_digits 0 s)
read_value_number zero s h head = absurd (omega (arith, h))
read_value_number (suc f) s h (c, t, same, digit) = rw same (read_value_digit f c t digit)

read_value_minus : (f : ℕ) (s : Text) → 0 < f → read_value f (b'-' ∷ s) ≡ as_minus (read_digits 0 s)
read_value_minus zero s h = absurd (omega (arith, h))
read_value_minus (suc f) s h = unfold read_value in refl

digits_onto-pos : (n : ℕ) → 0 < length (digits_onto n n [])
digits_onto-pos n = let (c, t, same, _) = digits_onto_head n n [] in rw same (omega arith)

pub decimal-ReadsAs : (n : ℤ) → ReadsAs (int n) (decimal n)
decimal-ReadsAs (pos n) f rest h stops =
    let shown : decimal (pos n) ≡ digits_onto n n [] = unfold decimal in refl in
    let room : 0 < f = omega (arith, digits_onto-pos n, ap length shown, h) in
    rw (shown, digits_onto-append n n [] rest)
      (read_value_number f (digits_onto n n rest) room (digits_onto_head n n rest)
        ∙ ap as_int
            (rw (digits_onto-append n n [] rest) at (as_int-digits n n rest stops (omega arith))))
decimal-ReadsAs (negsuc n) f rest h stops =
    let shown : decimal (negsuc n) ≡ b'-' ∷ digits_onto (suc n) (suc n) [] =
      unfold decimal in refl in
    let room : 0 < f = omega (arith, ap length shown, h) in
    rw shown (
      read_value_minus f (digits_onto (suc n) (suc n) [] ++ rest) room
      ∙ ap as_minus (as_int-digits (suc n) (suc n) rest stops (omega arith)))

read_value_quote :
    (f : ℕ) (s : Text) → 0 < f → read_value f (b'"' ∷ s) ≡ as_str (read_string (b'"' ∷ s))
read_value_quote zero s h = absurd (omega (arith, h))
read_value_quote (suc f) s h = unfold read_value in refl

pub quoted_head : (s : Text) → (t : Text) × (quoted s ≡ b'"' ∷ t)
unfolding quoted
quoted_head s = (_, refl)

pub quoted-ReadsAs : (s : Text) → ReadsAs (str s) (quoted s)
quoted-ReadsAs s f rest h stops =
    let (t, head) = quoted_head s in
    let room : 0 < f = omega (arith, ap length head, h) in
    rw head
      (read_value_quote f (t ++ rest) room ∙ ap as_str (rw head at (read_string-quoted s rest)))

-- The words.
pub null-ReadsAs : ReadsAs null (codes "null")
unfolding read_value
null-ReadsAs zero rest h stops = absurd (omega (arith, h))
null-ReadsAs (suc f) rest h stops = refl

pub bool_text-ReadsAs : (b : Bool) → ReadsAs (bool b) (bool_text b)
unfolding read_value
bool_text-ReadsAs true zero rest h stops = absurd (omega (arith, h))
bool_text-ReadsAs false zero rest h stops = absurd (omega (arith, h))
bool_text-ReadsAs true (suc f) rest h stops = refl
bool_text-ReadsAs false (suc f) rest h stops = refl
