-- ===== src/Mpp/Params.antt =====
-- `parse_payment_challenge` of src/routeweiler/rails/_mpp_http.py, with the pattern `_AUTH_PARAM_RE` as a
-- scanner. Texts are the codes of ASCII characters.
pub mod Written
pub mod ReadBack
use routeweiler_python_sdk.Prelude.{
  ℕ, zero, suc, Bool, true, false, Option, none, some, List, [], ◌∷◌, ◌&&◌, ◌||◌, not, leb, ◌==◌,
  length, if◌then◌else◌,
}
use routeweiler_python_sdk.Texts.{
  Text, codes, starts_with, drop_prefix, is_space, lower, strip, put,
}

abbrev pub is_letter : ℕ → Bool
is_letter c = (leb b'A' c && leb c b'Z') || (leb b'a' c && leb c b'z')

abbrev pub is_key_char : ℕ → Bool
is_key_char c = is_letter c || (leb b'0' c && leb c b'9') || c == b'-'

abbrev pub cons_first : ℕ → Text × Text → Text × Text
cons_first c (s, rest) = (c ∷ s, rest)

abbrev pub push : ℕ → Option (Text × Text) → Option (Text × Text)
push c none = none
push c (some (s, rest)) = some (c ∷ s, rest)

-- `[A-Za-z0-9\-]*` and `[^\s,]*`, with what stands behind.
unfoldable pub span : (ℕ → Bool) → Text → Text × Text
span p [] = ([], [])
span p (c ∷ s) = let more = cons_first c (span p s) in if p c then more else ([], c ∷ s)

abbrev pub before_equals : Text × Text → Option (Text × Text)
before_equals (key, []) = none
before_equals (key, c ∷ rest) = if c == b'=' then some (key, rest) else none

-- The key in front and its equals sign.
unfoldable pub key_at : Text → Option (Text × Text)
unfolding span
key_at [] = none
key_at (c ∷ s) =
    let key = before_equals (cons_first c (span is_key_char s)) in if is_letter c then key else none

-- `(?:[^"\\]|\\.)*"`; a dot is no newline.
unfoldable pub quoted_body : Text → Option (Text × Text)
quoted_body [] = none
quoted_body (c ∷ []) = if c == b'"' then some ([], []) else none
quoted_body (c ∷ d ∷ s) =
    let escape = push c (push d (quoted_body s)) in
    let kept = push c (quoted_body (d ∷ s)) in
    if c == b'"'
    then some ([], d ∷ s)
    else if c == b'\\'
    then (if d == b'\n' then none else escape)
    else kept

abbrev pub not_empty : Text × Text → Option (Text × Text)
not_empty ([], rest) = none
not_empty (c ∷ s, rest) = some (c ∷ s, rest)

-- `[^\s,]+`
unfoldable pub token : Text → Option (Text × Text)
unfolding span
token s = not_empty (span (λ c. not (is_space c || c == b',')) s)

abbrev pub or_token : Option (Text × Text) → Text → Option (Text × Text)
or_token (some found) s = some found
or_token none s = token s

-- Either group of a value.
unfoldable pub value_at : Text → Option (Text × Text)
unfolding quoted_body token
value_at [] = none
value_at (c ∷ s) = or_token (if c == b'"' then quoted_body s else none) (c ∷ s)

-- `finditer`: the pairs from here on; a match or a step takes a character, so the length is enough fuel.
unfoldable pub find_params : ℕ → Text → List (Text × Text)
unfolding key_at value_at
find_params zero s = []
find_params (suc fuel) [] = []
find_params (suc fuel) (c ∷ s) = elim (key_at (c ∷ s)) [
  | none ↦ find_params fuel s
  | some (key, behind) ↦ elim (value_at behind) [
    | none ↦ find_params fuel s
    | some (raw_value, rest) ↦ (key, raw_value) ∷ find_params fuel rest
  ]
]

-- `s.replace(ab, c)` for two characters.
unfoldable pub replace_two : ℕ → ℕ → ℕ → Text → Text
replace_two a b c [] = []
replace_two a b c (x ∷ []) = x ∷ []
replace_two a b c (x ∷ y ∷ s) =
    let found = c ∷ replace_two a b c s in
    let other = x ∷ replace_two a b c (y ∷ s) in if x == a && y == b then found else other

-- The two replacements of a value.
unfoldable pub unescaped : Text → Text
unfolding replace_two
unescaped raw_value = replace_two b'\\' b'\\' b'\\' (replace_two b'\\' b'"' b'"' raw_value)

-- The loop over the matches.
unfoldable pub collect : List (Text × Text) → List (Text × Text) → List (Text × Text)
unfolding lower unescaped put
collect [] result = result
collect ((key, raw_value) ∷ ms) result = collect ms (put (lower key) (unescaped raw_value) result)

-- `parse_payment_challenge`; `none` is ValueError.
unfoldable pub parse_payment_challenge : Text → Option (List (Text × Text))
unfolding strip lower starts_with drop_prefix find_params collect
parse_payment_challenge header_value =
    let stripped = strip header_value in
    let params = drop_prefix (codes "payment ") stripped in
    if starts_with (codes "payment ") (lower stripped)
    then some (collect (find_params (length params) params) [])
    else none
