-- ===== src/Mpp/Params/Written.antt =====
-- The values of quoted parameters: written with their escapes, they are read back.
use routeweiler_python_sdk.Prelude.{
  ℕ, ◌≡◌, refl, ap, ◌∙◌, inl, inr, false, some, [], ◌∷◌, ◌++◌, ◌==◌, arith, if◌then◌else◌,
  Bool-cases,
}
use routeweiler_python_sdk.Texts.{Text}
use routeweiler_python_sdk.Mpp.Params.{push, quoted_body, replace_two, unescaped}

-- A value between quotes, as RFC 9110 has it.
unfoldable pub escape : Text → Text
escape [] = []
escape (c ∷ v) =
    let rest = escape v in
    if c == b'\\' then b'\\' ∷ b'\\' ∷ rest else if c == b'"' then b'\\' ∷ b'"' ∷ rest else c ∷ rest

-- The same without the escapes of quotes.
unfoldable doubled : Text → Text
doubled [] = []
doubled (c ∷ v) = let rest = doubled v in if c == b'\\' then b'\\' ∷ b'\\' ∷ rest else c ∷ rest

replace_two_skip :
    (a b c x : ℕ) (s : Text)
    → (x == a) ≡ false
    → replace_two a b c (x ∷ s) ≡ x ∷ replace_two a b c s
unfolding replace_two
replace_two_skip a b c x [] h = refl
replace_two_skip a b c x (y ∷ s) h = rw h

-- A backslash before what is not a quote stays.
replace_two_slash :
    (v : Text)
    → replace_two b'\\' b'"' b'"' (b'\\' ∷ escape v)
      ≡ b'\\' ∷ replace_two b'\\' b'"' b'"' (escape v)
unfolding replace_two escape
replace_two_slash [] = refl
replace_two_slash (c ∷ v) = elim (Bool-cases (c == b'\\')) [
  | inl slash ↦ rw slash refl
  | inr h ↦ elim (Bool-cases (c == b'"')) [
    | inl quote ↦ rw (h, quote) refl
    | inr other ↦ rw (h, other) (rw other refl)
  ]
]

replace_two-escape : (v : Text) → replace_two b'\\' b'"' b'"' (escape v) ≡ doubled v
unfolding escape doubled
replace_two-escape [] = unfold replace_two in refl
replace_two-escape (c ∷ v) = elim (Bool-cases (c == b'\\')) [
  | inl slash ↦
      let same : c ≡ b'\\' = ground (arith, slash) in
      let first : replace_two b'\\' b'"' b'"' (b'\\' ∷ b'\\' ∷ escape v)
          ≡ b'\\' ∷ replace_two b'\\' b'"' b'"' (b'\\' ∷ escape v) =
        unfold replace_two in refl in
      rw same (
        first
        ∙ ap (λ t. b'\\' ∷ t) (replace_two_slash v ∙ ap (λ t. b'\\' ∷ t) (replace_two-escape v)))
  | inr h ↦ elim (Bool-cases (c == b'"')) [
    | inl quote ↦
        let same : c ≡ b'"' = ground (arith, quote) in
        let first : replace_two b'\\' b'"' b'"' (b'\\' ∷ b'"' ∷ escape v)
            ≡ b'"' ∷ replace_two b'\\' b'"' b'"' (escape v) =
          unfold replace_two in refl in
        rw same (first ∙ ap (λ t. b'"' ∷ t) (replace_two-escape v))
    | inr other ↦
        rw (h, other)
          (replace_two_skip b'\\' b'"' b'"' c (escape v) h ∙ ap (λ t. c ∷ t) (replace_two-escape v))
  ]
]

replace_two-doubled : (v : Text) → replace_two b'\\' b'\\' b'\\' (doubled v) ≡ v
unfolding doubled
replace_two-doubled [] = unfold replace_two in refl
replace_two-doubled (c ∷ v) = elim (Bool-cases (c == b'\\')) [
  | inl slash ↦
      let same : c ≡ b'\\' = ground (arith, slash) in
      let first : replace_two b'\\' b'\\' b'\\' (b'\\' ∷ b'\\' ∷ doubled v)
          ≡ b'\\' ∷ replace_two b'\\' b'\\' b'\\' (doubled v) =
        unfold replace_two in refl in
      rw same (first ∙ ap (λ t. b'\\' ∷ t) (replace_two-doubled v))
  | inr h ↦
      rw h (
        replace_two_skip b'\\' b'\\' b'\\' c (doubled v) h
        ∙ ap (λ t. c ∷ t) (replace_two-doubled v))
]

-- The two replacements, one after the other, undo the escapes of any value.
pub unescaped-escape : (v : Text) → unescaped (escape v) ≡ v
unfolding unescaped
unescaped-escape v = rw (replace_two-escape v) (replace_two-doubled v)

body_step :
    (c : ℕ) (s : Text)
    → (c == b'\\') ≡ false
    → (c == b'"') ≡ false
    → quoted_body (c ∷ s) ≡ push c (quoted_body s)
unfolding quoted_body
body_step c [] h k = rw k refl
body_step c (d ∷ s) h k = rw (k, h) refl

escape_step :
    (d : ℕ) (s : Text)
    → (d == b'\n') ≡ false
    → quoted_body (b'\\' ∷ d ∷ s) ≡ push b'\\' (push d (quoted_body s))
unfolding quoted_body
escape_step d s h = rw h

-- The pattern takes the value between its quotes as it was written.
pub quoted_body-escape :
    (v rest : Text) → quoted_body (escape v ++ b'"' ∷ rest) ≡ some (escape v, rest)
unfolding escape
quoted_body-escape [] [] = unfold quoted_body in refl
quoted_body-escape [] (d ∷ rest) = unfold quoted_body in refl
quoted_body-escape (c ∷ v) rest = elim (Bool-cases (c == b'\\')) [
  | inl slash ↦ rw slash (
      escape_step b'\\' (escape v ++ b'"' ∷ rest) refl
      ∙ ap (λ o. push b'\\' (push b'\\' o)) (quoted_body-escape v rest))
  | inr h ↦ elim (Bool-cases (c == b'"')) [
    | inl quote ↦
        rw (h, quote)
          (escape_step b'"' (escape v ++ b'"' ∷ rest) refl
            ∙ ap (λ o. push b'\\' (push b'"' o)) (quoted_body-escape v rest))
    | inr other ↦
        rw (h, other)
          (body_step c (escape v ++ b'"' ∷ rest) h other ∙ ap (push c) (quoted_body-escape v rest))
  ]
]
