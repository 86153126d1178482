-- ===== src/Mpp/Jcs/Strings.antt =====
-- The strings that `_jcs_serialize` writes: the chain of replacements is one pass over the characters, and
-- a reader of JSON strings, which is no part of the program, reads them back.
use mathlib.Core.List.{append_assoc}
use routeweiler_python_sdk.Prelude.{
  ℕ, zero, suc, ◌+◌, ◌*◌, ◌/◌, ◌%◌, ◌<◌, ◌≡◌, refl, ap, ◌∙◌, inl, inr, true, false, Option, none,
  some, [], ◌∷◌, ◌++◌, ltb, ◌==◌, arith, if◌then◌else◌, Bool-cases,
}
use routeweiler_python_sdk.Bytes.Hex.{hex_digit, digit_value, hex_digit_value}
use routeweiler_python_sdk.Texts.{Text, codes}
use routeweiler_python_sdk.Mpp.Jcs.{replace, escaped, unicode_escape, control_escaped, quoted}

-- RFC 8785: the escape of one character.
abbrev pub escape_char : ℕ → Text
escape_char c =
    if c == b'\\'
    then codes "\\\\"
    else if c == b'"'
    then codes "\\\""
    else if c == 8
    then codes "\\b"
    else if c == 12
    then codes "\\f"
    else if c == b'\n'
    then codes "\\n"
    else if c == b'\r'
    then codes "\\r"
    else if c == b'\t'
    then codes "\\t"
    else if ltb c 0x20
    then unicode_escape c
    else c ∷ []

unfoldable pub escape_all : Text → Text
escape_all [] = []
escape_all (c ∷ s) = escape_char c ++ escape_all s

replace-append : (c : ℕ) (t s u : Text) → replace c t (s ++ u) ≡ replace c t s ++ replace c t u
unfolding replace
replace-append c t [] u = refl
replace-append c t (d ∷ s) u = elim (Bool-cases (d == c)) [
  | inl here ↦ rw (here, replace-append c t s u, append_assoc t)
  | inr other ↦ rw (other, replace-append c t s u)
]

control_escaped-append :
    (s u : Text) → control_escaped (s ++ u) ≡ control_escaped s ++ control_escaped u
unfolding control_escaped
control_escaped-append [] u = refl
control_escaped-append (c ∷ s) u = elim (Bool-cases (ltb c 0x20)) [
  | inl low ↦ rw (low, control_escaped-append s u)
  | inr high ↦ rw (high, control_escaped-append s u)
]

escaped-append : (s u : Text) → escaped (s ++ u) ≡ escaped s ++ escaped u
unfolding escaped
escaped-append s u = rw replace-append (
    rw replace-append (
      rw replace-append
        (rw replace-append (rw replace-append (rw replace-append (rw replace-append))))))

escaped_char : (c : ℕ) → control_escaped (escaped (c ∷ [])) ≡ escape_char c
unfolding escaped control_escaped replace
escaped_char c = ground arith

-- The seven replacements and the loop behind them come to one pass that escapes each character as
-- RFC 8785 has it.
pub control_escaped-escaped : (s : Text) → control_escaped (escaped s) ≡ escape_all s
control_escaped-escaped [] = unfold escaped replace control_escaped escape_all in refl
control_escaped-escaped (c ∷ s) =
    rw
      (
        escaped-append (c ∷ []) s,
        control_escaped-append (escaped (c ∷ [])) (escaped s),
        escaped_char c,
        control_escaped-escaped s,
      )
      (unfold escape_all in refl)

-- A reader of JSON strings: between characters, behind a backslash, or before so many digits of a
-- number.
pub data Mode : Type 0 where
  plain escape : Mode
  hex : ℕ → ℕ → Mode

abbrev pub simple_escape : ℕ → Option ℕ
simple_escape c =
    if c == b'"'
    then some b'"'
    else if c == b'\\'
    then some b'\\'
    else if c == b'/'
    then some b'/'
    else if c == b'b'
    then some 8
    else if c == b'f'
    then some 12
    else if c == b'n'
    then some b'\n'
    else if c == b'r'
    then some b'\r'
    else if c == b't'
    then some b'\t'
    else none

abbrev pub push : ℕ → Option (Text × Text) → Option (Text × Text)
push c none = none
push c (some (s, rest)) = some (c ∷ s, rest)

abbrev pub digit_read : ℕ → ℕ → ℕ → (Mode → Option (Text × Text)) → Option (Text × Text)
digit_read zero acc d go = push (acc * 16 + d) (go plain)
digit_read (suc n) acc d go = go (hex n (acc * 16 + d))

unfoldable pub read_chars : Mode → Text → Option (Text × Text)
read_chars m [] = none
read_chars plain (c ∷ s) =
    let behind = read_chars escape s in
    let kept = push c (read_chars plain s) in
    if c == b'"'
    then some ([], s)
    else if c == b'\\'
    then behind
    else if ltb c 0x20
    then none
    else kept
read_chars escape (c ∷ s) =
    let number = read_chars (hex 3 0) s in
    let simple : Option (Text × Text) = elim (simple_escape c) [
      | none ↦ none
      | some d ↦ push d (read_chars plain s)
    ] in
    if c == b'u' then number else simple
read_chars (hex n acc) (c ∷ s) = elim (digit_value c) [
  | none ↦ none
  | some d ↦ digit_read n acc d (λ m. read_chars m s)
]

unfoldable pub read_string : Text → Option (Text × Text)
unfolding read_chars
read_string [] = none
read_string (c ∷ s) = if c == b'"' then read_chars plain s else none

read_hex :
    (n acc d : ℕ) (s : Text)
    → d < 16
    → read_chars (hex n acc) (hex_digit d ∷ s) ≡ digit_read n acc d (λ m. read_chars m s)
unfolding read_chars
read_hex n acc d s h = rw (hex_digit_value d h, read_chars)

read_unicode :
    (c : ℕ) (s : Text)
    → c < 0x20
    → read_chars plain (unicode_escape c ++ s) ≡ push c (read_chars plain s)
read_unicode c s h =
    let whole : (0 * 16 + c / 16) * 16 + c % 16 ≡ c = omega arith in
    let start : read_chars plain (unicode_escape c ++ s)
        ≡ read_chars (hex 1 0) (hex_digit (c / 16) ∷ hex_digit (c % 16) ∷ s) =
      unfold read_chars in refl in
    start
    ∙ read_hex 1 0 (c / 16) (hex_digit (c % 16) ∷ s) (omega (arith, h))
    ∙ read_hex 0 (0 * 16 + c / 16) (c % 16) s (omega arith)
    ∙ ap (λ v. push v (read_chars plain s)) whole

-- A character that is escaped by a letter.
read_simple :
    (c d e : ℕ) (s : Text)
    → (c == d) ≡ true
    → read_chars plain (b'\\' ∷ e ∷ s) ≡ push d (read_chars plain s)
    → read_chars plain (b'\\' ∷ e ∷ s) ≡ push c (read_chars plain s)
read_simple c d e s h k = let same : c ≡ d = ground (arith, h) in rw same k

read_kept :
    (c : ℕ) (s : Text)
    → (c == b'\\') ≡ false
    → (c == b'"') ≡ false
    → ltb c 0x20 ≡ false
    → read_chars plain (c ∷ s) ≡ push c (read_chars plain s)
unfolding read_chars
read_kept c s no_slash no_quote high = rw (no_quote, no_slash, high)

abbrev below_quote : ℕ → Text
below_quote c =
    if c == 8
    then codes "\\b"
    else if c == 12
    then codes "\\f"
    else if c == b'\n'
    then codes "\\n"
    else if c == b'\r'
    then codes "\\r"
    else if c == b'\t'
    then codes "\\t"
    else if ltb c 0x20
    then unicode_escape c
    else c ∷ []

read_other :
    (c : ℕ) (s : Text)
    → (c == b'\\') ≡ false
    → (c == b'"') ≡ false
    → read_chars plain (below_quote c ++ s) ≡ push c (read_chars plain s)
read_other c s no_slash no_quote = elim (Bool-cases (c == 8)) [
  | inl h ↦ rw h (read_simple c 8 b'b' s h (unfold read_chars in refl))
  | inr h₁ ↦ rw h₁ (elim (Bool-cases (c == 12)) [
    | inl h ↦ rw h (read_simple c 12 b'f' s h (unfold read_chars in refl))
    | inr h₂ ↦ rw h₂ (elim (Bool-cases (c == b'\n')) [
      | inl h ↦ rw h (read_simple c b'\n' b'n' s h (unfold read_chars in refl))
      | inr h₃ ↦ rw h₃ (elim (Bool-cases (c == b'\r')) [
        | inl h ↦ rw h (read_simple c b'\r' b'r' s h (unfold read_chars in refl))
        | inr h₄ ↦ rw h₄ (elim (Bool-cases (c == b'\t')) [
          | inl h ↦ rw h (read_simple c b'\t' b't' s h (unfold read_chars in refl))
          | inr h₅ ↦ rw h₅ (elim (Bool-cases (ltb c 0x20)) [
            | inl low ↦ rw low (read_unicode c s (ground (arith, low)))
            | inr high ↦ rw high (read_kept c s no_slash no_quote high)
          ])
        ])
      ])
    ])
  ])
]

read_escape_char :
    (c : ℕ) (s : Text) → read_chars plain (escape_char c ++ s) ≡ push c (read_chars plain s)
read_escape_char c s = elim (Bool-cases (c == b'\\')) [
  | inl h ↦ rw h (read_simple c b'\\' b'\\' s h (unfold read_chars in refl))
  | inr h₁ ↦ rw h₁ (elim (Bool-cases (c == b'"')) [
    | inl h ↦ rw h (read_simple c b'"' b'"' s h (unfold read_chars in refl))
    | inr h₂ ↦ rw h₂ (read_other c s h₁ h₂)
  ])
]

read_escape_all : (s rest : Text) → read_chars plain (escape_all s ++ b'"' ∷ rest) ≡ some (s, rest)
unfolding escape_all
read_escape_all [] rest = unfold read_chars in refl
read_escape_all (c ∷ s) rest =
    rw append_assoc
      (read_escape_char c (escape_all s ++ b'"' ∷ rest) ∙ ap (push c) (read_escape_all s rest))

-- What is written of a string is read back, with any text behind it.
pub read_string-quoted : (s rest : Text) → read_string (quoted s ++ rest) ≡ some (s, rest)
unfolding read_string quoted
read_string-quoted s rest = rw (control_escaped-escaped s, append_assoc) (read_escape_all s rest)
