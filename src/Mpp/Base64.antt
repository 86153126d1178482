-- ===== src/Mpp/Base64.antt =====
-- `b64url_encode` and `b64url_decode` of src/routeweiler/rails/_mpp_http.py, over Python's base64.
use routeweiler_python_sdk.Prelude.{
  ℕ, suc, ◌+◌, ◌-◌, ◌*◌, ◌/◌, ◌%◌, ◌<◌, ◌≡◌, refl, ap, Bool, true, false, Option, none, some, [],
  ◌∷◌, ◌++◌, ◌&&◌, ◌||◌, ltb, leb, ◌==◌, length, All, arith, if◌then◌else◌,
}
use routeweiler_python_sdk.Bytes.{Bytes, IsByte}
use routeweiler_python_sdk.Bytes.Hex.{repeat}
use routeweiler_python_sdk.Texts.{Text, prepend}

-- The alphabet of `urlsafe_b64encode`.
abbrev pub char_of : ℕ → ℕ
char_of v =
    if ltb v 26
    then b'A' + v
    else if ltb v 52
    then b'a' + (v - 26)
    else if ltb v 62
    then b'0' + (v - 52)
    else if v == 62
    then b'-'
    else b'_'

-- `base64.urlsafe_b64encode`
unfoldable pub urlsafe_b64encode : Bytes → Text
urlsafe_b64encode [] = []
urlsafe_b64encode (a ∷ []) = char_of (a / 4) ∷ char_of (a % 4 * 16) ∷ b'=' ∷ b'=' ∷ []
urlsafe_b64encode (a ∷ b ∷ []) =
    char_of (a / 4) ∷ char_of (a % 4 * 16 + b / 16) ∷ char_of (b % 16 * 4) ∷ b'=' ∷ []
urlsafe_b64encode (a ∷ b ∷ c ∷ bs) =
    char_of (a / 4)
    ∷ char_of (a % 4 * 16 + b / 16)
    ∷ char_of (b % 16 * 4 + c / 64)
    ∷ char_of (c % 64)
    ∷ urlsafe_b64encode bs

abbrev pub unless_pad : ℕ → Text → Text
unless_pad c [] = if c == b'=' then [] else c ∷ []
unless_pad c (d ∷ s) = c ∷ d ∷ s

-- `data.rstrip(b"=")`
unfoldable pub rstrip_pad : Text → Text
rstrip_pad [] = []
rstrip_pad (c ∷ s) = unless_pad c (rstrip_pad s)

-- `b64url_encode`
unfoldable pub b64url_encode : Bytes → Text
unfolding urlsafe_b64encode rstrip_pad
b64url_encode bs = rstrip_pad (urlsafe_b64encode bs)

-- The table of `b64decode`, after `-` and `_` are translated to `+` and `/`.
abbrev pub value_of : ℕ → Option ℕ
value_of c =
    if leb b'A' c && leb c b'Z'
    then some (c - b'A')
    else if leb b'a' c && leb c b'z'
    then some (c - b'a' + 26)
    else if leb b'0' c && leb c b'9'
    then some (c - b'0' + 52)
    else if c == b'-' || c == b'+'
    then some 62
    else if c == b'_' || c == b'/'
    then some 63
    else none

-- How far a group of four characters has been read, with the bits that are left.
pub data Quad : Type 0 where
  first : Quad
  second third fourth : ℕ → Quad

-- A character of the alphabet, with what the rest gives.
abbrev pub next : Quad → ℕ → Quad
next first v = second v
next (second left) v = third (v % 16)
next (third left) v = fourth (v % 4)
next (fourth left) v = first

abbrev pub emit : Quad → ℕ → Option Bytes → Option Bytes
emit first v rest = rest
emit (second left) v rest = prepend (left * 4 + v / 16) rest
emit (third left) v rest = prepend (left * 16 + v / 4) rest
emit (fourth left) v rest = prepend (left * 64 + v) rest

-- Whether one more pad, after `pads` before it, ends the text.
abbrev pub is_done : Quad → ℕ → Bool
is_done first pads = false
is_done (second left) pads = false
is_done (third left) pads = leb 1 pads
is_done (fourth left) pads = true

abbrev pub count_pad : Quad → ℕ → ℕ
count_pad (third left) pads = suc pads
count_pad (fourth left) pads = suc pads
count_pad _ pads = pads

abbrev pub at_end : Quad → Option Bytes
at_end first = some []
at_end _ = none

-- `binascii.a2b_base64`, which skips what is not in the alphabet; `none` is binascii.Error.
unfoldable pub a2b_base64 : Quad → ℕ → Text → Option Bytes
a2b_base64 q pads [] = at_end q
a2b_base64 q pads (c ∷ s) =
    let padded = a2b_base64 q (count_pad q pads) s in
    let read : Option Bytes = elim (value_of c) [
      | none ↦ a2b_base64 q pads s
      | some v ↦ emit q v (a2b_base64 (next q v) 0 s)
    ] in
    if c == b'=' then if is_done q pads then some [] else padded else read

abbrev pub is_ascii : Text → Bool
is_ascii [] = true
is_ascii (c ∷ s) = ltb c 128 && is_ascii s

-- `pad = 4 - len(s) % 4`, where that is not 4.
abbrev pub pad_of : ℕ → ℕ
pad_of n = if 4 - n % 4 == 4 then 0 else 4 - n % 4

-- `b64url_decode`; `none` is ValueError or its binascii.Error.
unfoldable pub b64url_decode : Text → Option Bytes
unfolding a2b_base64 repeat
b64url_decode s =
    if is_ascii s then a2b_base64 first 0 (s ++ repeat (pad_of (length s)) b'=') else none

char_of_read :
    (v : ℕ)
    → v < 64
    → (value_of (char_of v) ≡ some v) × (char_of v == b'=' ≡ false) × (ltb (char_of v) 128 ≡ true)
char_of_read v h = ground (arith, h)

-- One character of the alphabet.
read_char :
    (q : Quad) (pads v : ℕ) (s : Text)
    → v < 64
    → a2b_base64 q pads (char_of v ∷ s) ≡ emit q v (a2b_base64 (next q v) 0 s)
unfolding a2b_base64
read_char q pads v s h = let (at, plain, _) = char_of_read v h in rw (at, plain)

-- What is left of the encoding without its padding.
abbrev plain : Bytes → Text
plain [] = []
plain (a ∷ []) = char_of (a / 4) ∷ char_of (a % 4 * 16) ∷ []
plain (a ∷ b ∷ []) = char_of (a / 4) ∷ char_of (a % 4 * 16 + b / 16) ∷ char_of (b % 16 * 4) ∷ []
plain (a ∷ b ∷ c ∷ bs) =
    char_of (a / 4)
    ∷ char_of (a % 4 * 16 + b / 16)
    ∷ char_of (b % 16 * 4 + c / 64)
    ∷ char_of (c % 64)
    ∷ plain bs

kept : (v : ℕ) (s : Text) → v < 64 → unless_pad (char_of v) s ≡ char_of v ∷ s
kept v [] h = rw (char_of_read v h).1
kept v (c ∷ s) h = refl

rstrip_pad-plain : (bs : Bytes) → All IsByte bs → rstrip_pad (urlsafe_b64encode bs) ≡ plain bs
unfolding rstrip_pad urlsafe_b64encode
rstrip_pad-plain [] h = refl
rstrip_pad-plain (a ∷ []) h =
    rw (kept (a % 4 * 16) [] (omega arith)) (kept (a / 4) _ (omega (arith, h.0)))
rstrip_pad-plain (a ∷ b ∷ []) h = rw (kept (b % 16 * 4) [] (omega arith)) refl
rstrip_pad-plain (a ∷ b ∷ c ∷ bs) h =
    rw (rstrip_pad-plain bs h.1.1.1, kept (c % 64) (plain bs) (omega arith)) refl

plain-is_ascii : (bs : Bytes) → All IsByte bs → is_ascii (plain bs) ≡ true
plain-is_ascii [] h = refl
plain-is_ascii (a ∷ []) h =
    rw ((char_of_read (a / 4) (omega (arith, h.0))).2, (char_of_read (a % 4 * 16) (omega arith)).2)
plain-is_ascii (a ∷ b ∷ []) h = rw (
  (char_of_read (a / 4) (omega (arith, h.0))).2,
  (char_of_read (a % 4 * 16 + b / 16) (omega (arith, h.1.0))).2,
  (char_of_read (b % 16 * 4) (omega arith)).2,
)
plain-is_ascii (a ∷ b ∷ c ∷ bs) h =
    rw
      (
        (char_of_read (a / 4) (omega (arith, h.0))).2,
        (char_of_read (a % 4 * 16 + b / 16) (omega (arith, h.1.0))).2,
        (char_of_read (b % 16 * 4 + c / 64) (omega (arith, h.1.1.0))).2,
        (char_of_read (c % 64) (omega arith)).2,
      )
      (plain-is_ascii bs h.1.1.1)

pad_of_four : (n : ℕ) → pad_of (suc (suc (suc (suc n)))) ≡ pad_of n
pad_of_four n = ground arith

three :
    {a b c x y z : ℕ} {rest : Option Bytes} {bs : Bytes}
    → x ≡ a
    → y ≡ b
    → z ≡ c
    → rest ≡ some bs
    → prepend x (prepend y (prepend z rest)) ≡ some (a ∷ b ∷ c ∷ bs)
three p q r e = rw (e, p, q, r) refl

a2b_base64-plain :
    (bs : Bytes)
    → All IsByte bs
    → a2b_base64 first 0 (plain bs ++ repeat (pad_of (length (plain bs))) b'=') ≡ some bs
unfolding repeat
a2b_base64-plain [] h = unfold a2b_base64 in refl
a2b_base64-plain (a ∷ []) h =
    rw
      (
        read_char first 0 (a / 4) (char_of (a % 4 * 16) ∷ b'=' ∷ b'=' ∷ []) (omega (arith, h.0)),
        read_char (second (a / 4)) 0 (a % 4 * 16) (b'=' ∷ b'=' ∷ []) (omega arith),
      )
      (unfold a2b_base64 in ap (λ (v : ℕ). some (v ∷ [])) (omega (arith, h.0)))
a2b_base64-plain (a ∷ b ∷ []) h =
    rw
      (
        read_char first 0 (a / 4) (char_of (a % 4 * 16 + b / 16) ∷ char_of (b % 16 * 4) ∷ b'=' ∷ [])
            (omega (arith, h.0)),
        read_char (second (a / 4)) 0 (a % 4 * 16 + b / 16) (char_of (b % 16 * 4) ∷ b'=' ∷ [])
            (omega (arith, h.1.0)),
        read_char (third ((a % 4 * 16 + b / 16) % 16)) 0 (b % 16 * 4) (b'=' ∷ []) (omega arith),
      )
      (unfold a2b_base64 in
        let p : a / 4 * 4 + (a % 4 * 16 + b / 16) / 16 ≡ a = omega (arith, h.0, h.1.0) in
        let q : (a % 4 * 16 + b / 16) % 16 * 16 + b % 16 * 4 / 4 ≡ b = omega (arith, h.1.0) in cc)
a2b_base64-plain (a ∷ b ∷ c ∷ bs) h =
    let tail = plain bs ++ repeat (pad_of (length (plain bs))) b'=' in
    rw
      (
        pad_of_four (length (plain bs)),
        read_char first 0 (a / 4)
            (char_of (a % 4 * 16 + b / 16)
              ∷ char_of (b % 16 * 4 + c / 64)
              ∷ char_of (c % 64)
              ∷ tail)
            (omega (arith, h.0)),
        read_char (second (a / 4)) 0 (a % 4 * 16 + b / 16)
            (char_of (b % 16 * 4 + c / 64) ∷ char_of (c % 64) ∷ tail) (omega (arith, h.1.0)),
        read_char (third ((a % 4 * 16 + b / 16) % 16)) 0 (b % 16 * 4 + c / 64)
            (char_of (c % 64) ∷ tail) (omega (arith, h.1.1.0)),
        read_char (fourth ((b % 16 * 4 + c / 64) % 4)) 0 (c % 64) tail (omega arith),
      )
      (three (omega (arith, h.0, h.1.0)) (omega (arith, h.1.0, h.1.1.0)) (omega (arith, h.1.1.0))
        (a2b_base64-plain bs h.1.1.1))

-- What `b64url_encode` writes of any bytes, `b64url_decode` reads back.
pub b64url_decode-encode : (bs : Bytes) → All IsByte bs → b64url_decode (b64url_encode bs) ≡ some bs
unfolding b64url_decode b64url_encode
b64url_decode-encode bs h = rw (rstrip_pad-plain bs h, plain-is_ascii bs h) (a2b_base64-plain bs h)
