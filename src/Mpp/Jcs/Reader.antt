-- ===== src/Mpp/Jcs/Reader.antt =====
-- A reader of JSON without blanks and fractions, which is no part of the program. The fuel is the length
-- of the text: each call but the first has read a character.
use routeweiler_python_sdk.Prelude.{
  ℕ, zero, suc, ◌+◌, ◌-◌, ◌*◌, Bool, true, false, Option, none, some, [], ◌∷◌, ◌&&◌, leb, ◌==◌,
  length, if◌then◌else◌,
}
use routeweiler_python_sdk.Prelude.Int.{ℤ, pos, negsuc}
use routeweiler_python_sdk.Texts.{Text, codes}
use routeweiler_python_sdk.Mpp.Jcs.{
  Json, Items, Members, null, bool, int, str, arr, dict, nil, cons, end, member,
}
use routeweiler_python_sdk.Mpp.Jcs.Strings.{read_string}

abbrev pub is_digit : ℕ → Bool
is_digit c = leb b'0' c && leb c b'9'

-- The digits in front, with the number so far.
unfoldable pub read_digits : ℕ → Text → ℕ × Text
read_digits n [] = (n, [])
read_digits n (c ∷ s) =
    let more = read_digits (n * 10 + (c - b'0')) s in if is_digit c then more else (n, c ∷ s)

-- `-n`
abbrev pub minus : ℕ → ℤ
minus zero = pos 0
minus (suc n) = negsuc n

-- A word, and what stands behind it.
unfoldable pub after : Text → Text → Option Text
after [] s = some s
after (c ∷ w) [] = none
after (c ∷ w) (d ∷ s) = let rest = after w s in if c == d then rest else none

abbrev pub word : Json → Option Text → Option (Json × Text)
word j none = none
word j (some rest) = some (j, rest)

abbrev pub as_str : Option (Text × Text) → Option (Json × Text)
as_str none = none
as_str (some (s, rest)) = some (str s, rest)

abbrev pub as_arr : Option (Items × Text) → Option (Json × Text)
as_arr none = none
as_arr (some (xs, rest)) = some (arr xs, rest)

abbrev pub as_dict : Option (Members × Text) → Option (Json × Text)
as_dict none = none
as_dict (some (ms, rest)) = some (dict ms, rest)

abbrev pub as_int : ℕ × Text → Option (Json × Text)
as_int (n, rest) = some (int (pos n), rest)

abbrev pub as_minus : ℕ × Text → Option (Json × Text)
as_minus (n, rest) = some (int (minus n), rest)

abbrev pub more_items : Json → Option (Items × Text) → Option (Items × Text)
more_items x none = none
more_items x (some (xs, rest)) = some (cons x xs, rest)

abbrev pub more_members : Text → Json → Option (Members × Text) → Option (Members × Text)
more_members k v none = none
more_members k v (some (ms, rest)) = some (member k v ms, rest)

-- What follows an item: a comma and the rest, or the bracket.
abbrev pub next_item : Json → Text → (Text → Option (Items × Text)) → Option (Items × Text)
next_item x [] go = none
next_item x (c ∷ s) go =
    if c == b',' then more_items x (go s) else if c == b']' then some (cons x nil, s) else none

abbrev pub next_member :
    Text → Json → Text → (Text → Option (Members × Text)) → Option (Members × Text)
next_member k v [] go = none
next_member k v (c ∷ s) go =
    if c == b','
    then more_members k v (go s)
    else if c == b'}'
    then some (member k v end, s)
    else none

abbrev pub array_of : Text → (Text → Option (Items × Text)) → Option (Items × Text)
array_of [] go = none
array_of (c ∷ s) go = if c == b']' then some (nil, s) else go (c ∷ s)

abbrev pub object_of : Text → (Text → Option (Members × Text)) → Option (Members × Text)
object_of [] go = none
object_of (c ∷ s) go = if c == b'}' then some (end, s) else go (c ∷ s)

unfoldable mutual
  unfolding read_string read_digits after

  pub read_value : ℕ → Text → Option (Json × Text)
  read_value zero s = none
  read_value (suc fuel) [] = none
  read_value (suc fuel) (c ∷ s) =
      let array = as_arr (array_of s (read_items fuel)) in
      let object = as_dict (object_of s (read_members fuel)) in
      if c == b'"'
      then as_str (read_string (c ∷ s))
      else if c == b'['
      then array
      else if c == b'{'
      then object
      else if c == b'-'
      then as_minus (read_digits 0 s)
      else if is_digit c
      then as_int (read_digits 0 (c ∷ s))
      else if c == b'n'
      then word null (after (codes "ull") s)
      else if c == b't'
      then word (bool true) (after (codes "rue") s)
      else if c == b'f'
      then word (bool false) (after (codes "alse") s)
      else none

  pub read_items : ℕ → Text → Option (Items × Text)
  read_items zero s = none
  read_items (suc fuel) s = elim (read_value fuel s) [
    | none ↦ none
    | some (x, rest) ↦ next_item x rest (read_items fuel)
  ]

  pub read_members : ℕ → Text → Option (Members × Text)
  read_members zero s = none
  read_members (suc fuel) s = elim (read_string s) [
    | none ↦ none
    | some (k, rest) ↦ elim (after (codes ":") rest) [
      | none ↦ none
      | some value ↦ elim (read_value fuel value) [
        | none ↦ none
        | some (v, behind) ↦ next_member k v behind (read_members fuel)
      ]
    ]
  ]

abbrev pub whole : Option (Json × Text) → Option Json
whole (some (j, [])) = some j
whole _ = none

-- The value of a text.
unfoldable pub read_json : Text → Option Json
unfolding read_value
read_json s = whole (read_value (length s) s)
