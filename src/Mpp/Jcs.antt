-- ===== src/Mpp/Jcs.antt =====
-- `_jcs_serialize` of src/routeweiler/rails/_mpp_http.py. Texts are lists of code points; `none` is the
-- TypeError of a float.
pub mod Strings
pub mod Reader
pub mod Parts
pub mod Containers
pub mod ReadBack
use routeweiler_python_sdk.Prelude.{
  ℕ, zero, suc, ◌+◌, ◌/◌, ◌%◌, Bool, true, false, Option, none, some, List, [], ◌∷◌, ◌++◌, ltb,
  ◌==◌, if◌then◌else◌,
}
use routeweiler_python_sdk.Prelude.Int.{ℤ, pos, negsuc}
use routeweiler_python_sdk.Bytes.Hex.{hex_digit}
use routeweiler_python_sdk.Texts.{Text, codes}

-- A value of Python's json; a dict is the list of its items, a float its literal.
mutual
  pub data Json : Type 0 where
    null : Json
    bool : Bool → Json
    int : ℤ → Json
    float : Text → Json
    str : Text → Json
    arr : Items → Json
    dict : Members → Json

  pub data Items : Type 0 where
    nil : Items
    cons : Json → Items → Items

  pub data Members : Type 0 where
    end : Members
    member : Text → Json → Members → Members

-- `s.replace(c, t)` for a character c.
unfoldable pub replace : ℕ → Text → Text → Text
replace c t [] = []
replace c t (d ∷ s) = let rest = replace c t s in if d == c then t ++ rest else d ∷ rest

-- The chain of replacements.
unfoldable pub escaped : Text → Text
unfolding replace
escaped s = replace b'\t' (codes "\\t") (
    replace b'\r' (codes "\\r") (
      replace b'\n' (codes "\\n") (
        replace 12 (codes "\\f") (
          replace 8 (codes "\\b") (replace b'"' (codes "\\\"") (replace b'\\' (codes "\\\\") s))))))

-- `f"\\u{cp:04x}"`, of a control character.
abbrev pub unicode_escape : ℕ → Text
unicode_escape cp = codes "\\u00" ++ hex_digit (cp / 16) ∷ hex_digit (cp % 16) ∷ []

-- The loop over the control characters that are left.
unfoldable pub control_escaped : Text → Text
control_escaped [] = []
control_escaped (c ∷ s) =
    let rest = control_escaped s in if ltb c 0x20 then unicode_escape c ++ rest else c ∷ rest

unfoldable pub quoted : Text → Text
unfolding escaped control_escaped
quoted s = b'"' ∷ (control_escaped (escaped s) ++ b'"' ∷ [])

-- The digits of a number in front of a text; the fuel is the number itself.
unfoldable pub digits_onto : ℕ → ℕ → Text → Text
digits_onto zero n rest = (b'0' + n % 10) ∷ rest
digits_onto (suc fuel) n rest =
    let more = digits_onto fuel (n / 10) ((b'0' + n % 10) ∷ rest) in
    if ltb n 10 then (b'0' + n % 10) ∷ rest else more

-- `str(obj)` of an int.
unfoldable pub decimal : ℤ → Text
unfolding digits_onto
decimal (pos n) = digits_onto n n []
decimal (negsuc n) = b'-' ∷ digits_onto (suc n) (suc n) []

-- `<` on texts.
unfoldable pub text_lt : Text → Text → Bool
text_lt [] [] = false
text_lt [] (b ∷ t) = true
text_lt (a ∷ s) [] = false
text_lt (a ∷ s) (b ∷ t) = let later = text_lt s t in if a == b then later else ltb a b

-- The sort of the items by their keys, item by item.
unfoldable pub insert : Text → Text → List (Text × Text) → List (Text × Text)
unfolding text_lt
insert k v [] = (k, v) ∷ []
insert k v ((j, w) ∷ ps) = if text_lt j k then (j, w) ∷ insert k v ps else (k, v) ∷ (j, w) ∷ ps

abbrev pub insert_some :
    Text → Option Text → Option (List (Text × Text)) → Option (List (Text × Text))
insert_some k (some v) (some ps) = some (insert k v ps)
insert_some k _ _ = none

abbrev pub cons_some : Option Text → Option (List Text) → Option (List Text)
cons_some (some t) (some ts) = some (t ∷ ts)
cons_some _ _ = none

-- `",".join(parts)`
unfoldable pub join : List Text → Text
join [] = []
join (t ∷ []) = t
join (t ∷ u ∷ ts) = t ++ b',' ∷ join (u ∷ ts)

unfoldable pub pairs_of : List (Text × Text) → List Text
unfolding quoted
pairs_of [] = []
pairs_of ((k, v) ∷ ps) = (quoted k ++ b':' ∷ v) ∷ pairs_of ps

abbrev pub bracketed : Option (List Text) → Option Text
bracketed none = none
bracketed (some ts) = some (b'[' ∷ (join ts ++ b']' ∷ []))

abbrev pub braced : Option (List (Text × Text)) → Option Text
braced none = none
braced (some ps) = some (b'{' ∷ (join (pairs_of ps) ++ b'}' ∷ []))

abbrev pub bool_text : Bool → Text
bool_text true = codes "true"
bool_text false = codes "false"

-- `_jcs_serialize`
unfoldable mutual
  unfolding quoted decimal insert join pairs_of

  pub jcs_serialize : Json → Option Text
  jcs_serialize null = some (codes "null")
  jcs_serialize (bool b) = some (bool_text b)
  jcs_serialize (int n) = some (decimal n)
  jcs_serialize (float _) = none
  jcs_serialize (str s) = some (quoted s)
  jcs_serialize (arr xs) = bracketed (serialize_items xs)
  jcs_serialize (dict ms) = braced (serialize_members ms)

  pub serialize_items : Items → Option (List Text)
  serialize_items nil = some []
  serialize_items (cons x xs) = cons_some (jcs_serialize x) (serialize_items xs)

  pub serialize_members : Members → Option (List (Text × Text))
  serialize_members end = some []
  serialize_members (member k v ms) = insert_some k (jcs_serialize v) (serialize_members ms)
