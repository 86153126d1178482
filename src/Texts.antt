-- ===== src/Texts.antt =====
-- The operations of Python's str and dict that src/routeweiler/ uses, on lists of character codes.
-- `lower` is that of ASCII.
use routeweiler_python_sdk.Prelude.{
  ℕ, ◌+◌, ◌≡◌, ◌↔◌, refl, String, Bool, true, false, Option, none, some, List, [], ◌∷◌, ◌&&◌, ◌||◌,
  leb, ◌==◌, map, arith, if◌then◌else◌,
}
use Prim.Native.Char.{code}

abbrev pub Text : Type 0
Text = List ℕ

-- The characters of a literal.
abbrev pub codes : String → Text
codes String.[] = []
codes (String.◌∷◌ c s) = code c ∷ codes s

unfoldable pub text_eq : Text → Text → Bool
text_eq [] [] = true
text_eq (a ∷ s) (b ∷ t) = a == b && text_eq s t
text_eq _ _ = false

unfoldable pub starts_with : Text → Text → Bool
starts_with [] s = true
starts_with (p ∷ ps) [] = false
starts_with (p ∷ ps) (c ∷ s) = p == c && starts_with ps s

abbrev pub prepend : ℕ → Option Text → Option Text
prepend c none = none
prepend c (some t) = some (c ∷ t)

-- `s.endswith(suffix)` and `s[: -len(suffix)]`
unfoldable pub remove_suffix : Text → Text → Option Text
unfolding text_eq
remove_suffix suffix [] = if text_eq suffix [] then some [] else none
remove_suffix suffix (c ∷ s) =
    let later = prepend c (remove_suffix suffix s) in
    if text_eq suffix (c ∷ s) then some [] else later

-- `part in s`
unfoldable pub is_in : Text → Text → Bool
unfolding starts_with
is_in part [] = starts_with part []
is_in part (c ∷ s) = starts_with part (c ∷ s) || is_in part s

unfoldable pub drop_prefix : Text → Text → Text
drop_prefix [] s = s
drop_prefix (p ∷ ps) [] = []
drop_prefix (p ∷ ps) (c ∷ s) = drop_prefix ps s

-- `s.rsplit(part, maxsplit=1)[-1]`, of a text that has the part.
unfoldable pub after_last : Text → Text → Text
unfolding is_in drop_prefix
after_last part [] = []
after_last part (c ∷ s) =
    let later = after_last part s in if is_in part s then later else drop_prefix part (c ∷ s)

unfoldable pub lower : Text → Text
lower = map (λ c. if leb b'A' c && leb c b'Z' then c + 32 else c)

abbrev pub is_space : ℕ → Bool
is_space c = c == b' ' || (leb 9 c && leb c 13) || (leb 28 c && leb c 31)

unfoldable pub lstrip : Text → Text
lstrip [] = []
lstrip (c ∷ s) = let rest = lstrip s in if is_space c then rest else c ∷ s

abbrev pub unless_blank : ℕ → Text → Text
unless_blank c [] = if is_space c then [] else c ∷ []
unless_blank c (d ∷ s) = c ∷ d ∷ s

unfoldable pub rstrip : Text → Text
rstrip [] = []
rstrip (c ∷ s) = unless_blank c (rstrip s)

-- `s.strip()`
unfoldable pub strip : Text → Text
unfolding lstrip rstrip
strip s = lstrip (rstrip s)

module _ {V : Type 0} where
  -- `d.get(k)`
  unfoldable pub get : Text → List (Text × V) → Option V
  get k [] = none
  get k ((j, v) ∷ rest) = if text_eq j k then some v else get k rest

  -- `d[k] = v`
  unfoldable pub put : Text → V → List (Text × V) → List (Text × V)
  put k v [] = (k, v) ∷ []
  put k v ((j, w) ∷ rest) = if text_eq j k then (j, v) ∷ rest else (j, w) ∷ put k v rest

pub text_eq_refl : (s : Text) → text_eq s s ≡ true
unfolding text_eq
text_eq_refl [] = refl
text_eq_refl (c ∷ s) = ground (arith, text_eq_refl s)

pub eq_of_text_eq : (s t : Text) → text_eq s t ≡ true → s ≡ t
unfolding text_eq
eq_of_text_eq [] [] h = refl
eq_of_text_eq [] (b ∷ t) h = cc
eq_of_text_eq (a ∷ s) [] h = cc
eq_of_text_eq (a ∷ s) (b ∷ t) h =
    let head : a ≡ b = ground (arith, h) in
    let tail : s ≡ t = eq_of_text_eq s t (ground (arith, h)) in cc

pub text_eq_iff : (s t : Text) → (text_eq s t ≡ true) ↔ (s ≡ t)
text_eq_iff s t = (eq_of_text_eq s t, λ (e : s ≡ t). rw e (text_eq_refl t))

pub get-put :
    {V : Type 0} (k j : Text) (v : V) (d : List (Text × V))
    → get j (put k v d) ≡ (if text_eq k j then some v else get j d)
unfolding get put
get-put k j v [] = refl
get-put k j v ((i, w) ∷ d) =
    ground (arith, text_eq_iff k j, text_eq_iff i k, text_eq_iff i j, get-put k j v d)
