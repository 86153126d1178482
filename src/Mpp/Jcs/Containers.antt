-- ===== src/Mpp/Jcs/Containers.antt =====
-- The lists and dicts that `_jcs_serialize` writes, read back part by part.
use mathlib.Core.List.{append_assoc}
use routeweiler_python_sdk.Prelude.{
  ℕ, zero, suc, ◌≤◌, ◌<◌, ◌≡◌, refl, ap, ◌∙◌, inl, inr, Option, some, List, [], ◌∷◌, ◌++◌, ◌==◌,
  arith, length, length-append, if◌then◌else◌, Bool-cases,
}
use routeweiler_python_sdk.Texts.{Text}
use routeweiler_python_sdk.Mpp.Jcs.{
  Json, Items, Members, null, bool, int, float, str, arr, dict, nil, cons, end, member, text_lt,
  quoted, insert, join, pairs_of,
}
use routeweiler_python_sdk.Mpp.Jcs.Strings.{read_string, read_string-quoted}
use routeweiler_python_sdk.Mpp.Jcs.Reader.{
  read_value, read_items, read_members, array_of, object_of, next_item, next_member, more_items,
  more_members, as_arr, as_dict, after,
}
use routeweiler_python_sdk.Mpp.Jcs.Parts.{Stops, ReadsAs}

-- The same value with the items of every dict in the order of their keys.
unfoldable pub insert_member : Text → Json → Members → Members
unfolding text_lt
insert_member k v end = member k v end
insert_member k v (member j w ms) =
    if text_lt j k then member j w (insert_member k v ms) else member k v (member j w ms)

unfoldable mutual
  unfolding insert_member

  pub in_order : Json → Json
  in_order (arr xs) = arr (items_in_order xs)
  in_order (dict ms) = dict (members_in_order ms)
  in_order null = null
  in_order (bool b) = bool b
  in_order (int n) = int n
  in_order (float s) = float s
  in_order (str s) = str s

  pub items_in_order : Items → Items
  items_in_order nil = nil
  items_in_order (cons x xs) = cons (in_order x) (items_in_order xs)

  pub members_in_order : Members → Members
  members_in_order end = end
  members_in_order (member k v ms) = insert_member k (in_order v) (members_in_order ms)

abbrev pub ItemsReadAs : Items → List Text → Type 0
ItemsReadAs nil [] = Unit
ItemsReadAs (cons x xs) (t ∷ ts) = ReadsAs x t × ItemsReadAs xs ts
ItemsReadAs _ _ = ⊥

abbrev pub MembersReadAs : Members → List (Text × Text) → Type 0
MembersReadAs end [] = Unit
MembersReadAs (member k v ms) ((j, t) ∷ ps) = (k ≡ j) × (ReadsAs v t × MembersReadAs ms ps)
MembersReadAs _ _ = ⊥

pub insert-MembersReadAs :
    (k : Text) (v : Json) (t : Text) (ms : Members) (ps : List (Text × Text))
    → ReadsAs v t
    → MembersReadAs ms ps
    → MembersReadAs (insert_member k v ms) (insert k t ps)
unfolding insert insert_member
insert-MembersReadAs k v t end [] r h = (refl, (r, tt))
insert-MembersReadAs k v t end (p ∷ ps) r h = elim h [ ]
insert-MembersReadAs k v t (member j w ms) [] r h = elim h [ ]
insert-MembersReadAs k v t (member j w ms) ((i, u) ∷ ps) r h =
    rw (h.0) (elim (Bool-cases (text_lt i k)) [
      | inl before ↦ rw before (refl, (h.1.0, insert-MembersReadAs k v t ms ps r h.1.1))
      | inr behind ↦ rw behind (refl, (r, (refl, h.1)))
    ])

-- A value in front of `[` is not its end.
array_of_value :
    (x : Json) (t rest : Text) (go : Text → Option (Items × Text))
    → ReadsAs x t
    → array_of (t ++ rest) go ≡ go (t ++ rest)
unfolding read_value
array_of_value x [] rest go r = cc (r 0 [] (omega arith) tt)
array_of_value x (c ∷ t) rest go r = elim (Bool-cases (c == b']')) [
  | inl bracket ↦
      let same : c ≡ b']' = ground (arith, bracket) in
      cc (rw same at (r (suc (length t)) [] (omega arith) tt))
  | inr other ↦ rw other
]

step_items :
    (f : ℕ) (x : Json) (s rest : Text)
    → read_value f s ≡ some (x, rest)
    → read_items (suc f) s ≡ next_item x rest (read_items f)
unfolding read_items
step_items f x s rest h = rw h

read_items-join :
    (x : Json) (xs : Items) (t : Text) (ts : List Text) (f : ℕ) (rest : Text)
    → ReadsAs x t
    → ItemsReadAs xs ts
    → length (join (t ∷ ts)) < f
    → read_items f (join (t ∷ ts) ++ b']' ∷ rest) ≡ some (cons x xs, rest)
unfolding join
read_items-join x xs t ts zero rest r rs h = absurd (omega (arith, h))
read_items-join x nil t [] (suc f) rest r rs h =
    step_items f x (t ++ b']' ∷ rest) (b']' ∷ rest) (r f (b']' ∷ rest) (omega (arith, h)) refl)
read_items-join x (cons y ys) t [] (suc f) rest r rs h = elim rs [ ]
read_items-join x nil t (u ∷ ts) (suc f) rest r rs h = elim rs [ ]
read_items-join x (cons y ys) t (u ∷ ts) (suc f) rest r rs h =
    let tail = join (u ∷ ts) ++ b']' ∷ rest in
    let joined = length-append t (b',' ∷ join (u ∷ ts)) in
    rw append_assoc (
      step_items f x (t ++ b',' ∷ tail) (b',' ∷ tail)
        (r f (b',' ∷ tail) (omega (arith, h, joined)) refl)
      ∙ ap (more_items x) (read_items-join y ys u ts f rest rs.0 rs.1 (omega (arith, h, joined))))

array_of-join :
    (x : Json) (t : Text) (ts : List Text) (rest : Text) (go : Text → Option (Items × Text))
    → ReadsAs x t
    → array_of (join (t ∷ ts) ++ rest) go ≡ go (join (t ∷ ts) ++ rest)
unfolding join
array_of-join x t [] rest go r = array_of_value x t rest go r
array_of-join x t (u ∷ ts) rest go r =
    rw append_assoc (array_of_value x t (b',' ∷ join (u ∷ ts) ++ rest) go r)

pub items-ReadsAs :
    (xs : Items) (ts : List Text)
    → ItemsReadAs xs ts
    → ReadsAs (arr xs) (b'[' ∷ (join ts ++ b']' ∷ []))
unfolding read_value
items-ReadsAs nil [] h zero rest room stops = absurd (omega (arith, room))
items-ReadsAs nil [] h (suc f) rest room stops = unfold join in refl
items-ReadsAs nil (t ∷ ts) h f rest room stops = elim h [ ]
items-ReadsAs (cons x xs) [] h f rest room stops = elim h [ ]
items-ReadsAs (cons x xs) (t ∷ ts) h zero rest room stops = absurd (omega (arith, room))
items-ReadsAs (cons x xs) (t ∷ ts) h (suc f) rest room stops =
    let size = length-append (join (t ∷ ts)) (b']' ∷ []) in
    rw append_assoc (
      ap as_arr (
        array_of-join x t ts (b']' ∷ rest) (read_items f) h.0
        ∙ read_items-join x xs t ts f rest h.0 h.1 (omega (arith, room, size))))

-- The items of a dict.
step_members :
    (f : ℕ) (k : Text) (v : Json) (s value behind : Text)
    → read_string s ≡ some (k, b':' ∷ value)
    → read_value f value ≡ some (v, behind)
    → read_members (suc f) s ≡ next_member k v behind (read_members f)
unfolding read_members after
step_members f k v s value behind key h = rw (key, h, read_members)

read_pair :
    (f : ℕ) (k : Text) (v : Json) (t rest : Text)
    → ReadsAs v t
    → length t ≤ f
    → Stops rest
    → read_members (suc f) ((quoted k ++ b':' ∷ t) ++ rest) ≡ next_member k v rest (read_members f)
read_pair f k v t rest r room stops = rw append_assoc (
    step_members f k v (quoted k ++ b':' ∷ (t ++ rest)) (t ++ rest) rest
      (read_string-quoted k (b':' ∷ (t ++ rest))) (r f rest room stops))

read_members-join :
    (k : Text) (v : Json) (ms : Members) (t : Text) (ps : List (Text × Text)) (f : ℕ) (rest : Text)
    → ReadsAs v t
    → MembersReadAs ms ps
    → length (join (pairs_of ((k, t) ∷ ps))) < f
    → read_members f (join (pairs_of ((k, t) ∷ ps)) ++ b'}' ∷ rest) ≡ some (member k v ms, rest)
unfolding join pairs_of
read_members-join k v ms t ps zero rest r rs h = absurd (omega (arith, h))
read_members-join k v end t [] (suc f) rest r rs h =
    let size = length-append (quoted k) (b':' ∷ t) in
    read_pair f k v t (b'}' ∷ rest) r (omega (arith, h, size)) refl
read_members-join k v (member i w ms) t [] (suc f) rest r rs h = elim rs [ ]
read_members-join k v end t (p ∷ ps) (suc f) rest r rs h = elim rs [ ]
read_members-join k v (member i w ms) t ((j, u) ∷ ps) (suc f) rest r rs h =
    let tail = join (pairs_of ((j, u) ∷ ps)) in
    let joined = length-append (quoted k ++ b':' ∷ t) (b',' ∷ tail) in
    let size = length-append (quoted k) (b':' ∷ t) in
    rw (rs.0, append_assoc)
      (read_pair f k v t (b',' ∷ tail ++ b'}' ∷ rest) r (omega (arith, h, joined, size)) refl
        ∙ ap (more_members k v)
            (read_members-join j w ms u ps f rest rs.1.0 rs.1.1 (omega (arith, h, joined))))

object_of-join :
    (k t : Text) (ps : List (Text × Text)) (rest : Text) (go : Text → Option (Members × Text))
    → object_of (join (pairs_of ((k, t) ∷ ps)) ++ rest) go
      ≡ go (join (pairs_of ((k, t) ∷ ps)) ++ rest)
unfolding join pairs_of
object_of-join k t [] rest go = refl
object_of-join k t (p ∷ ps) rest go = refl

pub members-ReadsAs :
    (ms : Members) (ps : List (Text × Text))
    → MembersReadAs ms ps
    → ReadsAs (dict ms) (b'{' ∷ (join (pairs_of ps) ++ b'}' ∷ []))
unfolding read_value
members-ReadsAs end [] h zero rest room stops = absurd (omega (arith, room))
members-ReadsAs end [] h (suc f) rest room stops = unfold join pairs_of in refl
members-ReadsAs end (p ∷ ps) h f rest room stops = elim h [ ]
members-ReadsAs (member k v ms) [] h f rest room stops = elim h [ ]
members-ReadsAs (member k v ms) ((j, t) ∷ ps) h zero rest room stops = absurd (omega (arith, room))
members-ReadsAs (member k v ms) ((j, t) ∷ ps) h (suc f) rest room stops =
    let text = join (pairs_of ((j, t) ∷ ps)) in
    let size = length-append text (b'}' ∷ []) in
    rw (h.0) (
      rw append_assoc (
        ap as_dict (
          object_of-join j t ps (b'}' ∷ rest) (read_members f)
          ∙ read_members-join j v ms t ps f rest h.1.0 h.1.1 (omega (arith, room, size)))))
