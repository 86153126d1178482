-- ===== src/Mpp/Jcs/ReadBack.antt =====
-- What `_jcs_serialize` writes is read back, with the items of each dict in the order of their keys.
use mathlib.Core.List.{append-nil}
use routeweiler_python_sdk.Prelude.{
  ◌≡◌, refl, ap, Option, none, some, List, [], ◌∷◌, ◌++◌, arith, length,
}
use routeweiler_python_sdk.Texts.{Text}
use routeweiler_python_sdk.Mpp.Jcs.{
  Json, Items, Members, null, bool, int, float, str, arr, dict, nil, cons, end, member, insert,
  insert_some, cons_some, join, pairs_of, bracketed, braced, jcs_serialize, serialize_items,
  serialize_members,
}
use routeweiler_python_sdk.Mpp.Jcs.Reader.{whole, read_json}
use routeweiler_python_sdk.Mpp.Jcs.Parts.{
  ReadsAs, null-ReadsAs, bool_text-ReadsAs, decimal-ReadsAs, quoted-ReadsAs,
}
use routeweiler_python_sdk.Mpp.Jcs.Containers.{
  ItemsReadAs, MembersReadAs, insert-MembersReadAs, items-ReadsAs, members-ReadsAs, in_order,
  items_in_order, members_in_order,
}

-- The parts of a text.
cons_some-some :
    (a : Option Text) (b : Option (List Text)) {ts : List Text}
    → cons_some a b ≡ some ts
    → (t : Text) × (us : List Text) × (a ≡ some t) × (b ≡ some us) × (ts ≡ t ∷ us)
cons_some-some none b h = cc
cons_some-some (some t) none h = cc
cons_some-some (some t) (some us) {ts} h = (t, us, refl, refl, cc)

insert_some-some :
    (k : Text) (a : Option Text) (b : Option (List (Text × Text))) {ps : List (Text × Text)}
    → insert_some k a b ≡ some ps
    → (t : Text) × (qs : List (Text × Text)) × (a ≡ some t) × (b ≡ some qs) × (ps ≡ insert k t qs)
insert_some-some k none b h = cc
insert_some-some k (some t) none h = cc
insert_some-some k (some t) (some qs) {ps} h = (t, qs, refl, refl, cc)

bracketed-some :
    (a : Option (List Text)) {t : Text}
    → bracketed a ≡ some t
    → (ts : List Text) × (a ≡ some ts) × (t ≡ b'[' ∷ (join ts ++ b']' ∷ []))
bracketed-some none h = cc
bracketed-some (some ts) {t} h = (ts, refl, cc)

braced-some :
    (a : Option (List (Text × Text))) {t : Text}
    → braced a ≡ some t
    → (ps : List (Text × Text)) × (a ≡ some ps) × (t ≡ b'{' ∷ (join (pairs_of ps) ++ b'}' ∷ []))
braced-some none h = cc
braced-some (some ps) {t} h = (ps, refl, cc)

same_text : (j : Json) {s t : Text} → some s ≡ some t → ReadsAs j s → ReadsAs j t
same_text j {s} {t} h r = let same : s ≡ t = cc in rw (← same) r

mutual
  unfolding jcs_serialize in_order

  serialize-ReadsAs : (j : Json) {t : Text} → jcs_serialize j ≡ some t → ReadsAs (in_order j) t
  serialize-ReadsAs null h = same_text null h null-ReadsAs
  serialize-ReadsAs (bool b) h = same_text (bool b) h (bool_text-ReadsAs b)
  serialize-ReadsAs (int n) h = same_text (int n) h (decimal-ReadsAs n)
  serialize-ReadsAs (float _) h = cc
  serialize-ReadsAs (str s) h = same_text (str s) h (quoted-ReadsAs s)
  serialize-ReadsAs (arr xs) h =
      let (ts, whole, same) = bracketed-some (serialize_items xs) h in
      rw same (items-ReadsAs (items_in_order xs) ts (serialize_items-ReadsAs xs whole))
  serialize-ReadsAs (dict ms) h =
      let (ps, whole, same) = braced-some (serialize_members ms) h in
      rw same (members-ReadsAs (members_in_order ms) ps (serialize_members-ReadsAs ms whole))

  serialize_items-ReadsAs :
      (xs : Items) {ts : List Text}
      → serialize_items xs ≡ some ts
      → ItemsReadAs (items_in_order xs) ts
  serialize_items-ReadsAs nil {ts} h = let same : [] ≡ ts = cc in rw (← same) tt
  serialize_items-ReadsAs (cons x xs) h =
      let (t, us, first, rest, same) = cons_some-some (jcs_serialize x) (serialize_items xs) h in
      rw same (serialize-ReadsAs x first, serialize_items-ReadsAs xs rest)

  serialize_members-ReadsAs :
      (ms : Members) {ps : List (Text × Text)}
      → serialize_members ms ≡ some ps
      → MembersReadAs (members_in_order ms) ps
  serialize_members-ReadsAs end {ps} h = let same : [] ≡ ps = cc in rw (← same) tt
  serialize_members-ReadsAs (member k v ms) h =
      let (t, qs, first, rest, same) =
        insert_some-some k (jcs_serialize v) (serialize_members ms) h in
      rw same (
        insert-MembersReadAs k (in_order v) t (members_in_order ms) qs (serialize-ReadsAs v first)
          (serialize_members-ReadsAs ms rest))

-- The text that is written of a value is read as that value, with the items of every dict in the order of
-- their keys.
pub read_json-jcs_serialize :
    (j : Json) {t : Text} → jcs_serialize j ≡ some t → read_json t ≡ some (in_order j)
unfolding read_json
read_json-jcs_serialize j {t} h =
    ap whole (rw append-nil at (serialize-ReadsAs j h (length t) [] (omega arith) tt))
