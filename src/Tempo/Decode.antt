-- ===== src/Tempo/Decode.antt =====
-- A decoder for RLP, after the description of the encoding: a first byte below 0x80 stands for itself,
-- 0x80 starts a string and 0xc0 a list, with the length or the length of the length behind it.
use routeweiler_python_sdk.Prelude.{
  ℕ, zero, suc, ◌-◌, Option, none, some, [], ◌∷◌, ◌++◌, ltb, ◌≡◌, refl, length, if◌then◌else◌,
}
use routeweiler_python_sdk.Bytes.{Bytes, from_bytes}
use routeweiler_python_sdk.Tempo.{◌>>=◌}

-- What RLP transports: strings of bytes and lists.
mutual
  pub data Item : Type 0 where
    str : Bytes → Item
    lst : ItemList → Item

  pub data ItemList : Type 0 where
    nil : ItemList
    cons : Item → ItemList → ItemList

pub data Kind : Type 0 where
  string listing : Kind

-- What a first byte announces: itself, or so many bytes of a kind, and the input behind it.
pub data Header : Type 0 where
  single : ℕ → Bytes → Header
  sized : Kind → ℕ → Bytes → Header

unfoldable pub split_at : ℕ → Bytes → Option (Bytes × Bytes)
split_at zero bs = some ([], bs)
split_at (suc n) [] = none
split_at (suc n) (b ∷ bs) = split_at n bs >>= λ p. some (b ∷ p.0, p.1)

unfoldable pub read_length : Kind → ℕ → Bytes → Option Header
read_length k n rest =
    let long = split_at (n - 55) rest >>= λ p. some (sized k (from_bytes 0 p.0) p.1) in
    if ltb n 56 then some (sized k n rest) else long

unfoldable pub read_header : Bytes → Option Header
read_header [] = none
read_header (b ∷ rest) =
    if ltb b 0x80
    then some (single b rest)
    else if ltb b 0xC0
    then read_length string (b - 0x80) rest
    else read_length listing (b - 0xC0) rest

-- Each call costs a unit of fuel.
unfoldable mutual
  pub decode : ℕ → Bytes → Option (Item × Bytes)
  decode zero bs = none
  decode (suc fuel) bs = elim (read_header bs) [
    | none ↦ none
    | some (single b rest) ↦ some (str (b ∷ []), rest)
    | some (sized string n rest) ↦ split_at n rest >>= λ p. some (str p.0, p.1)
    | some (sized listing n rest) ↦
        split_at n rest >>= λ p. decode_all fuel p.0 >>= λ xs. some (lst xs, p.1)
  ]

  pub decode_all : ℕ → Bytes → Option ItemList
  decode_all zero bs = none
  decode_all (suc fuel) [] = some nil
  decode_all (suc fuel) (b ∷ bs) =
      decode fuel (b ∷ bs) >>= λ p. decode_all fuel p.1 >>= λ xs. some (cons p.0 xs)

pub split_at-append : (xs ys : Bytes) → split_at (length xs) (xs ++ ys) ≡ some (xs, ys)
unfolding split_at
split_at-append [] ys = refl
split_at-append (x ∷ xs) ys = rw (split_at-append xs ys)
