-- ===== src/Tempo/Meaning.antt =====
-- What the items of RLP stand for, apart from how they are written.
use routeweiler_python_sdk.Prelude.{
  ℕ, zero, suc, ◌≤◌, ◌<◌, ◌/◌, ◌%◌, ◌≡◌, inl, inr, [], ◌∷◌, ◌++◌, length, arith, Bool-cases, ◌==◌,
  ltb,
}
use routeweiler_python_sdk.Bytes.{Bytes, byte_length, to_bytes, from_bytes}
use routeweiler_python_sdk.Bytes.Numbers.{
  byte_length-zero, byte_length_step, length-to_bytes, from_bytes-to_bytes, Fits-byte_length,
}
use routeweiler_python_sdk.Tempo.{Rlp, int, bytes, list, RlpList, nil, cons, int_bytes}
use routeweiler_python_sdk.Tempo.Decode.{Item, ItemList, str, lst}
use routeweiler_python_sdk.Tempo.Decode as Decode

-- No zero byte in front.
abbrev pub NoZeroFirst : Bytes → Type 0
NoZeroFirst [] = Unit
NoZeroFirst (b ∷ bs) = 0 < b

-- Whether an item stands for a value: an integer is a string that is it in base 256, without a zero in
-- front, a string is itself, and a list stands item by item.
abbrev mutual
  pub StandsFor : Item → Rlp → Type 0
  StandsFor (str bs) (int v) = (from_bytes 0 bs ≡ v) × NoZeroFirst bs
  StandsFor (str bs) (bytes cs) = bs ≡ cs
  StandsFor (str bs) (list xs) = ⊥
  StandsFor (lst is) (int v) = ⊥
  StandsFor (lst is) (bytes cs) = ⊥
  StandsFor (lst is) (list xs) = StandForAll is xs

  pub StandForAll : ItemList → RlpList → Type 0
  StandForAll Decode.nil nil = Unit
  StandForAll Decode.nil (cons x xs) = ⊥
  StandForAll (Decode.cons i is) nil = ⊥
  StandForAll (Decode.cons i is) (cons x xs) = StandsFor i x × StandForAll is xs

NoZeroFirst-append : (xs ys : Bytes) → 0 < length xs → NoZeroFirst xs → NoZeroFirst (xs ++ ys)
NoZeroFirst-append [] ys h k = absurd (omega (arith, h))
NoZeroFirst-append (x ∷ xs) ys h k = k

shortest : (fuel v : ℕ) → v ≤ fuel → 0 < v → NoZeroFirst (to_bytes (byte_length v) v)
unfolding to_bytes
shortest zero v h pos = absurd (omega (arith, h, pos))
shortest (suc fuel) v h pos = rw (byte_length_step v pos) (elim (Bool-cases (ltb v 256)) [
  | inl small ↦
      let none_before : v / 256 ≡ 0 = ground (arith, small) in
      rw (none_before, byte_length-zero) (ground (arith, small, pos))
  | inr large ↦
      let ih = shortest fuel (v / 256) (ground (arith, h, large)) (ground (arith, large)) in
      NoZeroFirst-append (to_bytes (byte_length (v / 256)) (v / 256)) (v % 256 ∷ [])
        (omega (
          arith,
          length-to_bytes (byte_length (v / 256)) (v / 256),
          byte_length_step (v / 256) (ground (arith, large)),
        ))
        ih
])

-- The bytes of an integer are its shortest.
pub int_bytes-StandsFor : (v : ℕ) → StandsFor (str (int_bytes v)) (int v)
unfolding int_bytes
int_bytes-StandsFor v = elim (Bool-cases (v == 0)) [
  | inl none_needed ↦ rw none_needed (unfold from_bytes in ground (arith, none_needed), tt)
  | inr some_needed ↦ rw some_needed (
    from_bytes-to_bytes (byte_length v) v (Fits-byte_length v),
    shortest v v (omega arith) (ground (arith, some_needed)),
  )
]
