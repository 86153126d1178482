-- ===== src/Routing/Rank.antt =====
-- The order of the candidates of src/routeweiler/routing/router.py, in terms of their quotes and rails.
use routeweiler_python_sdk.Prelude.{
  ltb, ◌≡◌, ◌⊎◌, refl, inl, inr, Bool, true, false, Option, none, some, arith, Bool-cases,
  if◌then◌else◌,
}
use routeweiler_python_sdk.Prelude.Int.{ℤ, ltb_ℤ, ◌≤ℤ◌, eq_of_parts}
use routeweiler_python_sdk.Routing.{cost_lt, lex, float_quote}

-- A quote that is higher; no quote is the highest.
abbrev pub Dearer : Option ℤ → Option ℤ → Type 0
Dearer none (some q) = Unit
Dearer (some p) (some q) = ltb_ℤ q p ≡ true
Dearer _ none = ⊥

-- Quotes that are equal as floats.
abbrev pub Tied : (ℤ → ℤ) → Option ℤ → Option ℤ → Type 0
Tied float none none = Unit
Tied float (some p) (some q) = float p ≡ float q
Tied float _ _ = ⊥

-- What decides among equal quotes: first whether the rails are preferred, then whether they are the
-- default.
abbrev pub Ranked : Bool → Bool → Bool → Bool → Type 0
Ranked prefer prefer_w is_def is_def_w =
    ((prefer ≡ false) × (prefer_w ≡ true))
    ⊎ ((prefer ≡ prefer_w) × ((is_def ≡ false) ⊎ (is_def_w ≡ true)))

pub ranked :
    (a b c d : Bool)
    → lex
        (ltb (if a then 0 else 1) (if b then 0 else 1))
        (ltb (if b then 0 else 1) (if a then 0 else 1))
        (lex
          (ltb (if c then 0 else 1) (if d then 0 else 1))
          (ltb (if d then 0 else 1) (if c then 0 else 1))
          (ltb 0 0))
      ≡ false
    → Ranked a b c d
ranked true true true true h = inr (refl, inr refl)
ranked true true true false h = cc
ranked true true false d h = inr (refl, inl refl)
ranked true false c d h = cc
ranked false true c d h = inl (refl, refl)
ranked false false true true h = inr (refl, inr refl)
ranked false false true false h = cc
ranked false false false d h = inr (refl, inl refl)

pub lost :
    (float : ℤ → ℤ) (p q : Option ℤ) (rest : Bool) {P : Type 0}
    → ((a b : ℤ) → a ≤ℤ b → float a ≤ℤ float b)
    → lex
        (cost_lt (float_quote float p) (float_quote float q))
        (cost_lt (float_quote float q) (float_quote float p))
        rest
      ≡ false
    → (rest ≡ false → P)
    → Dearer p q ⊎ (Tied float p q × P)
lost float none none rest order h k = inr (tt, k h)
lost float none (some q) rest order h k = inl tt
lost float (some p) none rest order h k = cc
lost float (some p) (some q) rest order h k = elim (Bool-cases (ltb_ℤ (float q) (float p))) [
  | inl above ↦ elim (Bool-cases (ltb_ℤ q p)) [
    | inl dearer ↦ inl dearer
    | inr cheaper ↦
        let rounded = order p q (ground (arith, cheaper)) in
        let no : ⊥ = ground (arith, above, rounded) in elim no [ ]
  ]
  | inr level ↦ elim (Bool-cases (ltb_ℤ (float p) (float q))) [
    | inl below ↦ cc (rw below at h)
    | inr same ↦
        inr
          (eq_of_parts (float p) (float q) (ground (arith, level, same)), k (rw (same, level) at h))
  ]
]
