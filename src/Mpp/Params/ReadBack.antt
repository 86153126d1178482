-- ===== src/Mpp/Params/ReadBack.antt =====
-- The parameters of a header that is written with quoted values are read back.
use mathlib.Core.List.{append_assoc, append-nil}
use routeweiler_python_sdk.Prelude.{
  ℕ, zero, suc, ◌≤◌, ◌<◌, ◌≡◌, refl, ap, ◌∙◌, true, some, List, [], ◌∷◌, ◌++◌, arith, length,
  length-append, All,
}
use routeweiler_python_sdk.Texts.{Text, codes, lower, rstrip, strip, put}
use routeweiler_python_sdk.Mpp.Params.{
  is_letter, is_key_char, span, key_at, value_at, find_params, unescaped, collect,
  parse_payment_challenge,
}
use routeweiler_python_sdk.Mpp.Params.Written.{escape, unescaped-escape, quoted_body-escape}

-- A key: a letter and letters, digits or dashes, in lower case.
pub record IsKey (k : Text) : Type 0 where
  pub first : ℕ
  pub others : Text
  pub parts : k ≡ first ∷ others
  pub letter : is_letter first ≡ true
  pub key_chars : All (λ c. is_key_char c ≡ true) others
  pub low : lower k ≡ k

abbrev pub written : Text × Text → Text
written (k, v) = k ++ b'=' ∷ b'"' ∷ (escape v ++ b'"' ∷ [])

-- The parameters one after another, with a comma and a blank between them.
unfoldable pub all_written : Text × Text → List (Text × Text) → Text
all_written p [] = written p
all_written p (q ∷ ps) = written p ++ b',' ∷ b' ' ∷ all_written q ps

-- The dict of the parameters.
unfoldable pub as_dict : List (Text × Text) → List (Text × Text) → List (Text × Text)
unfolding put
as_dict [] result = result
as_dict ((k, v) ∷ ps) result = as_dict ps (put k v result)

abbrev raw : Text × Text → Text × Text
raw (k, v) = (k, escape v)

abbrev raws : List (Text × Text) → List (Text × Text)
raws [] = []
raws (p ∷ ps) = raw p ∷ raws ps

span_key :
    (s rest : Text)
    → All (λ c. is_key_char c ≡ true) s
    → span is_key_char (s ++ b'=' ∷ rest) ≡ (s, b'=' ∷ rest)
unfolding span
span_key [] rest h = refl
span_key (c ∷ s) rest h = rw (h.0, span_key s rest h.1)

key_at-IsKey : (k rest : Text) → IsKey k → key_at (k ++ b'=' ∷ rest) ≡ some (k, rest)
unfolding key_at
key_at-IsKey k rest h = rw (h.parts, h.letter, span_key h.others rest h.key_chars)

value_at-escape :
    (v rest : Text) → value_at (b'"' ∷ (escape v ++ b'"' ∷ rest)) ≡ some (escape v, rest)
unfolding value_at
value_at-escape v rest = rw (quoted_body-escape v rest, value_at)

-- A parameter in front.
find_step :
    (f c : ℕ) (s t key behind raw_value rest : Text)
    → t ≡ c ∷ s
    → key_at t ≡ some (key, behind)
    → value_at behind ≡ some (raw_value, rest)
    → find_params (suc f) t ≡ (key, raw_value) ∷ find_params f rest
unfolding find_params
find_step f c s t key behind raw_value rest same k v = rw same (rw (rw same at k, v, find_params))

find_written :
    (f : ℕ) (k v rest : Text)
    → IsKey k
    → find_params (suc f) (written (k, v) ++ rest) ≡ (k, escape v) ∷ find_params f rest
find_written f k v rest h =
    let behind = b'"' ∷ (escape v ++ b'"' ∷ rest) in
    let text : written (k, v) ++ rest ≡ k ++ b'=' ∷ behind =
      append_assoc k (b'=' ∷ b'"' ∷ (escape v ++ b'"' ∷ [])) rest
      ∙ ap (λ t. k ++ b'=' ∷ b'"' ∷ t) (append_assoc (escape v) (b'"' ∷ []) rest) in
    rw text (
      find_step f h.first (h.others ++ b'=' ∷ behind) (k ++ b'=' ∷ behind) k behind (escape v) rest
        (ap (λ t. t ++ b'=' ∷ behind) h.parts) (key_at-IsKey k behind h) (value_at-escape v rest))

find_separator :
    (f : ℕ) (rest : Text) → find_params (suc (suc f)) (b',' ∷ b' ' ∷ rest) ≡ find_params f rest
unfolding find_params
find_separator f rest = refl

find_end : (f : ℕ) → find_params f [] ≡ []
unfolding find_params
find_end zero = refl
find_end (suc f) = refl

length-written_pos : (p : Text × Text) → 0 < length (written p)
length-written_pos (k, v) = omega (arith, length-append k (b'=' ∷ b'"' ∷ (escape v ++ b'"' ∷ [])))

find_all_written :
    (f : ℕ) (p : Text × Text) (ps : List (Text × Text))
    → IsKey p.0
    → All (λ q. IsKey q.0) ps
    → length (all_written p ps) ≤ f
    → find_params f (all_written p ps) ≡ raws (p ∷ ps)
unfolding all_written
find_all_written zero p [] h hs room = absurd (omega (arith, room, length-written_pos p))
find_all_written (suc f) p [] h hs room =
    (rw append-nil at (find_written f p.0 p.1 [] h)) ∙ ap (λ ms. raw p ∷ ms) (find_end f)
find_all_written zero p (q ∷ ps) h hs room =
    absurd (omega (arith, room, length-append (written p) (b',' ∷ b' ' ∷ all_written q ps)))
find_all_written (suc zero) p (q ∷ ps) h hs room =
    absurd (omega (arith, room, length-append (written p) (b',' ∷ b' ' ∷ all_written q ps)))
find_all_written (suc (suc zero)) p (q ∷ ps) h hs room = absurd (
    omega (
      arith,
      room,
      length-written_pos p,
      length-append (written p) (b',' ∷ b' ' ∷ all_written q ps),
    ))
find_all_written (suc (suc (suc f))) p (q ∷ ps) h hs room =
    let size = length-append (written p) (b',' ∷ b' ' ∷ all_written q ps) in
    find_written (suc (suc f)) p.0 p.1 (b',' ∷ b' ' ∷ all_written q ps) h
    ∙ ap (λ ms. raw p ∷ ms)
        (find_separator f (all_written q ps)
          ∙ find_all_written f q ps hs.0 hs.1 (omega (arith, room, size, length-written_pos p)))

collect_step :
    (k r : Text) (ms result : List (Text × Text))
    → collect ((k, r) ∷ ms) result ≡ collect ms (put (lower k) (unescaped r) result)
unfolding collect
collect_step k r ms result = refl

put-raw :
    (k v : Text) (result : List (Text × Text))
    → lower k ≡ k
    → put (lower k) (unescaped (escape v)) result ≡ put k v result
put-raw k v result h = rw (h, unescaped-escape v)

collect-raws :
    (ps : List (Text × Text)) (result : List (Text × Text))
    → All (λ q. IsKey q.0) ps
    → collect (raws ps) result ≡ as_dict ps result
collect-raws [] result h = unfold collect as_dict in refl
collect-raws ((k, v) ∷ ps) result h =
    collect_step k (escape v) (raws ps) result
    ∙ ap (collect (raws ps)) (put-raw k v result h.0.low)
    ∙ collect-raws ps (put k v result) h.1
    ∙ (unfold as_dict in refl)

-- The quote at the end keeps `strip` off.
rstrip-append :
    (s t : Text) (c : ℕ) (u : Text) → t ≡ c ∷ u → rstrip t ≡ t → rstrip (s ++ t) ≡ s ++ t
unfolding rstrip
rstrip-append [] t c u same h = h
rstrip-append (x ∷ []) t c u same h = rw (h, same) refl
rstrip-append (x ∷ y ∷ s) t c u same h = rw (rstrip-append (y ∷ s) t c u same h) refl

ends : (s : Text) → rstrip (s ++ b'"' ∷ []) ≡ s ++ b'"' ∷ []
ends s = rstrip-append s (b'"' ∷ []) b'"' [] refl (unfold rstrip in refl)

rstrip-written : (s : Text) (p : Text × Text) → rstrip (s ++ written p) ≡ s ++ written p
rstrip-written s (k, v) =
    let text : s ++ written (k, v) ≡ (s ++ (k ++ b'=' ∷ b'"' ∷ escape v)) ++ b'"' ∷ [] =
      simp append_assoc in
    rw text (ends (s ++ (k ++ b'=' ∷ b'"' ∷ escape v)))

rstrip-all_written :
    (s : Text) (p : Text × Text) (ps : List (Text × Text))
    → rstrip (s ++ all_written p ps) ≡ s ++ all_written p ps
unfolding all_written
rstrip-all_written s p [] = rstrip-written s p
rstrip-all_written s p (q ∷ ps) =
    let text : s ++ (written p ++ b',' ∷ b' ' ∷ all_written q ps)
        ≡ (s ++ (written p ++ b',' ∷ b' ' ∷ [])) ++ all_written q ps =
      simp append_assoc in
    rw text (rstrip-all_written (s ++ (written p ++ b',' ∷ b' ' ∷ [])) q ps)

strip_header :
    (p : Text × Text) (ps : List (Text × Text))
    → strip (codes "Payment " ++ all_written p ps) ≡ codes "Payment " ++ all_written p ps
strip_header p ps = unfold strip in rw (rstrip-all_written (codes "Payment ") p ps) refl

-- A header of the scheme with any quoted values, under keys in lower case, is read as the dict of its
-- parameters.
pub parse_payment_challenge-written :
    (p : Text × Text) (ps : List (Text × Text))
    → All (λ q. IsKey q.0) (p ∷ ps)
    → parse_payment_challenge (codes "Payment " ++ all_written p ps) ≡ some (as_dict (p ∷ ps) [])
unfolding parse_payment_challenge
parse_payment_challenge-written p ps h =
    let text = all_written p ps in
    rw (strip_header p ps) (
      ap some (
        ap (λ ms. collect ms []) (find_all_written (length text) p ps h.0 h.1 (omega arith))
        ∙ collect-raws (p ∷ ps) [] h))
